-- ===== src/SharedMemory/Tables.antt =====
-- sharedMemoryLib.c: what a reader gets after a writer.
use multicat_supervisor.Base.{
  ℕ, zero, suc, ◌-◌, ◌<◌, ◌≡◌, ◌≢◌, refl, ap, ◌∙◌, arith, true, false, some, [], ◌∷◌, get_elem?,
  set, length, length-set,
}
use multicat_supervisor.Supervisor.{EitInfo}
use multicat_supervisor.SharedMemory.{
  Memory, slot, Result, shared_memory_set, shared_memory_get, shared_memory_get_updated,
}
use multicat_supervisor.Reordertp.Safety.{get_elem?-cases, get_elem?-set}

pub get_elem?-other :
    (memory : Memory) (i j : ℕ) (v : EitInfo)
    → i ≢ j
    → get_elem? (set memory i v) j ≡ get_elem? memory j
get_elem?-other [] i j v h = refl
get_elem?-other (x ∷ xs) zero zero v h = absurd (h refl)
get_elem?-other (x ∷ xs) zero (suc j) v h = refl
get_elem?-other (x ∷ xs) (suc i) zero v h = refl
get_elem?-other (x ∷ xs) (suc i) (suc j) v h = get_elem?-other xs i j v (λ e. h (ap suc e))

-- What a reader has after a writer: the tables written, marked as read in the slot, and all
-- other slots as they were.
abbrev pub Delivered : ℕ → EitInfo → Memory → Result → Type 0
Delivered provider eit memory r =
    (r.eit ≡ record eit { initialized = true; updated = false })
    × (shared_memory_get_updated provider r.memory ≡ some false)
    × ((other : ℕ) → provider ≢ other → slot other r.memory ≡ slot other memory)

module _ (i : ℕ) (eit : EitInfo) (memory : Memory) (in_range : i < length memory) where
  abbrev marked : EitInfo
  marked = record eit { initialized = true; updated = true }

  abbrev seen : EitInfo
  seen = record eit { initialized = true; updated = false }

  abbrev written : Memory
  written = set memory i marked

  abbrev read : Memory
  read = set written i seen

  set-some : shared_memory_set (suc i) eit memory ≡ some (record { memory = written; eit = marked })
  unfolding shared_memory_set slot
  set-some =
      let (old, e) = get_elem?-cases memory i in_range in
      let q : suc i - 1 ≡ i = omega arith in rw (shared_memory_set, slot, e, q) refl

  in_range' : i < length written
  in_range' = omega (arith, length-set memory i marked)

  get-some : shared_memory_get (suc i) written ≡ some (record { memory = read; eit = seen })
  unfolding shared_memory_get slot
  get-some =
      let q : suc i - 1 ≡ i = omega arith in
      rw (shared_memory_get, slot, get_elem?-set memory i marked in_range, q) refl

  updated-some :
      (m : Memory) (v : EitInfo)
      → i < length m
      → shared_memory_get_updated (suc i) (set m i v) ≡ some v.updated
  unfolding shared_memory_get_updated slot
  updated-some m v h = rw (shared_memory_get_updated, slot, get_elem?-set m i v h) refl

  slot-other : (other : ℕ) → suc i ≢ other → slot other read ≡ slot other memory
  unfolding slot
  slot-other zero h = refl
  slot-other (suc j) h =
      let n : i ≢ j = omega (arith, h) in
      get_elem?-other written i j seen n ∙ get_elem?-other memory i j marked n

  -- For a provider with a slot, a set succeeds and leaves the slot marked as updated; a get after
  -- it succeeds, gives the tables that were set, and takes the mark away; no other slot is
  -- changed.
  pub shared_memory_get-shared_memory_set :
      (w : Result) × (shared_memory_set (suc i) eit memory ≡ some w)
      × (shared_memory_get_updated (suc i) w.memory ≡ some true)
      × ((r : Result) × (shared_memory_get (suc i) w.memory ≡ some r)
          × Delivered (suc i) eit memory r)
  shared_memory_get-shared_memory_set = (
    record { memory = written; eit = marked },
    set-some,
    updated-some memory marked in_range,
    (
      record { memory = read; eit = seen },
      get-some,
      (refl, updated-some written seen in_range', slot-other),
    ),
  )
