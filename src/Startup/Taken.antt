-- ===== src/Startup/Taken.antt =====
-- multicat.c and multicat-viewer.c: the tables that a program starts with.
use mathlib.Core.Path.{subst}
use multicat_supervisor.Base.{
  sym, ℕ, zero, suc, ◌-◌, ◌<◌, ◌≡◌, ◌≢◌, refl, ◌∙◌, arith, Bool, true, false, inl, inr, Bool-cases,
  Option, some, set, length, length-set, if◌then◌else◌, Bytes,
}
use multicat_supervisor.Io.{ok}
use multicat_supervisor.Ini.{Ini}
use multicat_supervisor.Eit.{Info}
use multicat_supervisor.Eit.Loading.{load_eit}
use multicat_supervisor.Supervisor.{EitInfo}
use multicat_supervisor.SharedMemory.{
  Memory, slot, Result, shared_memory_set, shared_memory_get, shared_memory_get_without_update,
}
use multicat_supervisor.SharedMemory.Tables.{get_elem?-other}
use multicat_supervisor.Reordertp.Safety.{get_elem?-set}
use multicat_supervisor.Startup.{
  Machine, table_of, load_and_set, open_ini, open_log, open_memory, start_multicat, Viewed,
  view_table, view_or_load, view,
}

-- A slot that holds a table, the other slots being as before.
abbrev pub Holds : ℕ → EitInfo → Memory → Memory → Type 0
Holds provider eit before memory =
    (slot provider memory ≡ some eit)
    × ((other : ℕ) → provider ≢ other → slot other memory ≡ slot other before)

slot-set :
    (i : ℕ) (eit : EitInfo) (memory : Memory) (other : ℕ)
    → suc i ≢ other
    → slot other (set memory i eit) ≡ slot other memory
unfolding slot
slot-set i eit memory zero n = refl
slot-set i eit memory (suc j) n = get_elem?-other memory i j eit (omega (arith, n))

Holds-set :
    (i : ℕ) (eit : EitInfo) (before memory : Memory)
    → i < length memory
    → ((other : ℕ) → suc i ≢ other → slot other memory ≡ slot other before)
    → Holds (suc i) eit before (set memory i eit)
unfolding slot
Holds-set i eit before memory h k =
    (get_elem?-set memory i eit h, λ other n. slot-set i eit memory other n ∙ k other n)

shared_memory_get-slot :
    (i : ℕ) (memory : Memory) (old : EitInfo)
    → slot (suc i) memory ≡ some old
    → shared_memory_get (suc i) memory
      ≡ some (record {
        memory = set memory i (record old { updated = false });
        eit = record old { updated = false };
      })
unfolding shared_memory_get
shared_memory_get-slot i memory old e =
    let q : suc i - 1 ≡ i = omega arith in rw (shared_memory_get, e, q) refl

shared_memory_get_without_update-slot :
    (i : ℕ) (memory : Memory) (old : EitInfo)
    → slot (suc i) memory ≡ some old
    → shared_memory_get_without_update (suc i) memory ≡ some (record { memory = memory; eit = old })
unfolding shared_memory_get_without_update
shared_memory_get_without_update-slot i memory old e = rw (shared_memory_get_without_update, e) refl

if_true {ℓ} : {A : Type ℓ} (b : Bool) (x y : A) → b ≡ true → (if b then x else y) ≡ x
if_true b x y e = rw e refl

if_false {ℓ} : {A : Type ℓ} (b : Bool) (x y : A) → b ≡ false → (if b then x else y) ≡ y
if_false b x y e = rw e refl

shared_memory_set-slot :
    (i : ℕ) (eit : EitInfo) (memory : Memory) (old : EitInfo)
    → slot (suc i) memory ≡ some old
    → shared_memory_set (suc i) eit memory
      ≡ some (record {
        memory = set memory i (record eit { initialized = true; updated = true });
        eit = record eit { initialized = true; updated = true };
      })
unfolding shared_memory_set
shared_memory_set-slot i eit memory old e =
    let q : suc i - 1 ≡ i = omega arith in rw (shared_memory_set, e, q) refl

-- The table of the configuration, once it is set.
abbrev pub loaded_by : Machine → Info → EitInfo
loaded_by sys info = record (table_of sys info) { initialized = true; updated = true }

abbrev pub read_from : EitInfo → EitInfo
read_from old = record old { updated = false }

-- multicat has the table of the slot, or else the one of the configuration, and so has the slot.
abbrev pub Started : Machine → ℕ → Memory → EitInfo → Info → Result → Type 0
Started sys provider memory old info r =
    (r.eit ≡ (if old.initialized then read_from old else loaded_by sys info))
    × Holds provider r.eit memory r.memory

-- The viewer prints it.
abbrev pub Shown : Machine → ℕ → Memory → EitInfo → Info → Viewed → Type 0
Shown sys provider memory old info v =
    let table = if old.initialized then old else loaded_by sys info in
    (v.shown ≡ some table) × Holds provider table memory v.memory

module _ (sys : Machine) (name : Bytes) (i : ℕ) (ini : Option Ini) (log : Bytes) (memory : Memory)
    (old : EitInfo) (info : Info) where
  load_and_set-slot :
      (m : Memory) (o : EitInfo)
      → load_eit ini ≡ ok info
      → slot (suc i) m ≡ some o
      → load_and_set sys ini (suc i) m
        ≡ ok (record { memory = set m i (loaded_by sys info); eit = (loaded_by sys info) })
  unfolding load_and_set
  load_and_set-slot m o l e = rw (l, shared_memory_set-slot i (table_of sys info) m o e) refl

  -- Where the configuration is loaded, the log and the shared memory are opened, and the provider
  -- has a slot, multicat starts with the slot's table and marks it as read, if one has been put
  -- there, whatever the configuration says; and otherwise, if load_eit gives a table, it starts
  -- with that one and puts it in the slot. No other slot is changed.
  pub start_multicat-Started :
      open_ini sys name (suc i) ≡ ok ini
      → open_log sys ini ≡ ok log
      → open_memory sys ini ≡ ok memory
      → (old.initialized ≡ false → load_eit ini ≡ ok info)
      → i < length memory
      → slot (suc i) memory ≡ some old
      → (r : Result) × (start_multicat sys name (suc i) ≡ ok r)
        × Started sys (suc i) memory old info r
  unfolding start_multicat
  start_multicat-Started opened logged mapped loads h e =
      let got = shared_memory_get-slot i memory old e in
      let seen_there : Holds (suc i) (read_from old) memory (set memory i (read_from old)) =
        Holds-set i (read_from old) memory memory h (λ other n. refl) in
      elim (Bool-cases old.initialized) [
        | inl b ↦ (
          record { memory = set memory i (read_from old); eit = (read_from old) },
          rw (opened, logged, mapped, got, b) refl,
          (sym (if_true old.initialized (read_from old) (loaded_by sys info) b), seen_there),
        )
        | inr b ↦ (
          record {
            memory = set (set memory i (read_from old)) i (loaded_by sys info);
            eit = (loaded_by sys info);
          },
          rw (opened, logged, mapped, got)
              (if_false old.initialized
                  (ok (record { memory = set memory i (read_from old); eit = (read_from old) }))
                  (load_and_set sys ini (suc i) (set memory i (read_from old))) b
                ∙ load_and_set-slot (set memory i (read_from old)) (read_from old) (loads b)
                    seen_there.0),
          (
            sym (if_false old.initialized (read_from old) (loaded_by sys info) b),
            Holds-set i (loaded_by sys info) memory (set memory i (read_from old))
                (omega (arith, length-set memory i (read_from old))) seen_there.1,
          ),
        )
      ]

  -- Where the configuration is loaded, the shared memory is opened, and the provider has a slot,
  -- multicat-viewer without -l prints the slot's table and changes nothing, if one has been put
  -- there; and otherwise, if load_eit gives a table, it prints that one, which it has put in the
  -- slot, and changes no other slot.
  pub view-Shown :
      open_ini sys name (suc i) ≡ ok ini
      → open_memory sys ini ≡ ok memory
      → (old.initialized ≡ false → load_eit ini ≡ ok info)
      → i < length memory
      → slot (suc i) memory ≡ some old
      → (v : Viewed) × (view sys false name (suc i) ≡ ok v) × Shown sys (suc i) memory old info v
  unfolding view view_table
  view-Shown opened mapped loads h e =
      let got = shared_memory_get_without_update-slot i memory old e in
      elim (Bool-cases old.initialized) [
        | inl b ↦ (
          record { memory = memory; shown = some old },
          rw (opened, mapped, view_or_load, got, b) refl,
          subst (λ t. (some old ≡ some t) × Holds (suc i) t memory memory)
              (sym (if_true old.initialized old (loaded_by sys info) b))
              (refl, (e, λ other n. refl)),
        )
        | inr b ↦ (
          record { memory = set memory i (loaded_by sys info); shown = some (loaded_by sys info) },
          rw (opened, mapped, view_or_load, got, b, load_and_set-slot memory old (loads b) e) refl,
          subst
              (λ t.
                (some (loaded_by sys info) ≡ some t)
                × Holds (suc i) t memory (set memory i (loaded_by sys info)))
              (sym (if_false old.initialized old (loaded_by sys info) b))
              (refl, Holds-set i (loaded_by sys info) memory memory h (λ other n. refl)),
        )
      ]
