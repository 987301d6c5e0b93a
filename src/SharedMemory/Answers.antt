-- ===== src/SharedMemory/Answers.antt =====
-- sharedMemoryLib.c: the operations of several processes in a sequence, with what each of them gets, and
-- the view in which a provider has its latest tables. It is assumed that all processes hold the same
-- semaphore, so that no operation comes in the middle of another.
use multicat_supervisor.Base.{
  ℕ, zero, suc, arith, get_elem?, ◌-◌, ◌≤◌, ◌<◌, ◌≡◌, ◌∙◌, refl, ap, Bool-cases, inl, inr, ==_iff,
  Bool, true, false, Option, none, some, List, [], ◌∷◌, ◌==◌, if◌then◌else◌, set, All,
}
use multicat_supervisor.Supervisor.{EitInfo}
use multicat_supervisor.SharedMemory.{
  Memory, slot, Result, shared_memory_set, shared_memory_get, shared_memory_get_without_update,
  shared_memory_get_updated,
}

-- What a process does: the supervisor's `put`, and the reads of the others, for a provider.
pub data Operation : Type 0 where
  put : ℕ → EitInfo → Operation
  take peek look : ℕ → Operation

-- What an operation makes of the tables of a provider.
abbrev pub effect : ℕ → Operation → EitInfo → EitInfo
effect p (put q eit) v = if p == q then record eit { initialized = true; updated = true } else v
effect p (take q) v = if p == q then record v { updated = false } else v
effect p (peek q) v = v
effect p (look q) v = v

abbrev pub provider_of : Operation → ℕ
provider_of (put p eit) = p
provider_of (take p) = p
provider_of (peek p) = p
provider_of (look p) = p

-- The slots are numbered from 1.
abbrev pub HasSlot : ℕ → Operation → Type 0
HasSlot size o = (0 < provider_of o) × (provider_of o ≤ size)

get_elem?-set_any :
    (m : Memory) (j i : ℕ) (x v : EitInfo)
    → get_elem? m i ≡ some v
    → get_elem? (set m j x) i ≡ some (if i == j then x else v)
get_elem?-set_any [] j i x v h = absurd cc
get_elem?-set_any (y ∷ ys) zero zero x v h = refl
get_elem?-set_any (y ∷ ys) zero (suc i) x v h =
    let e : (suc i == 0) ≡ false = ground arith in rw e h
get_elem?-set_any (y ∷ ys) (suc j) zero x v h =
    let e : (0 == suc j) ≡ false = ground arith in rw e h
get_elem?-set_any (y ∷ ys) (suc j) (suc i) x v h =
    let e : (suc i == suc j) ≡ (i == j) = ground arith in rw e (get_elem?-set_any ys j i x v h)

slot-set :
    (m : Memory) (q p : ℕ) (old x v : EitInfo)
    → slot q m ≡ some old
    → slot p m ≡ some v
    → slot p (set m (q - 1) x) ≡ some (if p == q then x else v)
unfolding slot
slot-set m zero p old x v g h = absurd cc
slot-set m (suc j) zero old x v g h = absurd cc
slot-set m (suc j) (suc i) old x v g h =
    let e : (suc i == suc j) ≡ (i == j) = ground arith in
    let q : suc j - 1 ≡ j = omega arith in rw (e, q) (get_elem?-set_any m j i x v h)

-- What a process gets of an operation.
pub data Seen : Type 0 where
  tables : EitInfo → Seen
  is_updated : Bool → Seen

abbrev answer_of : Option Result → Option (Memory × Seen)
answer_of none = none
answer_of (some r) = some (r.memory, tables r.eit)

abbrev flag_of : Memory → Option Bool → Option (Memory × Seen)
flag_of m none = none
flag_of m (some b) = some (m, is_updated b)

unfoldable pub perform : Operation → Memory → Option (Memory × Seen)
perform (put p eit) m = answer_of (shared_memory_set p eit m)
perform (take p) m = answer_of (shared_memory_get p m)
perform (peek p) m = answer_of (shared_memory_get_without_update p m)
perform (look p) m = flag_of m (shared_memory_get_updated p m)

abbrev pub perform_all : List Operation → Memory → Option (Memory × List Seen)
perform_all [] m = some (m, [])
perform_all (o ∷ os) m = elim (perform o m) [
  | none ↦ none
  | some (m', answer) ↦ elim (perform_all os m') [
    | none ↦ none
    | some (m'', answers) ↦ some (m'', answer ∷ answers)
  ]
]

-- The view: the tables of each provider.
abbrev pub View : Type 0
View = ℕ → EitInfo

abbrev pub after : Operation → View → View
after o view p = effect p o (view p)

-- What the view says that an operation gets.
abbrev pub seen_in : Operation → View → Seen
seen_in (put p eit) view = tables (record eit { initialized = true; updated = true })
seen_in (take p) view = tables (record (view p) { updated = false })
seen_in (peek p) view = tables (view p)
seen_in (look p) view = is_updated ((view p).updated)

abbrev pub all_expected : List Operation → View → List Seen
all_expected [] view = []
all_expected (o ∷ os) view = seen_in o view ∷ all_expected os (after o view)

abbrev pub all_after : List Operation → View → View
all_after [] view = view
all_after (o ∷ os) view = all_after os (after o view)

-- The slots of that many providers hold what the view says.
abbrev pub Shows : ℕ → Memory → View → Type 0
Shows n m view = (p : ℕ) → 0 < p → p ≤ n → slot p m ≡ some (view p)

same_choice :
    (p q : ℕ) (view : View)
    → (if p == q then (record (view q) { updated = false }) else view p)
      ≡ (if p == q then (record (view p) { updated = false }) else view p)
same_choice p q view = elim (Bool-cases (p == q)) [
  | inl e ↦ rw (e, (==_iff p q).0 e) refl
  | inr e ↦ rw e refl
]

-- An operation gets what the view says, and the memory shows the next view.
record Performed (n : ℕ) (o : Operation) (m : Memory) (view : View) : Type 0 where
  m' : Memory
  runs : perform o m ≡ some (m', seen_in o view)
  shows : Shows n m' (after o view)

perform-Performed :
    (n : ℕ) (o : Operation) (m : Memory) (view : View)
    → HasSlot n o
    → Shows n m view
    → Performed n o m view
unfolding perform shared_memory_set shared_memory_get shared_memory_get_without_update
    shared_memory_get_updated
perform-Performed n (put q eit) m view (h, l) s =
    let e = s q h l in
    let x : EitInfo = record eit { initialized = true; updated = true } in
    record {
      m' = set m (q - 1) x;
      runs = rw (shared_memory_set, e) refl;
      shows = λ p hp lp. slot-set m q p (view q) x (view p) e (s p hp lp);
    }
perform-Performed n (take q) m view (h, l) s =
    let e = s q h l in
    let x : EitInfo = record (view q) { updated = false } in
    record {
      m' = set m (q - 1) x;
      runs = rw (shared_memory_get, e) refl;
      shows = λ p hp lp.
          slot-set m q p (view q) x (view p) e (s p hp lp) ∙ ap some (same_choice p q view);
    }
perform-Performed n (peek q) m view (h, l) s = record {
  m' = m;
  runs = rw (perform, shared_memory_get_without_update, s q h l) refl;
  shows = s;
}
perform-Performed n (look q) m view (h, l) s = record {
  m' = m;
  runs = rw (shared_memory_get_updated, s q h l) refl;
  shows = s;
}

-- Any sequence of operations of several processes, on providers with slots, is carried out where
-- no operation comes in the middle of another, as the semaphore promises while all hold the same
-- one: each process gets what the abstract view says, in which a provider has the tables set
-- last, marked as updated until sharedMemory_get takes them, and which the operations on other
-- providers leave as it is; and the memory shows that view in the end.
pub perform_all-expected :
    (n : ℕ) (os : List Operation) (m : Memory) (view : View)
    → All (HasSlot n) os
    → Shows n m view
    → (m' : Memory) × (perform_all os m ≡ some (m', all_expected os view))
      × Shows n m' (all_after os view)
perform_all-expected n [] m view h s = (m, refl, s)
perform_all-expected n (o ∷ os) m view (h, hs) s =
    let first = perform-Performed n o m view h s in
    let (m', runs, shows) = perform_all-expected n os first.m' (after o view) hs first.shows in
    (m', rw (perform_all, first.runs, runs) refl, shows)
