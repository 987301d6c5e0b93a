-- ===== src/SharedMemory.antt =====
-- sharedMemoryLib.c: the EIT tables that the supervisor hands to the streaming programs, one slot for
-- each provider. The steps of the processes are a sequence, on the assumption that they all hold the same
-- semaphore: the viewer removes its name when it closes, and a program that starts later makes another.
pub mod Tables
pub mod Answers
use multicat_supervisor.Base.{
  ℕ, zero, suc, ◌-◌, Bool, true, false, Option, none, some, List, [], ◌∷◌, get_elem?, set,
}
use multicat_supervisor.Supervisor.{EitInfo}

abbrev pub Memory : Type 0
Memory = List EitInfo

-- `ptr_memory + (provider-1) * sizeof(struct EitInfo)`; a provider that has no slot is outside the
-- mapping.
unfoldable pub slot : ℕ → Memory → Option EitInfo
slot zero memory = none
slot (suc provider) memory = get_elem? memory provider

-- What an operation leaves and answers.
pub record Result : Type 0 where
  pub memory : Memory
  pub eit : EitInfo

abbrev stored : ℕ → EitInfo → Memory → EitInfo → EitInfo → Option Result
stored provider value memory answer old =
    some (record { memory = set memory (provider - 1) value; eit = answer })

-- `sharedMemory_set`
unfoldable pub shared_memory_set : ℕ → EitInfo → Memory → Option Result
shared_memory_set provider eit memory = elim (slot provider memory) [
  | none ↦ none
  | some old ↦
      let marked = record eit { initialized = true; updated = true } in
      stored provider marked memory marked old
]

-- `sharedMemory_get`
unfoldable pub shared_memory_get : ℕ → Memory → Option Result
shared_memory_get provider memory = elim (slot provider memory) [
  | none ↦ none
  | some old ↦ let read = record old { updated = false } in stored provider read memory read old
]

-- `sharedMemory_getWithoutUpdate`
unfoldable pub shared_memory_get_without_update : ℕ → Memory → Option Result
shared_memory_get_without_update provider memory = elim (slot provider memory) [
  | none ↦ none
  | some old ↦ some (record { memory = memory; eit = old })
]

-- `sharedMemory_get_updated`
unfoldable pub shared_memory_get_updated : ℕ → Memory → Option Bool
shared_memory_get_updated provider memory = elim (slot provider memory) [
  | none ↦ none
  | some old ↦ some old.updated
]
