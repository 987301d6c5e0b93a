-- ===== src/Io.antt =====
-- What the operating system answers, as the event loops of the programs see it.
use multicat_supervisor.Base.{Bytes, ◌≡◌, ◌⊎◌, refl, inl, inr}

-- How `send` or `sendto` ended: `broken` is EBADF, ECONNRESET or EPIPE, `transient` any other error.
pub data Sent : Type 0 where
  sent transient broken : Sent

-- A handler goes on with a new state, ends the process by `exit(EXIT_FAILURE)`, or does what C
-- leaves undefined (a null or dangling pointer, a division by 0).
pub data Outcome {ℓ} (A : Type ℓ) : Type ℓ where
  ok : A → Outcome A
  exit_failure : Outcome A
  undefined : Outcome A

-- What `recvfrom` and `read` deliver: some bytes, nothing (0, or an error that passes), or an error.
pub data Read : Type 0 where
  bytes : Bytes → Read
  nothing failure : Read

-- What the process does next, if it goes on.
module _ {ℓ κ} {A : Type ℓ} {B : Type κ} where
  infixl 5 ◌>>=◌
  abbrev pub ◌>>=◌ : Outcome A → (A → Outcome B) → Outcome B
  ok a >>= f = f a
  exit_failure >>= f = exit_failure
  undefined >>= f = undefined

module _ {ℓ} {A : Type ℓ} where
  pub Outcome-cases :
      (o : Outcome A) → ((a : A) × (o ≡ ok a)) ⊎ ((o ≡ exit_failure) ⊎ (o ≡ undefined))
  Outcome-cases (ok a) = inl (a, refl)
  Outcome-cases exit_failure = inr (inl refl)
  Outcome-cases undefined = inr (inr refl)
