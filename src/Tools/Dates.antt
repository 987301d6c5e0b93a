-- ===== src/Tools/Dates.antt =====
-- lasts.c on the files that the other programs write, and the levels of logs.c.
use multicat_supervisor.Base.{
  same_text, ℕ, zero, suc, ◌+◌, ◌-◌, ◌≤◌, ◌<◌, ◌≡◌, refl, arith, some, List, [], ◌∷◌, ◌++◌, length,
  length-append, drop, All, Bytes, sub64, u64,
}
use multicat_supervisor.Stc.{from_stc, to_stc}
use multicat_supervisor.Stc.RoundTrip.{from_stc-to_stc}
use multicat_supervisor.Tools.{lasts, log_level_to_string, string_to_log_level}

-- An auxiliary file of the given dates.
abbrev pub aux_of : List ℕ → Bytes
aux_of [] = []
aux_of (d ∷ ds) = to_stc d ++ aux_of ds

abbrev pub final : ℕ → List ℕ → ℕ
final d [] = d
final d (e ∷ es) = final e es

length-to_stc : (d : ℕ) → length (to_stc d) ≡ 8
unfolding to_stc
length-to_stc d = refl

drop-date : (n d : ℕ) (rest : Bytes) → drop (8 + n) (to_stc d ++ rest) ≡ drop n rest
unfolding to_stc
drop-date n d rest =
    let e : 8 + n ≡ suc (suc (suc (suc (suc (suc (suc (suc n))))))) = omega arith in rw e refl

length-aux_of : (d : ℕ) (ds : List ℕ) → 8 ≤ length (aux_of (d ∷ ds))
length-aux_of d ds = omega (arith, length-append (to_stc d) (aux_of ds), length-to_stc d)

last_date :
    (d : ℕ) (ds : List ℕ)
    → All (λ x. x < u64) (d ∷ ds)
    → from_stc (drop (length (aux_of (d ∷ ds)) - 8) (aux_of (d ∷ ds))) ≡ some (final d ds)
last_date d [] h =
    let e : length (to_stc d ++ []) - 8 ≡ 0 =
      omega (arith, length-append (to_stc d) [], length-to_stc d) in
    rw e (from_stc-to_stc d [] h.0)
last_date d (x ∷ xs) h =
    let n = length (aux_of (x ∷ xs)) in
    let e : length (aux_of (d ∷ x ∷ xs)) - 8 ≡ 8 + (n - 8) =
      omega
        (arith, length-append (to_stc d) (aux_of (x ∷ xs)), length-to_stc d, length-aux_of x xs) in
    rw (e, drop-date (n - 8) d (aux_of (x ∷ xs))) (last_date x xs h.1)

-- On a file of at least one date, all of 64 bits, lasts prints the last date less the first.
pub lasts-aux_of :
    (d : ℕ) (ds : List ℕ)
    → All (λ x. x < u64) (d ∷ ds)
    → lasts (some (aux_of (d ∷ ds))) ≡ some (sub64 (final d ds) d)
unfolding lasts
lasts-aux_of d ds h = rw (last_date d ds h, from_stc-to_stc d (aux_of ds) h.0) refl

-- The name of a level, 0 to 5, is read back as the level.
pub string_to_log_level-log_level_to_string :
    (level : ℕ) → level ≤ 5 → string_to_log_level (log_level_to_string level) ≡ level
unfolding string_to_log_level log_level_to_string same_text
string_to_log_level-log_level_to_string zero h = refl
string_to_log_level-log_level_to_string (suc zero) h = refl
string_to_log_level-log_level_to_string (suc (suc zero)) h = refl
string_to_log_level-log_level_to_string (suc (suc (suc zero))) h = refl
string_to_log_level-log_level_to_string (suc (suc (suc (suc zero)))) h = refl
string_to_log_level-log_level_to_string (suc (suc (suc (suc (suc zero))))) h = refl
string_to_log_level-log_level_to_string (suc (suc (suc (suc (suc (suc n)))))) h =
    absurd (omega arith)
