-- ===== src/Ingests.antt =====
-- ingests.c: the packets of a stream file are dated by its PCR, one date for each payload. Dates are
-- numbers here; each is written as the eight bytes of `to_stc`.
pub mod Dates
use multicat_supervisor.Base.{
  ℕ, zero, suc, ◌+◌, ◌-◌, ◌*◌, ◌/◌, ◌%◌, Bool, true, false, not, ◌&&◌, ◌||◌, List, [], ◌∷◌, ◌++◌,
  map, ltb, leb, ◌==◌, if◌then◌else◌, Bytes, add64, sub64, u64, i64_min,
}
use multicat_supervisor.Io.{Outcome, ok, exit_failure, undefined}
use multicat_supervisor.Stc.{to_stc}

-- The accessors of biTStream for transport stream packets, which the program only calls.
pub record Ts : Type 0 where
  pub get_pid : Bytes → ℕ
  pub validate : Bytes → Bool
  pub has_adaptation : Bytes → Bool
  pub get_adaptation : Bytes → ℕ
  pub has_pcr : Bytes → Bool
  pub get_pcr : Bytes → ℕ
  pub get_pcrext : Bytes → ℕ

-- `i_ts_since_output` is the 64-bit pattern of an `int`; counts are below 2 ^ 31.
pub record State : Type 0 where
  pub init : Bool
  pub ts_since_output : ℕ
  pub last_pcr : ℕ
  pub last_pcr_diff : ℕ
  pub last_nb_payloads : ℕ
  pub last_stc : ℕ

-- POW2_33 * 300 and MAX_PCR_GAP
abbrev pub pcr_wrap : ℕ
pcr_wrap = 2576980377600

abbrev pub max_pcr_gap : ℕ
max_pcr_gap = 13500000

abbrev pub start : State
start = record {
  init = true;
  ts_since_output = 0;
  last_pcr = pcr_wrap;
  last_pcr_diff = 0;
  last_nb_payloads = 0;
  last_stc = 0;
}

-- The dates of `OutputAux` from the payload `i` on, `n` of the `nb_payloads`.
unfoldable pub dates : ℕ → ℕ → ℕ → ℕ → ℕ → List ℕ
dates last_stc duration nb_payloads i zero = []
dates last_stc duration nb_payloads i (suc n) =
    add64 last_stc (duration * (i + 1) % u64 / nb_payloads)
    ∷ dates last_stc duration nb_payloads (i + 1) n

-- `OutputAux`: the new state, and what goes to the file.
unfoldable pub output_aux : ℕ → ℕ → State → State × List Bytes
output_aux nb_payloads duration st = (
  record st { last_stc = add64 st.last_stc duration },
  map to_stc (dates st.last_stc duration nb_payloads 0 nb_payloads),
)

-- How many payloads the packets fill; `size` is `i_ts_in_payload`, which -m must give as a positive
-- number: with 0 the source divides by zero, which no result here stands for.
abbrev pub nb_payloads_of : ℕ → State → ℕ
nb_payloads_of size st = sub64 (add64 st.ts_since_output size) 1 / size

-- The first `if` of `Output` that writes: the payloads before the first interval.
abbrev pub output_init : ℕ → State → State × List Bytes
output_init nb st =
    let r = output_aux st.last_nb_payloads (st.last_pcr_diff * st.last_nb_payloads % u64 / nb) st in
    if st.init then (record r.0 { init = false }, r.1) else (st, [])

-- `Output`
unfoldable pub output : ℕ → State → State × List Bytes
output size st =
    let nb = nb_payloads_of size st in
    let first = output_init nb st in
    let second = output_aux nb first.0.last_pcr_diff first.0 in
    if st.ts_since_output == 0 || leb i64_min st.ts_since_output then (st, []) else (
      record second.0 {
        ts_since_output = sub64 st.ts_since_output (nb * size);
        last_nb_payloads = nb;
      },
      first.1 ++ second.1,
    )

-- `OutputFirst`
unfoldable pub output_first : ℕ → State → State
output_first size st =
    let nb = nb_payloads_of size st in
    record st { last_nb_payloads = nb; ts_since_output = sub64 st.ts_since_output (nb * size) }

-- `OutputLast`; a division by 0 is undefined.
unfoldable pub output_last : ℕ → State → Outcome (State × List Bytes)
output_last size st =
    let nb = nb_payloads_of size st in
    if st.last_nb_payloads == 0
    then undefined
    else ok (output_aux nb (st.last_pcr_diff * nb % u64 / st.last_nb_payloads) st)

-- The slope after a PCR: at a discontinuity it stays.
unfoldable pub pcr_diff : State → ℕ → ℕ
pcr_diff st pcr =
    if ltb (sub64 (pcr_wrap + pcr) st.last_pcr) max_pcr_gap
    then sub64 (pcr_wrap + pcr) st.last_pcr
    else if ltb pcr st.last_pcr || ltb max_pcr_gap (sub64 pcr st.last_pcr)
    then st.last_pcr_diff
    else sub64 pcr st.last_pcr

module _ (ts : Ts) (pcr_pid size : ℕ) where
  abbrev pub carries_pcr : Bytes → Bool
  carries_pcr p =
      (ts.get_pid p == pcr_pid || pcr_pid == 8192)
      && ts.has_adaptation p
      && not (ts.get_adaptation p == 0)
      && ts.has_pcr p

  -- `TSHandle` at a PCR
  unfoldable pub pcr_handle : State → ℕ → State × List Bytes
  pcr_handle st pcr =
      if st.last_pcr == pcr_wrap
      then (output_first size (record st { last_pcr = pcr }), [])
      else output size (record st { last_pcr_diff = pcr_diff st pcr; last_pcr = pcr })

  -- `TSHandle`
  unfoldable pub ts_handle : State → Bytes → Outcome (State × List Bytes)
  ts_handle st p =
      let st' = record st { ts_since_output = add64 st.ts_since_output 1 } in
      if not (ts.validate p)
      then exit_failure
      else if carries_pcr p
      then ok (pcr_handle st' ((ts.get_pcr p * 300 + ts.get_pcrext p) % u64))
      else ok (st', [])

  abbrev pub before : List Bytes → Outcome (State × List Bytes) → Outcome (State × List Bytes)
  before written (ok (st, more)) = ok (st, written ++ more)
  before written exit_failure = exit_failure
  before written undefined = undefined

  -- The loop of `main` over the packets of the file, where every read gives whole packets, and
  -- what follows it.
  unfoldable pub ingest : State → List Bytes → Outcome (State × List Bytes)
  ingest st [] = if st.last_pcr_diff == 0 then ok (st, []) else output_last size st
  ingest st (p ∷ ps) = elim (ts_handle st p) [
    | ok (st', written) ↦ before written (ingest st' ps)
    | exit_failure ↦ exit_failure
    | undefined ↦ undefined
  ]
