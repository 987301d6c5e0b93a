-- ===== src/Aggregartp/Spread.antt =====
-- aggregartp.c: the sizes that the accounts of the outputs are charged with over a run of packets.
use multicat_supervisor.Base.{
  ℕ, zero, suc, ◌+◌, ◌*◌, ◌≤◌, ◌<◌, ◌≡◌, refl, ◌∙◌, ap, Option, none, some, List, [], ◌∷◌, map,
  arith, get_elem?, set, All, u32, sub32,
}
use multicat_supervisor.Aggregartp.{Output, select_loop, reduce, next_output, account}
use multicat_supervisor.Aggregartp.Input.{dispatch}
use multicat_supervisor.Aggregartp.Fairness.{
  Balanced, add_at, select_loop-AtLeast, reduce-Balanced, get_elem?-reduce, Balanced-set,
  selected_index,
}

abbrev pub weights : List Output → List ℕ
weights = map (λ o. o.weight)

weights-reduce : (n : ℕ) (os : List Output) → weights (reduce n os) ≡ weights os
unfolding reduce
weights-reduce n [] = refl
weights-reduce n (o ∷ os) = ground (arith, weights-reduce n os)

weights-set :
    (os : List Output) (k : ℕ) (o o' : Output)
    → get_elem? os k ≡ some o
    → o'.weight ≡ o.weight
    → weights (set os k o') ≡ weights os
weights-set [] k o o' e h = refl
weights-set (p ∷ os) zero o o' e h = ground arith
weights-set (p ∷ os) (suc k) o o' e h = ap (λ l. p.weight ∷ l) (weights-set os k o o' e h)

account-weight :
    (o : Output) (size : ℕ) (o' : Output) → account o size ≡ some o' → o'.weight ≡ o.weight
unfolding account
account-weight o size o' e = ground arith

sub32_same : (a b : ℕ) → a ≡ b → b < u32 → sub32 a b ≡ 0
sub32_same a b e h = omega arith

dispatch_lem :
    (os os' : List Output) (i size : ℕ) (p p' : Output)
    → next_output os ≡ some (i, os')
    → get_elem? os' i ≡ some p
    → account p size ≡ some p'
    → dispatch os size ≡ some (i, set os' i p')
unfolding dispatch
dispatch_lem os os' i size p p' e at done = ground arith

-- The result of a dispatch from outputs in balance.
record Dispatched (m : ℕ) (os : List Output) (ts : List ℕ) (size : ℕ) : Type 0 where
  index : ℕ
  outputs : List Output
  base : ℕ
  runs : dispatch os size ≡ some (index, outputs)
  balanced : Balanced m base outputs (add_at ts index size)
  same_weights : weights outputs ≡ weights os

dispatch-Dispatched :
    (m base size : ℕ) (o : Output) (os : List Output) (ts : List ℕ)
    → m < u32
    → Balanced m base (o ∷ os) ts
    → size ≤ m
    → Dispatched m (o ∷ os) ts size
unfolding next_output
dispatch-Dispatched m base size o os [] small b hs = elim b [ ]
dispatch-Dispatched m base size o os (t ∷ ts) small b hs =
    let least : ℕ = (select_loop os 1 o.weighted_size 0).0 in
    let i : ℕ = (select_loop os 1 o.weighted_size 0).1 in
    let (p, at, z) = selected_index m small o os in
    let (others, first) = select_loop-AtLeast m base os ts 1 o.weighted_size 0 b.4 in
    let reduced = reduce-Balanced m base least (o ∷ os) (t ∷ ts) small b (first, others) in
    let there = get_elem?-reduce m base least (o ∷ os) (t ∷ ts) i p b at in
    let zero_size : sub32 p.weighted_size least ≡ 0 =
      sub32_same p.weighted_size least z (omega arith) in
    let (p', done, balanced) =
      Balanced-set m small (base + least) size i (reduce least (o ∷ os)) (t ∷ ts)
        (record p { weighted_size = sub32 p.weighted_size least }) reduced there zero_size hs in
    record {
      index = i;
      outputs = set (reduce least (o ∷ os)) i p';
      base = base + least;
      runs = dispatch_lem (o ∷ os) (reduce least (o ∷ os)) i size _ p' refl there done;
      balanced = balanced;
      same_weights =
          weights-set (reduce least (o ∷ os)) i _ p' there (account-weight _ size p' done)
          ∙ weights-reduce least (o ∷ os);
    }

-- A run of packets whose last reads have the given sizes, with the sizes that each output was charged
-- with so far. They are what is sent over UDP without -U: that option sends 12 bytes more of each packet,
-- and of a packet that TCP brings in fragments only the last one is charged.
abbrev pub spread : List Output → List ℕ → List ℕ → Option (List Output × List ℕ)
spread os ts [] = some (os, ts)
spread os ts (size ∷ sizes) = elim (dispatch os size) [
  | none ↦ none
  | some (i, os') ↦ spread os' (add_at ts i size) sizes
]

-- The run has ended with every output in balance.
record Spread (m : ℕ) (os : List Output) (ts sizes : List ℕ) : Type 0 where
  outputs : List Output
  totals : List ℕ
  base : ℕ
  runs : spread os ts sizes ≡ some (outputs, totals)
  balanced : Balanced m base outputs totals
  same_weights : weights outputs ≡ weights os

Spread-Spread :
    (m base w : ℕ) (ws : List ℕ) (os : List Output) (ts sizes : List ℕ)
    → m < u32
    → weights os ≡ w ∷ ws
    → Balanced m base os ts
    → All (λ size. size ≤ m) sizes
    → Spread m os ts sizes
Spread-Spread m base w ws os ts [] small e b h = record {
  outputs = os;
  totals = ts;
  base = base;
  runs = refl;
  balanced = b;
  same_weights = refl;
}
Spread-Spread m base w ws [] ts (size ∷ sizes) small e b h = cc
Spread-Spread m base w ws (o ∷ os) ts (size ∷ sizes) small e b h =
    let d = dispatch-Dispatched m base size o os ts small b h.0 in
    let r =
      Spread-Spread m d.base w ws d.outputs (add_at ts d.index size) sizes small
        (d.same_weights ∙ e) d.balanced h.1 in
    record {
      outputs = r.outputs;
      totals = r.totals;
      base = r.base;
      runs = rw (d.runs, spread) r.runs;
      balanced = r.balanced;
      same_weights = r.same_weights ∙ d.same_weights;
    }

-- The outputs as `main` sets them up, with their weights.
abbrev pub IsFresh : List Output → Type 0
IsFresh = All (λ o. (0 < o.weight) × (o.weighted_size ≡ 0) × (o.remainder ≡ 0))

abbrev pub zeros : List Output → List ℕ
zeros = map (λ o. 0)

fresh-Balanced : (m : ℕ) (os : List Output) → IsFresh os → Balanced m 0 os (zeros os)
fresh-Balanced m [] h = tt
fresh-Balanced m (o ∷ os) h = (
  h.0.0,
  omega (arith, h.0.2),
  omega (arith, h.0.1),
  omega (arith, h.0.2, ap (λ (x : ℕ). o.weight * x) h.0.1),
  fresh-Balanced m os h.1,
)

mul_mono : (k : ℕ) {a b : ℕ} → a ≤ b → k * a ≤ k * b
mul_mono k h = grind arith

-- What the balance says of one output.
Balanced-elem :
    (m base : ℕ) (os : List Output) (ts : List ℕ) (k w t : ℕ)
    → Balanced m base os ts
    → get_elem? (weights os) k ≡ some w
    → get_elem? ts k ≡ some t
    → (w * base ≤ t) × (t < w * base + w * (m + 1))
Balanced-elem m base [] ts k w t b e f = cc
Balanced-elem m base (o ∷ os) [] k w t b e f = elim b [ ]
Balanced-elem m base (o ∷ os) (t' ∷ ts) zero w t b e f =
    let same : o.weight ≡ w = cc in
    let same' : t' ≡ t = cc in
    let more : o.weight * o.weighted_size ≤ o.weight * m = mul_mono o.weight b.2 in
    rw (← same, ← same') (omega (arith, b.3, b.1), omega (arith, b.3, b.1))
Balanced-elem m base (o ∷ os) (t' ∷ ts) (suc k) w t b e f = Balanced-elem m base os ts k w t b.4 e f

compare_shares :
    (m base wj wk tj tk : ℕ)
    → (wj * base ≤ tj) × (tj < wj * base + wj * (m + 1))
    → (wk * base ≤ tk) × (tk < wk * base + wk * (m + 1))
    → tj * wk ≤ tk * wj + (m + 1) * (wj * wk)
compare_shares m base wj wk tj tk bj bk =
    let above : wk * tj ≤ wk * (wj * base + wj * (m + 1)) = mul_mono wk (omega arith) in
    let below : wj * (wk * base) ≤ wj * tk = mul_mono wj bk.0 in omega arith

-- Packets of at most m bytes, sent in any number through outputs of positive weight that start
-- with empty accounts, all go out; the bytes sent to two outputs, measured by their weights,
-- differ by at most m + 1, however long the run is.
pub spread_fair :
    (m : ℕ) (o : Output) (os : List Output) (sizes : List ℕ)
    → m < u32
    → IsFresh (o ∷ os)
    → All (λ size. size ≤ m) sizes
    → (os' : List Output) × (ts : List ℕ) × (spread (o ∷ os) (zeros (o ∷ os)) sizes
        ≡ some (os', ts))
      × ((j k wj wk tj tk : ℕ)
          → get_elem? (weights (o ∷ os)) j ≡ some wj
          → get_elem? (weights (o ∷ os)) k ≡ some wk
          → get_elem? ts j ≡ some tj
          → get_elem? ts k ≡ some tk
          → tj * wk ≤ tk * wj + (m + 1) * (wj * wk))
spread_fair m o os sizes small fresh h =
    let r =
      Spread-Spread m 0 o.weight (weights os) (o ∷ os) (zeros (o ∷ os)) sizes small refl
        (fresh-Balanced m (o ∷ os) fresh) h in
    (
      r.outputs,
      r.totals,
      r.runs,
      λ j k wj wk tj tk ej ek fj fk.
          let bj =
            Balanced-elem m r.base r.outputs r.totals j wj tj r.balanced (rw r.same_weights ej)
              fj in
          let bk =
            Balanced-elem m r.base r.outputs r.totals k wk tk r.balanced (rw r.same_weights ek)
              fk in
          compare_shares m r.base wj wk tj tk bj bk,
    )
