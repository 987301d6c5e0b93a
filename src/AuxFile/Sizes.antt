-- ===== src/AuxFile/Sizes.antt =====
-- util.c, `CheckFileSizes` and `GetDirFile`: numbers of packets and of files.
use multicat_supervisor.Base.{
  ℕ, suc, ◌*◌, ◌≤◌, ◌<◌, min, ◌≡◌, refl, Bool, true, false, inl, inr, ltb, lt_or_le, Option, none,
  some, arith, i64_min,
}
use native.Mathlib.Nat.{div-add-mod, mul-le-mul_right}
use multicat_supervisor.AuxFile.{
  FileSizes, Truncations, all_succeed, truncate_if, whole_packets, packets, truncate,
  check_file_sizes, get_dir_file,
}

whole_packets_lem :
    (size : Option ℕ) (unit : ℕ)
    → whole_packets true size unit ≡ truncate size (packets size unit * unit)
unfolding whole_packets
whole_packets_lem none unit = refl
whole_packets_lem (some size) unit = ground (arith, div-add-mod size unit)

-- Where every truncation succeeds, with a positive payload size, each of the two files that exists
-- holds exactly the smaller of the two packet counts.
pub check_file_sizes_whole :
    (s : FileSizes) (payload_size : ℕ)
    → 0 < payload_size
    → let n = min (packets s.file payload_size) (packets s.aux 8) in
      ((check_file_sizes all_succeed s payload_size).file ≡ truncate s.file (n * payload_size))
      × ((check_file_sizes all_succeed s payload_size).aux ≡ truncate s.aux (n * 8))
unfolding check_file_sizes
check_file_sizes_whole s payload_size h =
    ground (arith, whole_packets_lem s.file payload_size, whole_packets_lem s.aux 8)

-- No file is made, and one that was there has at least so many bytes, and no more than before.
abbrev pub Kept : ℕ → Option ℕ → Option ℕ → Type 0
Kept least none new = new ≡ none
Kept least (some old) none = ⊥
Kept least (some old) (some new) = (least ≤ new) × (new ≤ old)

whole_packets-Kept :
    (b : Bool) (size : Option ℕ) (unit : ℕ)
    → Kept (packets size unit * unit) size (whole_packets b size unit)
unfolding whole_packets
whole_packets-Kept b none unit = refl
whole_packets-Kept true (some size) unit = ground (arith, div-add-mod size unit)
whole_packets-Kept false (some size) unit = ground (arith, div-add-mod size unit)

mul_le : (n m unit : ℕ) → n ≤ m → n * unit ≤ m * unit
mul_le n m unit h = mul-le-mul_right unit h

Kept-weaken :
    (n m unit : ℕ) (old new : Option ℕ) → n ≤ m → Kept (m * unit) old new → Kept (n * unit) old new
Kept-weaken n m unit none new h k = k
Kept-weaken n m unit (some old) none h k = k
Kept-weaken n m unit (some old) (some new) h k = omega (arith, mul_le n m unit h)

truncate_if-Kept :
    (b : Bool) (n m unit : ℕ) (old new : Option ℕ)
    → n ≤ m
    → Kept (m * unit) old new
    → Kept (n * unit) old (truncate_if b new (n * unit))
truncate_if-Kept false n m unit old new h k = Kept-weaken n m unit old new h k
truncate_if-Kept true n m unit none new h k = rw k refl
truncate_if-Kept true n m unit (some old) none h k = k
truncate_if-Kept true n m unit (some old) (some new) h k = omega (arith, mul_le n m unit h)

check_file_sizes-Kept :
    (t : Truncations) (s : FileSizes) (payload_size : ℕ)
    → let n = min (packets s.file payload_size) (packets s.aux 8) in
      let s' = check_file_sizes t s payload_size in
      Kept (n * payload_size) s.file s'.file × Kept (n * 8) s.aux s'.aux
unfolding check_file_sizes
check_file_sizes-Kept t s payload_size =
    let a = packets s.file payload_size in
    let b = packets s.aux 8 in
    let file = whole_packets-Kept t.file s.file payload_size in
    let aux = whole_packets-Kept t.aux s.aux 8 in
    elim (lt_or_le a b) [
      | inl l ↦
          let less : ltb a b ≡ true = ground arith in
          let e : min a b ≡ a = ground arith in
          rw (less, e) (file, truncate_if-Kept t.last a b 8 s.aux _ (omega arith) aux)
      | inr m ↦
          let more : ltb a b ≡ false = ground arith in
          let e : min a b ≡ b = ground arith in
          elim (lt_or_le b a) [
            | inl l ↦
                let less : ltb b a ≡ true = ground arith in
                rw (more, less, e)
                  (truncate_if-Kept t.last b a payload_size s.file _ (omega arith) file, aux)
            | inr l ↦
                let same : ltb b a ≡ false = ground arith in
                rw (more, same, e) (Kept-weaken b a payload_size s.file _ m file, aux)
          ]
    ]

-- With a positive payload size, whichever calls of truncate fail, CheckFileSizes creates no file
-- and makes none larger, and each file that exists keeps all that it has of the packets up to the
-- smaller of the two packet counts. If all calls succeed, each of the two files that exists then
-- holds whole packets, and exactly that smaller count.
pub check_file_sizes_lem :
    (t : Truncations) (s : FileSizes) (payload_size : ℕ)
    → 0 < payload_size
    → let n = min (packets s.file payload_size) (packets s.aux 8) in
      let s' = check_file_sizes t s payload_size in
      Kept (n * payload_size) s.file s'.file
      × Kept (n * 8) s.aux s'.aux
      × (t ≡ all_succeed
          → (s'.file ≡ truncate s.file (n * payload_size)) × (s'.aux ≡ truncate s.aux (n * 8)))
check_file_sizes_lem t s payload_size h =
    let kept = check_file_sizes-Kept t s payload_size in
    (kept.0, kept.1, λ q. rw q (check_file_sizes_whole s payload_size h))

-- With a positive rotation, a positive date lies in the interval of its file: file k covers the
-- dates from k times the rotation up to k + 1 times it.
pub get_dir_file_covers :
    (now rotate_size wanted : ℕ)
    → 0 < rotate_size
    → 0 < wanted
    → wanted < i64_min
    → let k = get_dir_file now rotate_size wanted in
      (k * rotate_size ≤ wanted) × (wanted < suc k * rotate_size)
unfolding get_dir_file
get_dir_file_covers now rotate_size wanted hr hw hi = grind arith
