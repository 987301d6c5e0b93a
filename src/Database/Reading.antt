-- ===== src/Database/Reading.antt =====
-- eit_mysql.c: what the list of the database holds, and the request that sets a status.
use multicat_supervisor.Base.{
  ℕ, zero, suc, ◌+◌, ◌/◌, ◌%◌, ◌≤◌, ◌<◌, ◌≡◌, ◌≢◌, refl, Bool, true, Bool-cases, Option, none, some,
  inl, inr, List, [], ◌∷◌, arith, if◌then◌else◌, length, take, length-append, All, Bytes, codes,
}
use multicat_supervisor.Io.{ok}
use multicat_supervisor.AuxFile.{decimal, decimal_onto}
use multicat_supervisor.Eit.Fields.{length-take}
use multicat_supervisor.Database.{
  Row, Listing, listing, text_field, id_field, row_of, rows_of, rows, listed, eit_mysql_get_list,
  contains, status_request, done, failed, eit_mysql_set_status,
}

-- The columns whose NULL would be followed are there.
pub record RowOk (r : Row) : Type 0 where
  pub ideit : r.ideit ≢ none
  pub description : r.description ≢ none
  pub user1 : r.user1 ≢ none
  pub filename : r.filename ≢ none
  pub address : r.address ≢ none
  pub status : r.status ≢ none

pub record ListingFits (l : Listing) : Type 0 where
  pub description : length l.description ≤ 128
  pub user : length l.user ≤ 45
  pub video : length l.entry.video ≤ 255
  pub address : length l.entry.address ≤ 15
  pub status : length l.status ≤ 20

text_field-ok :
    (n : ℕ) (c : Option Bytes) → c ≢ none → (t : Bytes) × (text_field n c ≡ ok t) × (length t ≤ n)
text_field-ok n none h = absurd (h refl)
text_field-ok n (some text) h = (take n text, refl, length-take n text)

id_field-ok : (c : Option Bytes) → c ≢ none → (id : ℕ) × (id_field c ≡ ok id)
id_field-ok none h = absurd (h refl)
id_field-ok (some text) h = (_, refl)

row_of-Fits : (r : Row) → RowOk r → (l : Listing) × (row_of r ≡ ok l) × ListingFits l
unfolding row_of
row_of-Fits r h =
    let (id, e) = id_field-ok r.ideit h.ideit in
    let (description, e1, f1) = text_field-ok 128 r.description h.description in
    let (user, e2, f2) = text_field-ok 45 r.user1 h.user1 in
    let (video, e3, f3) = text_field-ok 255 r.filename h.filename in
    let (address, e4, f4) = text_field-ok 15 r.address h.address in
    let (status, e5, f5) = text_field-ok 20 r.status h.status in
    (
      listing r id description user video address status,
      rw (e, e1, e2, e3, e4, e5) refl,
      record { description = f1; user = f2; video = f3; address = f4; status = f5 },
    )

rows_of-Fits :
    (rs : List Row)
    → All RowOk rs
    → (ls : List Listing) × (rows_of rs ≡ ok ls) × (length ls ≡ length rs) × All ListingFits ls
unfolding rows_of
rows_of-Fits [] h = ([], refl, refl, tt)
rows_of-Fits (r ∷ rs) h =
    let (l, e, f) = row_of-Fits r h.0 in
    let (ls, e', n, fs) = rows_of-Fits rs h.1 in (l ∷ ls, rw (e, e') refl, omega arith, (f, fs))

-- With a connection and a result in whose rows the id, the description, the user, the file, the
-- address and the status are not NULL, eit_mysql_getList gives a list of as many entries as the
-- result has rows, and all texts are within their fields, in front of the NUL.
pub eit_mysql_get_list-Fits :
    (rs : List Row)
    → All RowOk rs
    → (ls : List Listing) × (eit_mysql_get_list true (rows rs) ≡ ok (listed ls))
      × (length ls ≡ length rs)
      × All ListingFits ls
unfolding eit_mysql_get_list
eit_mysql_get_list-Fits rs h = let (ls, e, n, fs) = rows_of-Fits rs h in (ls, rw e refl, n, fs)

length-decimal_onto :
    (fuel n : ℕ) (rest : Bytes) → length (decimal_onto fuel n rest) ≤ fuel + length rest
unfolding decimal_onto
length-decimal_onto zero n rest = omega arith
length-decimal_onto (suc fuel) n rest =
    let deeper = length-decimal_onto fuel (n / 10) ((n % 10 + b'0') ∷ rest) in ground arith

length-status_request :
    (id : ℕ) (status : Bytes) → length status ≤ 20 → length (status_request id status) < 255
unfolding status_request decimal
length-status_request id status h =
    let number = length-decimal_onto 20 id [] in
    elim (Bool-cases (contains (codes "FAILURE") status)) [
      | inl e ↦ rw (e, length-append status _) (omega arith)
      | inr e ↦ rw (e, length-append status _) (omega arith)
    ]

-- With a connection and a status of at most 20 bytes, the size of its field, eit_mysql_setStatus
-- makes its whole request within its buffer of 255 bytes, for any id that is not negative, and
-- the result is whether the client made it without an error.
pub eit_mysql_set_status_whole :
    (query : Bytes → Bool) (id : ℕ) (status : Bytes)
    → length status ≤ 20
    → eit_mysql_set_status query true id status
      ≡ ok (
          if query (status_request id status)
          then done (status_request id status)
          else failed (status_request id status))
unfolding eit_mysql_set_status
eit_mysql_set_status_whole query id status h =
    let fits = length-status_request id status h in ground arith
