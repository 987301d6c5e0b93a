-- ===== src/Examples/Rows.antt =====
-- The database at concrete rows.
use multicat_supervisor.Base.{◌≡◌, ◌≢◌, true, none, some, List, [], ◌∷◌, length, All, codes}
use multicat_supervisor.Io.{ok}
use multicat_supervisor.Database.{Row, Listing, rows, listed, eit_mysql_get_list}
use multicat_supervisor.Database.Reading.{RowOk, ListingFits, eit_mysql_get_list-Fits}

abbrev first_row : Row
first_row = record {
  ideit = some (codes "12");
  lcn = none;
  description = some (codes "News");
  user1 = some (codes "etienne");
  section_0 = some (codes "{}");
  section_1 = none;
  enable = some (codes "1");
  to_inject = some (codes "1");
  eit_ts = none;
  filename = some (codes "news.ts");
  address = some (codes "239.100.200.300:10000");
  port = some (codes "10000");
  tsid = some (codes "1");
  sid = some (codes "2");
  onid = some (codes "3");
  status = some [];
}

there : {A : Type 0} (a : A) → some a ≢ none
there a e = absurd cc

first_row-RowOk : RowOk first_row
first_row-RowOk = record {
  ideit = there _;
  description = there _;
  user1 = there _;
  filename = there _;
  address = there _;
  status = there _;
}

eit_mysql_get_list-Fits_example :
    (ls : List Listing) × (eit_mysql_get_list true (rows (first_row ∷ [])) ≡ ok (listed ls))
    × (length ls ≡ 1)
    × All ListingFits ls
eit_mysql_get_list-Fits_example = eit_mysql_get_list-Fits (first_row ∷ []) (first_row-RowOk, tt)
