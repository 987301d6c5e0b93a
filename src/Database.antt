-- ===== src/Database.antt =====
-- eit_mysql.c and eit_mysql.h: the rows of the database, and the status of a streaming.
-- The MySQL client is not part of the repository; what it answers is an argument.
use multicat_supervisor.Base.{
  ℕ, ◌*◌, ◌+◌, ◌^◌, Bool, true, false, Option, none, some, List, [], ◌∷◌, ◌++◌, ltb, ◌==◌,
  if◌then◌else◌, length, take, Bytes, codes,
}
use multicat_supervisor.Io.{Outcome, ok, undefined, ◌>>=◌}
use multicat_supervisor.AuxFile.{decimal}
use multicat_supervisor.Eit.Numbers.{atoi}
use multicat_supervisor.Supervisor.{EitMysql}
pub mod Reading

-- A row of the result in the order of the query; `none` is NULL.
pub record Row : Type 0 where
  pub ideit : Option Bytes
  pub lcn : Option Bytes
  pub description : Option Bytes
  pub user1 : Option Bytes
  pub section_0 : Option Bytes
  pub section_1 : Option Bytes
  pub enable : Option Bytes
  pub to_inject : Option Bytes
  pub eit_ts : Option Bytes
  pub filename : Option Bytes
  pub address : Option Bytes
  pub port : Option Bytes
  pub tsid : Option Bytes
  pub sid : Option Bytes
  pub onid : Option Bytes
  pub status : Option Bytes

-- `EitMysql`, what the supervisor uses of it in one field.
pub record Listing : Type 0 where
  pub entry : EitMysql
  pub lcn : ℕ
  pub description : Bytes
  pub user : Bytes
  pub enable : ℕ
  pub status : Bytes

-- `strcpyWithNull`
abbrev pub strcpy_with_null : Option Bytes → Bytes
strcpy_with_null none = []
strcpy_with_null (some text) = text

-- `atoiWithNull` and `atolWithNull`, as the pattern of so many values
abbrev pub atoi_with_null : ℕ → Option Bytes → ℕ
atoi_with_null values none = 0
atoi_with_null values (some text) = atoi values text

-- `strncpy` into a cleared field, and `atoi`: a null pointer is followed.
abbrev pub text_field : ℕ → Option Bytes → Outcome Bytes
text_field size none = undefined
text_field size (some text) = ok (take size text)

abbrev pub id_field : Option Bytes → Outcome ℕ
id_field none = undefined
id_field (some text) = ok (atoi (2 ^ 32) text)

-- A row whose texts and number are there.
abbrev pub listing : Row → ℕ → Bytes → Bytes → Bytes → Bytes → Bytes → Listing
listing r id description user video address status = record {
  entry = record {
    id = id;
    video = video;
    address = address;
    port = atoi_with_null (2 ^ 32) r.port;
    tsid = atoi_with_null (2 ^ 32) r.tsid;
    sid = atoi_with_null (2 ^ 32) r.sid;
    onid = atoi_with_null (2 ^ 32) r.onid;
    to_inject = atoi_with_null (2 ^ 16) r.to_inject;
    section0 = strcpy_with_null r.section_0;
    section1 = strcpy_with_null r.section_1;
    timestamp = atoi_with_null (2 ^ 64) r.eit_ts;
  };
  lcn = atoi_with_null (2 ^ 32) r.lcn;
  description = description;
  user = user;
  enable = atoi_with_null (2 ^ 16) r.enable;
  status = status;
}

-- The body of the loop of `eit_mysql_getList`
unfoldable pub row_of : Row → Outcome Listing
row_of r = do
  id ← id_field r.ideit
  description ← text_field 128 r.description
  user ← text_field 45 r.user1
  video ← text_field 255 r.filename
  address ← text_field 15 r.address
  status ← text_field 20 r.status
  ok (listing r id description user video address status)

unfoldable pub rows_of : List Row → Outcome (List Listing)
rows_of [] = ok []
rows_of (r ∷ rs) = do l ← row_of r; ls ← rows_of rs; ok (l ∷ ls)

-- What `mysql_query` and `mysql_store_result` answer: an error, no result, or rows.
pub data Answer : Type 0 where
  refused no_result : Answer
  rows : List Row → Answer

-- The results -1 and -2, and the list.
pub data Listed : Type 0 where
  not_connected not_listed : Listed
  listed : List Listing → Listed

-- `eit_mysql_getList`; the first argument is whether there is a connection.
unfoldable pub eit_mysql_get_list : Bool → Answer → Outcome Listed
eit_mysql_get_list false reply = ok not_connected
eit_mysql_get_list true refused = ok not_listed
eit_mysql_get_list true no_result = undefined
eit_mysql_get_list true (rows rs) = do ls ← rows_of rs; ok (listed ls)

abbrev pub starts_with : Bytes → Bytes → Bool
starts_with [] text = true
starts_with (c ∷ cs) [] = false
starts_with (c ∷ cs) (d ∷ ds) = let rest = starts_with cs ds in if c == d then rest else false

-- `strstr` finds the text.
unfoldable pub contains : Bytes → Bytes → Bool
contains text [] = starts_with text []
contains text (c ∷ cs) =
    let rest = contains text cs in if starts_with text (c ∷ cs) then true else rest

-- The request of `eit_mysql_setStatus`; an id is not negative.
unfoldable pub status_request : ℕ → Bytes → Bytes
status_request id status =
    codes "UPDATE eit SET status='"
    ++ (status
        ++ ((if contains (codes "FAILURE") status
              then codes "', enable=0, lastUpdate=NOW() WHERE ideit="
              else codes "', lastUpdate=NOW() WHERE ideit=")
            ++ decimal id))

-- The results -1, -2 and 0, the last two with the request that was made.
pub data Updated : Type 0 where
  unconnected : Updated
  failed done : Bytes → Updated

-- `eit_mysql_setStatus`; `query` says whether the client makes a request without an error.
unfoldable pub eit_mysql_set_status : (Bytes → Bool) → Bool → ℕ → Bytes → Outcome Updated
eit_mysql_set_status query false id status = ok unconnected
eit_mysql_set_status query true id status =
    let request = status_request id status in
    if ltb (length request) 255
    then (if query request then ok (done request) else ok (failed request))
    else undefined
