-- ===== src/Examples/Tables.antt =====
-- Tables of events at concrete packets.
use multicat_supervisor.Base.{
  ℕ, zero, suc, ◌+◌, ◌/◌, ◌≡◌, ◌≢◌, refl, true, none, some, List, [], ◌∷◌, ◌++◌, arith, length, min,
  ◌==◌, if◌then◌else◌, Bytes, codes,
}
use multicat_supervisor.Io.{ok, undefined}
use multicat_supervisor.Eit.{Info, InfoSection, ComponentDesc, Static}
use multicat_supervisor.Eit.Packets.{
  Psi, nb_packet, ts_size, output_psi_section, split_loop, section_packet, packets_in, has_eit,
  add_eit,
}
use multicat_supervisor.Eit.Splitting.{Made, output_psi_section-Made}
use multicat_supervisor.Eit.Passing.{count_eit, replaced, Inserted, add_eit-replaced}

abbrev pub zeros : ℕ → Bytes
zeros zero = []
zeros (suc n) = 0 ∷ zeros n

-- A packet whose identifier is its first byte, and a table of one byte.
abbrev pub pid_of : Bytes → ℕ
pid_of [] = 0
pid_of (x ∷ xs) = x

abbrev pub count_in : Bytes → ℕ → Bytes
count_in [] cc = []
count_in (x ∷ xs) cc = x ∷ cc ∷ xs

pub pid_of-count_in : (ts : Bytes) (cc : ℕ) → pid_of (count_in ts cc) ≡ pid_of ts
pid_of-count_in [] cc = refl
pid_of-count_in (x ∷ xs) cc = refl

abbrev pub psi : Psi
psi = record {
  encode = λ t. t.section ∷ t.event_id ∷ zeros 200;
  validate = λ ts. true;
  get_pid = pid_of;
  set_pid = λ ts pid. pid ∷ ts;
  set_cc = count_in;
  split =
      λ section offset. ([], min (length section) (offset + (if offset == 0 then 183 else 184)));
  split_end = λ ts. ts;
  split_offset = λ section offset. refl;
  get_pid-set_pid = λ ts pid l. refl;
  get_pid-set_cc = pid_of-count_in;
  get_pid-split_end = λ ts. refl;
}

abbrev pub component : ComponentDesc
component = record {
  stream_content = 2;
  component_type = 3;
  set_component_tag = 1;
  text = codes "Stereo";
  lang = codes "fre";
}

abbrev pub event : InfoSection
event = record {
  starttime = 0;
  duration = 600;
  short_event_desc = record {
    event_name = codes "An event with a long name";
    event_text = codes "text";
    event_lang = codes "fre";
  };
  ext_event_desc = record { text = codes "more"; lang = codes "fre"; items = [] };
  stereo = component;
  audio = component;
  subtitle = component;
  parent_rating_desc = record { country_code = codes "FRA"; age = 10 };
  content_desc = [];
  ca_identifier_desc = 5 ∷ 0 ∷ [];
  sb_leak_rate = 1;
}

abbrev pub info : Info
info = record { tsid = 1; sid = 2; onid = 3; section0 = event; section1 = event }

abbrev pub static : Static
static = record { section = 0; cc = 15; ts_0 = 1; duration_0 = 0 }

-- A packet of a table, and another one.
abbrev buffer : Bytes
buffer = (18 ∷ zeros 187) ++ (100 ∷ zeros 187)

-- A section of 184 bytes needs two packets, and has room for one.
overrun : output_psi_section psi (zeros 184) 0 ≡ undefined
unfolding output_psi_section split_loop section_packet
overrun = refl

output_psi_section-Made_example :
    (((length (zeros 200) + 184) / 184 ≡ nb_packet (length (zeros 200)))
      → Made psi (output_psi_section psi (zeros 200) 3) ((length (zeros 200) + 184) / 184) 3)
    × (((length (zeros 200) + 184) / 184 ≢ nb_packet (length (zeros 200)))
        → output_psi_section psi (zeros 200) 3 ≡ undefined)
output_psi_section-Made_example = output_psi_section-Made psi (zeros 200) 3 (omega arith)

add_eit-replaced_example :
    let ps = packets_in psi (length buffer / ts_size) buffer in
    (ms : List (List Bytes)) × (info' : Info) × (st' : Static) × (add_eit psi 1000 none buffer info
        static
      ≡ ok (some (replaced psi ps ms), info', st'))
    × Inserted psi 1000 (count_eit psi ps) info static ms info' st'
unfolding packets_in has_eit
add_eit-replaced_example =
    add_eit-replaced psi 2 1000 none buffer info static refl ((omega arith, refl, omega arith), tt)
      (omega arith) (omega arith) (omega arith)
