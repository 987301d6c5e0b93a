-- ===== src/Eit.antt =====
-- eit.c and eit.h: the tables of events that multicat puts into a stream in place of those that are there.
-- What biTStream makes of the calls, from a table to its bytes and their packets, is a record of functions.
pub mod Packets
pub mod Numbers
pub mod Loading
pub mod Fields
pub mod Loaded
pub mod Splitting
pub mod Passing
use multicat_supervisor.Base.{
  ℕ, zero, suc, ◌+◌, Bool, ◌&&◌, List, [], ◌∷◌, ◌==◌, if◌then◌else◌, take, Bytes,
}

pub record ShortEventDesc : Type 0 where
  pub event_name : Bytes
  pub event_text : Bytes
  pub event_lang : Bytes

-- The items are texts with their descriptions.
pub record ExtEventDesc : Type 0 where
  pub text : Bytes
  pub lang : Bytes
  pub items : List (Bytes × Bytes)

pub record ComponentDesc : Type 0 where
  pub stream_content : ℕ
  pub component_type : ℕ
  pub set_component_tag : ℕ
  pub text : Bytes
  pub lang : Bytes

pub record ContentDesc : Type 0 where
  pub level_1 : ℕ
  pub level_2 : ℕ
  pub user : ℕ

pub record ParentalRatingDesc : Type 0 where
  pub country_code : Bytes
  pub age : ℕ

-- `EitInfoSection`, with the entries of `component_desc` by what they are used for. The lists are the
-- arrays `content_desc` and `ca_identifier_desc`.
pub record InfoSection : Type 0 where
  pub starttime : ℕ
  pub duration : ℕ
  pub short_event_desc : ShortEventDesc
  pub ext_event_desc : ExtEventDesc
  pub stereo : ComponentDesc
  pub audio : ComponentDesc
  pub subtitle : ComponentDesc
  pub parent_rating_desc : ParentalRatingDesc
  pub content_desc : List ContentDesc
  pub ca_identifier_desc : List ℕ
  pub sb_leak_rate : ℕ

-- `EitInfo`
pub record Info : Type 0 where
  pub tsid : ℕ
  pub sid : ℕ
  pub onid : ℕ
  pub section0 : InfoSection
  pub section1 : InfoSection

-- The calls that build a descriptor, one constructor for each kind.
pub data Descriptor : Type 0 where
  desc4d : Bytes → Bytes → Bytes → Descriptor
  desc4e : Bytes → Bytes → Descriptor
  desc50 : ComponentDesc → Descriptor
  desc53 : List ℕ → Descriptor
  desc54 : List ContentDesc → Descriptor
  desc55 : Bytes → ℕ → Descriptor
  desc61 : ℕ → ℕ → Descriptor

-- The calls that build a table with its event.
pub record Table : Type 0 where
  pub section : ℕ
  pub sid : ℕ
  pub tsid : ℕ
  pub onid : ℕ
  pub event_id : ℕ
  pub running : ℕ
  pub start_time : ℕ
  pub duration : ℕ
  pub descriptors : List Descriptor

-- The static variables `section`, `cc`, `ts_0` and `duration_0`.
pub record Static : Type 0 where
  pub section : ℕ
  pub cc : ℕ
  pub ts_0 : ℕ
  pub duration_0 : ℕ

-- A NUL at place 20 of a text.
abbrev pub reduced : Bytes → Bytes
reduced = take 20

-- `build_desc4d` and `build_desc4e` shorten the texts where they stand.
unfoldable pub shorten : InfoSection → InfoSection
shorten s = record s {
  short_event_desc = record s.short_event_desc {
    event_name = reduced s.short_event_desc.event_name;
    event_text = reduced s.short_event_desc.event_text;
  };
  ext_event_desc = record s.ext_event_desc { text = reduced s.ext_event_desc.text };
}

-- The loop of `build_desc53`, up to the first system that is 0.
unfoldable pub systems : List ℕ → List ℕ
systems [] = []
systems (x ∷ xs) = let rest = systems xs in if x == 0 then [] else x ∷ rest

-- The loop of `build_desc54`, up to the first entry of zeros.
unfoldable pub contents : List ContentDesc → List ContentDesc
contents [] = []
contents (x ∷ xs) =
    let rest = contents xs in
    if x.level_1 == 0 && x.level_2 == 0 && x.user == 0 then [] else x ∷ rest

-- `getInfoSection`
unfoldable pub info_section : ℕ → Info → InfoSection
info_section section info = if section == 1 then info.section1 else info.section0

-- `build_desc4d`
unfoldable pub build_desc4d : ShortEventDesc → Descriptor
build_desc4d d = desc4d (reduced d.event_name) (reduced d.event_text) d.event_lang

-- `build_desc4e`
unfoldable pub build_desc4e : InfoSection → Descriptor
build_desc4e s = desc4e s.ext_event_desc.lang (reduced s.ext_event_desc.text)

-- `build_desc50_stereo`, `build_desc50_audio` and `build_desc50_subtitle`
unfoldable pub build_desc50_stereo : InfoSection → Descriptor
build_desc50_stereo s = desc50 s.stereo

unfoldable pub build_desc50_audio : InfoSection → Descriptor
build_desc50_audio s = desc50 s.audio

unfoldable pub build_desc50_subtitle : InfoSection → Descriptor
build_desc50_subtitle s = desc50 s.subtitle

-- `build_desc53`
unfoldable pub build_desc53 : InfoSection → Descriptor
unfolding systems
build_desc53 s = desc53 (systems s.ca_identifier_desc)

-- `build_desc54`
unfoldable pub build_desc54 : InfoSection → Descriptor
unfolding contents
build_desc54 s = desc54 (contents s.content_desc)

-- `build_desc55`
unfoldable pub build_desc55 : InfoSection → Descriptor
build_desc55 s = desc55 s.parent_rating_desc.country_code s.parent_rating_desc.age

-- `build_desc61`
unfoldable pub build_desc61 : InfoSection → Descriptor
build_desc61 s = desc61 1 s.sb_leak_rate

-- The descriptors of an event, in the order of `generate_eit`.
unfoldable pub descriptors_of : ℕ → InfoSection → List Descriptor
unfolding build_desc4d build_desc4e build_desc50_stereo build_desc50_audio build_desc50_subtitle
    build_desc53 build_desc54 build_desc55 build_desc61
descriptors_of section s =
    let last : List Descriptor = build_desc53 s ∷ build_desc54 s ∷ build_desc55 s ∷ [] in
    build_desc50_stereo s
    ∷ build_desc4d s.short_event_desc
    ∷ build_desc4e s
    ∷ build_desc61 s
    ∷ (if section == 0 then build_desc50_audio s ∷ build_desc50_subtitle s ∷ last else last)

abbrev pub event_id : ℕ
event_id = 30000

abbrev pub or_default : ℕ → ℕ → ℕ
or_default n default = if n == 0 then default else n

-- The times of `generate_eit` at the clock's time `now`: the event that runs, or the one behind it.
unfoldable pub set_times : ℕ → InfoSection → Static → ℕ × ℕ × Static
set_times now s st =
    let start = or_default s.starttime now in
    let duration = or_default s.duration 6300 in
    if st.section == 0
    then (start, duration, record st { ts_0 = start; duration_0 = duration })
    else (st.ts_0 + st.duration_0, duration, st)

-- The table of `generate_eit`, the shortened texts, and the static variables.
unfoldable pub generate_table : ℕ → Info → Static → Table × Info × Static
generate_table now info st =
    let s = info_section st.section info in
    let (start, duration, st') = set_times now s st in
    (
      record {
        section = st.section;
        sid = info.sid;
        tsid = info.tsid;
        onid = info.onid;
        event_id = if st.section == 0 then event_id else event_id + 1;
        running = if st.section == 0 then 4 else 1;
        start_time = start;
        duration = duration;
        descriptors = descriptors_of st.section s;
      },
      if st.section == 1
          then record info { section1 = shorten s }
          else record info { section0 = shorten s },
      st',
    )
