-- ===== src/Examples/Objects.antt =====
-- JSON objects as trees.
use multicat_supervisor.Base.{
  ℕ, ◌≡◌, refl, ap, none, some, List, [], ◌∷◌, arith, Bytes, codes, same_text,
}
use multicat_supervisor.Eit.{InfoSection, ComponentDesc}
use multicat_supervisor.Eit.Loading.{blank_component}
use multicat_supervisor.Eit.Fields.{SectionFits}
use multicat_supervisor.Json.{Kind, null, int, object, array, string, JsonC}
use multicat_supervisor.Json.Reading.{blank_section}
use multicat_supervisor.Json.Parsing.{
  json_parse, section_member, json_parse_short_smoothing_buffer_descriptor, rate_member,
}
use multicat_supervisor.Json.Building.{convert_eit_struct_to_json}
use multicat_supervisor.Json.Kept.{kept, IsWritable}
use multicat_supervisor.Json.RoundTrip.{json_parse-convert}
use multicat_supervisor.Json.Bounds.{json_parse-Fits}

mutual
  data Tree : Type 0 where
    nil : Tree
    num : ℕ → Tree
    text : Bytes → Tree
    arr : Trees → Tree
    obj : Fields → Tree

  data Trees : Type 0 where
    no_trees : Trees
    tree : Tree → Trees → Trees

  data Fields : Type 0 where
    no_fields : Fields
    field : Bytes → Tree → Fields → Fields

abbrev kind_of : Tree → Kind
kind_of nil = null
kind_of (num n) = int
kind_of (text s) = string
kind_of (arr vs) = array
kind_of (obj ms) = object

abbrev list_of : Trees → List Tree
list_of no_trees = []
list_of (tree v vs) = v ∷ list_of vs

abbrev trees_of : List Tree → Trees
trees_of [] = no_trees
trees_of (v ∷ vs) = tree v (trees_of vs)

abbrev pairs_of : Fields → List (Bytes × Tree)
pairs_of no_fields = []
pairs_of (field k v ms) = (k, v) ∷ pairs_of ms

abbrev fields_of : List (Bytes × Tree) → Fields
fields_of [] = no_fields
fields_of ((k, v) ∷ ms) = field k v (fields_of ms)

abbrev elements_of : Tree → List Tree
elements_of (arr vs) = list_of vs
elements_of _ = []

abbrev members_of : Tree → List (Bytes × Tree)
members_of (obj ms) = pairs_of ms
members_of _ = []

abbrev text_in : Tree → Bytes
text_in (text s) = s
text_in _ = []

abbrev number_in : Tree → ℕ
number_in (num n) = n
number_in _ = 0

list_of-trees_of : (vs : List Tree) → list_of (trees_of vs) ≡ vs
list_of-trees_of [] = refl
list_of-trees_of (v ∷ vs) = ap (λ l. v ∷ l) (list_of-trees_of vs)

pairs_of-fields_of : (ms : List (Bytes × Tree)) → pairs_of (fields_of ms) ≡ ms
pairs_of-fields_of [] = refl
pairs_of-fields_of ((k, v) ∷ ms) = ap (λ l. (k, v) ∷ l) (pairs_of-fields_of ms)

abbrev trees : JsonC
trees = record {
  Value = Tree;
  get_type = kind_of;
  elements = elements_of;
  members = members_of;
  get_string = text_in;
  get_int = number_in;
  get_int64 = number_in;
  new_int = num;
  new_string = text;
  new_array = λ vs. arr (trees_of vs);
  new_object = λ ms. obj (fields_of ms);
  get_type-new_int = λ n. refl;
  get_type-new_string = λ s. refl;
  get_type-new_array = λ vs. refl;
  get_type-new_object = λ ms. refl;
  get_int-new_int = λ n h. refl;
  get_string-new_string = λ s. refl;
  elements-new_array = list_of-trees_of;
  members-new_object = λ ms h. pairs_of-fields_of ms;
}

abbrev stereo : ComponentDesc
stereo = record {
  stream_content = 2;
  component_type = 3;
  set_component_tag = 0;
  text = [];
  lang = [];
}

abbrev subtitles : ComponentDesc
subtitles = record {
  stream_content = 3;
  component_type = 16;
  set_component_tag = 9;
  text = codes "sub";
  lang = codes "fre";
}

abbrev news : InfoSection
news = record blank_section {
  starttime = 100;
  duration = 3600;
  short_event_desc = record {
    event_name = codes "News";
    event_text = codes "At eight";
    event_lang = codes "fre";
  };
  stereo = stereo;
  subtitle = subtitles;
  parent_rating_desc = record { country_code = codes "FRA"; age = 10 };
  content_desc = record { level_1 = 2; level_2 = 1; user = 5 } ∷ [];
}

news-IsWritable : IsWritable news
news-IsWritable = omega arith

json_parse-convert_example :
    json_parse trees (convert_eit_struct_to_json trees news) ≡ some (kept news)
json_parse-convert_example = json_parse-convert trees news news-IsWritable

-- The component moves to the front.
kept-news : kept news ≡ record news {
  starttime = 0;
  stereo = subtitles;
  subtitle = blank_component;
  content_desc = record { level_1 = 2; level_2 = 1; user = 0 } ∷ [];
}
kept-news = refl

json_parse-Fits_example : SectionFits (kept news)
json_parse-Fits_example =
    json_parse-Fits trees (convert_eit_struct_to_json trees news) (kept news)
      json_parse-convert_example

-- A rate that is a number is refused.
bad_rate :
    json_parse trees (
      obj (
        field
          (codes "SHORT_SMOOTHING_BUFFER_DESCRIPTOR")
          (obj (field (codes "sb_leak_rate") (num 3) no_fields))
          no_fields))
    ≡ none
unfolding json_parse same_text section_member json_parse_short_smoothing_buffer_descriptor
    rate_member
bad_rate = refl
