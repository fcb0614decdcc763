-- ===== src/Convert/Expand.antt =====
-- convert/model.js: the files of an object that are converted. The JSON of a parts column is given as
-- what parsing it yields; a field that may be null is an Option, and an empty text counts as none.
use repo_backend_v.Base.{
  ℕ, String, Bool, not, ◌&&◌, ◌||◌, Option, none, some, List, [], ◌∷◌, if◌then◌else◌, ◌==◌,
  string_eq, filter, contains,
}
use repo_backend_v.Convert.Mime.{eligible_mime}

pub record Part : Type 0 where
  pub object : Option String
  pub type : Option String
  pub mime_type : Option String

-- A manifest column: empty, not JSON, an array, an object that carries `display_record.parts`, or any
-- other JSON value.
pub data Column : Type 0 where
  absent : Column
  unparsable : Column
  array : (parts : List Part) → Column
  merged : (parts : List Part) → Column
  other_json : Column

pub record Object : Type 0 where
  pub id : ℕ
  pub pid : Option String
  pub sip_uuid : Option String
  pub file_name : Option String
  pub mime_type : Option String
  pub is_member_of_collection : Option String
  pub compound_parts : Column
  pub display_record : Column

-- What one source of the manifest gives; an empty list sends `parts_of` to the next one.
abbrev pub manifest : Column → List Part
manifest absent = []
manifest unparsable = []
manifest (array parts) = parts
manifest (merged parts) = parts
manifest other_json = []

abbrev pub or_parts : List Part → List Part → List Part
or_parts [] qs = qs
or_parts (p ∷ ps) qs = p ∷ ps

abbrev pub parts_of : Object → List Part
parts_of row = or_parts (manifest row.compound_parts) (manifest row.display_record)

-- `x || null` on a text.
abbrev pub truthy : Option String → Option String
truthy none = none
truthy (some s) = if s == "" then none else some s

abbrev pub first_of : Option String → Option String → Option String
first_of none y = y
first_of (some x) y = some x

pub record Entry : Type 0 where
  pub pid : Option String
  pub sip_uuid : Option String
  pub collection : Option String
  pub file_name : String
  pub mime_type : Option String

abbrev pub entry : Object → String → Option String → Entry
entry row file_name mime_type = record {
  pid = truthy row.pid;
  sip_uuid = truthy row.sip_uuid;
  collection = truthy row.is_member_of_collection;
  file_name = file_name;
  mime_type = truthy mime_type;
}

abbrev pub text_of : Option String → String
text_of none = ""
text_of (some s) = s

abbrev pub has_text : Option String → Bool
has_text o = not (text_of o == "")

abbrev pub part_mime : Part → Option String
part_mime p = first_of (truthy p.type) (truthy p.mime_type)

abbrev pub usable_parts : Object → List Part
usable_parts row = filter (λ p. has_text p.object) (parts_of row)

-- The loop over the parts, with the set of the paths pushed so far.
unfoldable pub push_parts : Object → List String → List Part → List Entry
push_parts row seen [] = []
push_parts row seen (p ∷ ps) =
    let file = text_of p.object in
    let pushed = eligible_mime (part_mime p) && not (file == "" || contains seen file) in
    let rest = push_parts row (if pushed then file ∷ seen else seen) ps in
    if pushed then entry row file (part_mime p) ∷ rest else rest

abbrev pub expand_with : Object → List Part → List Entry
expand_with row [] =
    if has_text row.file_name && eligible_mime row.mime_type
    then entry row (text_of row.file_name) row.mime_type ∷ []
    else []
expand_with row (p ∷ ps) = push_parts row [] (p ∷ ps)

unfoldable pub expand_row : Object → List Entry
unfolding push_parts
expand_row row = expand_with row (usable_parts row)
