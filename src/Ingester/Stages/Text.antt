-- ===== src/Ingester/Stages/Text.antt =====
-- The error texts of the stages: the cut to a column's width and the patterns that stage 6 looks for.
use Prim.Native.Char.{code}
use Prim.Native.String.{◌++◌}
use repo_backend_v.Base.{
  ℕ, zero, suc, String, Bool, ◌==◌, string_eq, if◌then◌else◌, ◌&&◌, ◌||◌, false, leb, nat_eq, List,
  [], ◌∷◌,
}
use repo_backend_v.Ingester.Queue.Update.{lower_codes, has_infix}

-- `text.slice(0, n)`, by characters.
unfoldable pub slice : ℕ → String → String
slice zero s = ""
slice (suc n) String.[] = ""
slice (suc n) (String.◌∷◌ c s) = String.◌∷◌ c (slice n s)

-- /piece/i, for a piece in lower case.
unfoldable pub mentions : String → String → Bool
unfolding has_infix
mentions piece s = has_infix (lower_codes piece) (lower_codes s)

-- `text || fallback`
abbrev pub text_or : String → String → String
text_or s fallback = if s == "" then fallback else s

abbrev has_slash : String → Bool
has_slash String.[] = false
has_slash (String.◌∷◌ c s) = code c == 47 || has_slash s

-- `path.replace(/\/+$/, '')`
abbrev trimmed : String → String
trimmed String.[] = ""
trimmed (String.◌∷◌ c s) =
    let t = trimmed s in if code c == 47 && t == "" then "" else String.◌∷◌ c t

abbrev after_slash : String → String
after_slash String.[] = ""
after_slash (String.◌∷◌ c s) =
    let rest = after_slash s in
    if has_slash s then rest else if code c == 47 then s else String.◌∷◌ c s

-- `_basename_from_path` of ingester/stages/transfer.js
unfoldable pub basename_from_path : String → String
basename_from_path path = after_slash (trimmed path)

abbrev is_hex : ℕ → Bool
is_hex c = leb 48 c && leb c 57 || (leb 65 c && leb c 70 || leb 97 c && leb c 102)

-- A text of the shape, where `-` stands for itself and any other character for a hexadecimal digit.
abbrev has_shape : String → String → Bool
has_shape String.[] s = s == ""
has_shape (String.◌∷◌ p ps) String.[] = false
has_shape (String.◌∷◌ p ps) (String.◌∷◌ c s) =
    (if code p == 45 then code c == 45 else is_hex (code c)) && has_shape ps s

-- `_trailing_uuid_from_basename`, in the letters of the name; "" for none.
unfoldable pub trailing_uuid : String → String
trailing_uuid String.[] = ""
trailing_uuid (String.◌∷◌ c s) =
    let rest = trailing_uuid s in
    if code c == 45 && has_shape "xxxxxxxx-xxxx-xxxx-xxxx-xxxxxxxxxxxx" s then s else rest

-- `errors.join('; ')`
unfoldable pub join : List String → String
join [] = ""
join (e ∷ []) = e
join (e ∷ f ∷ es) = e ++ "; " ++ join (f ∷ es)

-- `text.replace(/\.7z$/, '')`
unfoldable pub without_7z : String → String
without_7z String.[] = ""
without_7z (String.◌∷◌ c s) =
    let rest = without_7z s in if String.◌∷◌ c s == ".7z" then "" else String.◌∷◌ c rest
