-- ===== src/Convert/Mime.antt =====
-- convert/model.js: the MIME test that says which files are sent to the convert service. A text is
-- read as its code points.
use Prim.Native.Char.{code}
use repo_backend_v.Base.{
  ℕ, ◌+◌, String, Bool, true, false, ◌&&◌, ◌||◌, Option, none, some, List, [], ◌∷◌, leb,
  if◌then◌else◌, ◌==◌, nat_eq, any,
}
use mathlib.Core.List.{reverse}

abbrev pub codes : String → List ℕ
codes String.[] = []
codes (String.◌∷◌ c s) = code c ∷ codes s

-- The white space that `trim` drops.
abbrev pub is_space : ℕ → Bool
is_space c =
    (leb 9 c && leb c 13)
    || any (λ s. s == c) (32 ∷ 160 ∷ 5760 ∷ 8232 ∷ 8233 ∷ 8239 ∷ 8287 ∷ 12288 ∷ 65279 ∷ [])
    || (leb 8192 c && leb c 8202)

unfoldable pub trim_start : List ℕ → List ℕ
trim_start [] = []
trim_start (c ∷ s) = let rest = trim_start s in if is_space c then rest else c ∷ s

unfoldable pub trim : List ℕ → List ℕ
unfolding trim_start
trim s = reverse (trim_start (reverse (trim_start s)))

-- The `i` flag, on the letters that the pattern has.
abbrev pub fold_case : ℕ → ℕ
fold_case c = if leb 65 c && leb c 90 then c + 32 else c

unfoldable pub same_text : List ℕ → List ℕ → Bool
same_text [] [] = true
same_text [] (d ∷ t) = false
same_text (c ∷ s) [] = false
same_text (c ∷ s) (d ∷ t) = fold_case c == d && same_text s t

-- `/^image\/(tiff?|jpe?g)$/i`
unfoldable pub convertible : List ℕ → Bool
unfolding same_text
convertible s =
    any (λ t. same_text s (codes t)) ("image/tif" ∷ "image/tiff" ∷ "image/jpg" ∷ "image/jpeg" ∷ [])

abbrev is_blank : List ℕ → Bool
is_blank [] = true
is_blank (c ∷ s) = false

unfoldable pub eligible_mime : Option String → Bool
unfolding trim convertible
eligible_mime none = true
eligible_mime (some m) = let s = trim (codes m) in is_blank s || convertible s
