-- ===== src/Convert/Files.antt =====
-- The files of an object's entries: which ones there are, and each once.
use repo_backend_v.Base.{
  String, Bool, true, false, not, ◌&&◌, ◌||◌, ◌≡◌, refl, sym, List, [], ◌∷◌, arith, if◌then◌else◌,
  ◌==◌, string_eq, filter, contains, any, Bool-cases, inl, inr, eq_iff, ℕ, length,
}
use repo_backend_v.Convert.Mime.{eligible_mime}
use repo_backend_v.Convert.Expand.{
  Part, Object, Entry, text_of, part_mime, usable_parts, push_parts, expand_with, expand_row,
}

-- A part names a file and its type converts.
abbrev pub names : String → Part → Bool
names file p = (text_of p.object == file) && eligible_mime (part_mime p)

abbrev pub converts_with : Object → List Part → String → Bool
converts_with row [] file = (text_of row.file_name == file) && eligible_mime row.mime_type
converts_with row (p ∷ ps) file = any (names file) (p ∷ ps)

-- The files to convert, with no list built: an eligible part names the file, or the row itself does
-- where no part names one.
abbrev pub converts : Object → String → Bool
converts row file = not (file == "") && converts_with row (usable_parts row) file

abbrev pub entries_of : String → List Entry → ℕ
entries_of file es = length (filter (λ e. e.file_name == file) es)

abbrev once : Bool → ℕ
once b = if b then 1 else 0

push_parts-once :
    (row : Object) (seen : List String) (ps : List Part) (file : String)
    → entries_of file (push_parts row seen ps)
      ≡ once (not (file == "") && (not (contains seen file) && any (names file) ps))
unfolding push_parts contains
push_parts-once row seen [] file = ground arith
push_parts-once row seen (p ∷ ps) file =
    let g = text_of p.object in
    let pushed = eligible_mime (part_mime p) && not (g == "" || contains seen g) in
    elim (Bool-cases (g == file)) [
      | inl same ↦
          let at_file : file ≡ g = sym ((eq_iff g file).0 same) in
          let met : (file == g) ≡ true = (eq_iff file g).1 at_file in
          elim (Bool-cases pushed) [
            | inl e ↦
                let e' : (eligible_mime (part_mime p) && not (file == "" || contains seen file))
                    ≡ true =
                  rw at_file e in
                rw (e, same) (ground (arith, push_parts-once row (g ∷ seen) ps file, same, met, e'))
            | inr e ↦
                let e' : (eligible_mime (part_mime p) && not (file == "" || contains seen file))
                    ≡ false =
                  rw at_file e in
                rw e (ground (arith, push_parts-once row seen ps file, same, e'))
          ]
      | inr other ↦
          let unmet : (file == g) ≡ false = ground (arith, eq_iff g file, eq_iff file g) in
          elim (Bool-cases pushed) [
            | inl e ↦ rw e (ground (arith, push_parts-once row (g ∷ seen) ps file, other, unmet))
            | inr e ↦ rw e (ground (arith, push_parts-once row seen ps file, other))
          ]
    ]

expand_with-once :
    (row : Object) (ps : List Part) (file : String)
    → entries_of file (expand_with row ps) ≡ once (not (file == "") && converts_with row ps file)
unfolding contains
expand_with-once row (p ∷ ps) file = push_parts-once row [] (p ∷ ps) file
expand_with-once row [] file =
    let g = text_of row.file_name in
    elim (Bool-cases (g == file)) [
      | inl same ↦
          let e : (file == "") ≡ (g == "") = rw ((eq_iff g file).0 same) refl in
          ground (arith, e, same)
      | inr other ↦ ground (arith, other)
    ]

-- A file has one entry among those of its object if it is to be converted, and none otherwise: no file
-- twice, no ineligible file, and none left out.
pub expand_row-once :
    (row : Object) (file : String)
    → entries_of file (expand_row row) ≡ (if converts row file then 1 else 0)
unfolding expand_row
expand_row-once row file = expand_with-once row (usable_parts row) file
