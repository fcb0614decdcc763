-- ===== src/Repository/Tests.antt =====
-- The table of copies on concrete rows.
use repo_backend_v.Base.{
  ℕ, String, ◌≡◌, refl, Option, none, some, List, [], ◌∷◌, nat_eq, string_eq, contains,
}
use repo_backend_v.Repository.AipStore.{Aip, blank, list_uuids_in_backoff, derive_wasabi_key}

abbrev copy : ℕ → String → ℕ → Option ℕ → Aip
copy id u code next = record (blank id "p") {
  aip_uuid = some u;
  is_migrated = code;
  next_attempt_at = next;
}

abbrev copies : List Aip
copies = copy 1 "a" 7 (some 500) ∷ copy 2 "b" 0 none ∷ copy 3 "c" 7 (some 50) ∷ []

one_waits : list_uuids_in_backoff 100 ("a" ∷ "c" ∷ []) copies ≡ "a" ∷ []
unfolding list_uuids_in_backoff contains
one_waits = refl

legacy_key :
    derive_wasabi_key (λ s. some "aip.7z") (record (blank 1 "p") { aip_legacy = "x/aip.7z" })
    ≡ some "aip.7z"
unfolding derive_wasabi_key
legacy_key = refl
