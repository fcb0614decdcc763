-- ===== src/Auth/SsoTests.antt =====
-- The replay guard with a cache that is a list of the keys set.
use repo_backend_v.Base.{
  ℕ, ◌+◌, ◌<◌, String, Bool, true, ◌&&◌, ◌≡◌, refl, List, [], ◌∷◌, some, arith, ltb, ◌==◌, nat_eq,
  string_eq, any, length, eq_iff,
}
use repo_backend_v.Auth.Sso.{Lru, check, IsRefused, check-once}

abbrev Entries : Type 0
Entries = List (ℕ × String)

abbrev fresh : ℕ → ℕ → String → ℕ × String → Bool
fresh ttl now k (t, j) = j == k && ltb now (t + ttl)

abbrev set_each : Entries → Entries → Entries
set_each s [] = s
set_each s (e ∷ es) = set_each (e ∷ s) es

still_there :
    (ttl now : ℕ) (k : String) (s es : Entries)
    → any (fresh ttl now k) s ≡ true
    → any (fresh ttl now k) (set_each s es) ≡ true
still_there ttl now k s [] h = h
still_there ttl now k s (e ∷ es) h = still_there ttl now k (e ∷ s) es (ground (arith, h))

list_kept :
    {max : ℕ} (ttl : ℕ) (s : Entries) (t now : ℕ) (k : String) (ks : Entries)
    → length ks < max
    → now < t + ttl
    → any (fresh ttl now k) (set_each ((t, k) ∷ s) ks) ≡ true
list_kept ttl s t now k ks few time =
    still_there ttl now k ((t, k) ∷ s) ks (ground (arith, time, (eq_iff k k).1 refl))

abbrev list_cache : (max ttl : ℕ) → Lru max ttl
list_cache max ttl = record {
  State = Entries;
  has = λ s now k. any (fresh ttl now k) s;
  set = λ s t k. (t, k) ∷ s;
  set_all = set_each;
  set_all_nil = λ s. refl;
  set_all_step = λ s t k ks. refl;
  kept = list_kept ttl;
}

abbrev only_nonce : ℕ → String → String
only_nonce ts nonce = nonce

-- 300 seconds of skew: a request of second 1000, sent again ten minutes later.
check-once_example : IsRefused 300 (list_cache 10000 600000) only_nonce (
    check 300
      (list_cache 10000 600000)
      only_nonce
      1600500
      (some 1100)
      "0123456789abcdef"
      ((1000500, "0123456789abcdef") ∷ []))
check-once_example =
    check-once 300 (list_cache 10000 600000) only_nonce 1000500 1600500 1100 "0123456789abcdef" []
      ((1000500, "0123456789abcdef") ∷ []) [] (unfold check in refl) (omega arith) (omega arith)
