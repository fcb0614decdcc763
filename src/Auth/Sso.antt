-- ===== src/Auth/Sso.antt =====
-- auth/sso/replay_guard.js: a sign-on request is accepted once. The LRU cache is a parameter, with the
-- two facts about it that the guard relies on; a timestamp is given as parseInt reads it, and the text of
-- a key as the template makes it. Times are milliseconds.
use Prim.Native.String.{len}
use repo_backend_v.Base.{
  ℕ, ◌+◌, ◌-◌, ◌*◌, ◌/◌, ◌<◌, ◌≤◌, String, Bool, true, ◌||◌, ◌≡◌, refl, ◌⊎◌, inl, inr, Option, none,
  some, List, [], ◌∷◌, arith, ltb, if◌then◌else◌, ◌==◌, nat_eq, length, Bool-cases, if-both,
}

-- What the guard uses of lru-cache. A key that is set is there until its time to live has passed, while
-- fewer other keys than the cache holds are set after it.
pub record Lru (max ttl : ℕ) : Type 1 where
  pub State : Type 0
  pub has : State → ℕ → String → Bool
  pub set : State → ℕ → String → State
  pub set_all : State → List (ℕ × String) → State
  pub set_all_nil : (s : State) → set_all s [] ≡ s
  pub set_all_step :
      (s : State) (t : ℕ) (k : String) (ks : List (ℕ × String))
      → set_all s ((t, k) ∷ ks) ≡ set_all (set s t k) ks
  pub kept :
      (s : State) (t now : ℕ) (k : String) (ks : List (ℕ × String))
      → length ks < max
      → now < t + ttl
      → has (set_all (set s t k) ks) now k ≡ true

pub data Refusal : Type 0 where
  bad_timestamp : Refusal
  bad_nonce : Refusal
  out_of_range : (skew : ℕ) → Refusal
  replayed : Refusal

pub data Checked (S : Type 0) : Type 0 where
  accepted : (cache : S) → Checked S
  refused : (r : Refusal) → Checked S

abbrev pub distance : ℕ → ℕ → ℕ
distance a b = (a - b) + (b - a)

module _ (max_skew_seconds : ℕ) (cache : Lru 10000 (max_skew_seconds * 2 * 1000))
    (key : ℕ → String → String) where
  -- The request is in time and well formed: only the cache can refuse it.
  abbrev pub check_cache : ℕ → ℕ → String → cache.State → Checked cache.State
  check_cache now ts nonce s =
      if cache.has s now (key ts nonce)
      then refused replayed
      else accepted (cache.set s now (key ts nonce))

  abbrev pub check_number : ℕ → ℕ → String → cache.State → Checked cache.State
  check_number now ts nonce s =
      if ts == 0
      then refused bad_timestamp
      else if ltb (len nonce) 8 || ltb 128 (len nonce)
      then refused bad_nonce
      else if ltb max_skew_seconds (distance (now / 1000) ts)
      then refused (out_of_range (distance (now / 1000) ts))
      else check_cache now ts nonce s

  unfoldable pub check : ℕ → Option ℕ → String → cache.State → Checked cache.State
  check now none nonce s = refused bad_timestamp
  check now (some ts) nonce s = check_number now ts nonce s

  -- Refused, for whatever reason.
  abbrev pub IsRefused : Checked cache.State → Type 0
  IsRefused (accepted s) = ⊥
  IsRefused (refused r) = Unit

  later-IsRefused :
      (now ts : ℕ) (nonce : String) (s : cache.State)
      → (ltb max_skew_seconds (distance (now / 1000) ts) ≡ true)
        ⊎ (cache.has s now (key ts nonce) ≡ true)
      → IsRefused (check_number now ts nonce s)
  later-IsRefused now ts nonce s h =
      if-both IsRefused (ts == 0) (λ e. tt)
        (λ e.
          if-both IsRefused (ltb (len nonce) 8 || ltb 128 (len nonce)) (λ k. tt)
            (λ k.
              if-both IsRefused (ltb max_skew_seconds (distance (now / 1000) ts)) (λ l. tt)
                (λ l.
                  if-both IsRefused (cache.has s now (key ts nonce)) (λ m. tt)
                    (λ m. elim h [ inl a ↦ cc (a, l) | inr a ↦ cc (a, m) ]))))

  -- What an accepted request leaves in the cache.
  Remembers : ℕ → ℕ → String → cache.State → Checked cache.State → Type 0
  Remembers now ts nonce s (accepted s') = s' ≡ cache.set s now (key ts nonce)
  Remembers now ts nonce s (refused r) = Unit

  check-Remembers :
      (now ts : ℕ) (nonce : String) (s : cache.State)
      → Remembers now ts nonce s (check_number now ts nonce s)
  unfolding Remembers
  check-Remembers now ts nonce s =
      let P = Remembers now ts nonce s in
      if-both P (ts == 0) (λ e. tt)
        (λ e.
          if-both P (ltb (len nonce) 8 || ltb 128 (len nonce)) (λ k. tt)
            (λ k.
              if-both P (ltb max_skew_seconds (distance (now / 1000) ts)) (λ l. tt)
                (λ l. if-both P (cache.has s now (key ts nonce)) (λ m. tt) (λ m. refl))))

  remembered :
      (now ts : ℕ) (nonce : String) (s : cache.State) (c : Checked cache.State) {s' : cache.State}
      → Remembers now ts nonce s c
      → c ≡ accepted s'
      → s' ≡ cache.set s now (key ts nonce)
  unfolding Remembers
  remembered now ts nonce s (accepted s'') h e = cc (h, e)
  remembered now ts nonce s (refused r) h e = cc e

  out_of_time :
      (now later ts : ℕ)
      → ts < now / 1000 + max_skew_seconds
      → now + max_skew_seconds * 2 * 1000 ≤ later
      → max_skew_seconds < distance (later / 1000) ts
  out_of_time now later ts ahead late =
      let seconds : now / 1000 + max_skew_seconds * 2 ≤ later / 1000 = omega (arith, late) in
      omega (arith, seconds, ahead)

  -- A request that is accepted is refused at every later time, while fewer than 10,000 other requests have
  -- been accepted since: until its time to live the cache holds it, and from then on it is out of range. Its
  -- timestamp is less than the allowed skew ahead of the clock that accepts it.
  pub check-once :
      (now later ts : ℕ) (nonce : String) (s s' : cache.State) (others : List (ℕ × String))
      → check now (some ts) nonce s ≡ accepted s'
      → ts < now / 1000 + max_skew_seconds
      → length others < 10000
      → IsRefused (check later (some ts) nonce (cache.set_all s' others))
  unfolding check
  check-once now later ts nonce s s' others first ahead few =
      let at : s' ≡ cache.set s now (key ts nonce) =
        remembered now ts nonce s _ (check-Remembers now ts nonce s) first in
      rw at (
        later-IsRefused later ts nonce _
          (elim (Bool-cases (ltb later (now + max_skew_seconds * 2 * 1000))) [
            | inl e ↦ inr (cache.kept s now later (key ts nonce) others few (ground (arith, e)))
            | inr e ↦
                let far = out_of_time now later ts ahead (ground (arith, e)) in
                inl (ground (arith, far))
          ]))
