-- ===== src/Ingester/Worker/Admission.antt =====
-- What one tick claims: how many rows of each kind, against the gates that it read.

use repo_backend_v.Base.{
  ℕ, suc, ◌+◌, String, Bool, true, false, not, ◌&&◌, ◌≡◌, inl, inr, List, [], ◌∷◌, ◌++◌, arith, leb,
  if◌then◌else◌, nat_eq, string_eq, contains, length, All, Bool-cases,
}
use repo_backend_v.Ingester.Queue.Store.{Row}
use repo_backend_v.Ingester.Worker.{Config, Gates, Claims, push, admit}
use repo_backend_v.Ingester.Worker.States.{is_pipeline, is_stage6, is_am_active}

-- The rows whose status passes a test.
unfoldable pub count_in : (String → Bool) → List Row → ℕ
count_in p [] = 0
count_in p (r ∷ rows) = if p r.status then suc (count_in p rows) else count_in p rows

pub count_in-concat :
    (p : String → Bool) (rows : List Row) (r : Row)
    → count_in p (rows ++ r ∷ []) ≡ count_in p rows + (if p r.status then 1 else 0)
unfolding count_in
count_in-concat p [] r = ground arith
count_in-concat p (q ∷ rows) r = ground (arith, count_in-concat p rows r)

-- A set of states is disjoint from another.
abbrev pub Apart : (String → Bool) → (String → Bool) → Type 0
Apart p q = (s : String) → p s ≡ true → q s ≡ false

abbrev pub Of : String → Row → Type 0
Of state r = r.status ≡ state

module _ (cfg : Config) (g : Gates) (busy : List ℕ) where
  -- The three counters say what was claimed of each kind.
  pub record Counted (c : Claims) : Type 0 where
    pub pipeline : g.serial ≡ true → count_in is_pipeline c.claimed ≡ c.pipeline_admitted
    pub stage6 : cfg.stage6_serial ≡ true → count_in is_stage6 c.claimed ≡ c.stage6_admitted
    pub am : count_in is_am_active c.claimed ≡ c.am_admitted

  module _ (state : String) (r : Row) (c : Claims) (here : r.status ≡ state) (k : Counted c) where
    pushed_pipeline :
        g.serial ≡ true
        → count_in is_pipeline (push state r c).claimed
          ≡ c.pipeline_admitted + (if is_pipeline state then 1 else 0)
    pushed_pipeline s = ground (arith, count_in-concat is_pipeline c.claimed r, k.pipeline s)

    pushed_stage6 :
        cfg.stage6_serial ≡ true
        → count_in is_stage6 (push state r c).claimed
          ≡ c.stage6_admitted + (if is_stage6 state then 1 else 0)
    pushed_stage6 s = ground (arith, count_in-concat is_stage6 c.claimed r, k.stage6 s)

    pushed_am : count_in is_am_active (push state r c).claimed ≡ (push state r c).am_admitted
    pushed_am = ground (arith, count_in-concat is_am_active c.claimed r, k.am)

    push-Counted :
        (cfg.stage6_serial && is_stage6 state) ≡ false
        → (g.serial && is_pipeline state) ≡ false
        → Counted (push state r c)
    push-Counted not6 notp = record {
      pipeline = λ s. ground (arith, pushed_pipeline s);
      stage6 = λ s. ground (arith, pushed_stage6 s);
      am = pushed_am;
    }

    push_stage6-Counted :
        (cfg.stage6_serial && is_stage6 state) ≡ true
        → is_pipeline state ≡ false
        → Counted (record (push state r c) { stage6_admitted = c.stage6_admitted + 1 })
    push_stage6-Counted is6 notp = record {
      pipeline = λ s. ground (arith, pushed_pipeline s);
      stage6 = λ s. ground (arith, pushed_stage6 s);
      am = pushed_am;
    }

    push_pipeline-Counted :
        (cfg.stage6_serial && is_stage6 state) ≡ false
        → (g.serial && is_pipeline state) ≡ true
        → Counted (record (push state r c) { pipeline_admitted = c.pipeline_admitted + 1 })
    push_pipeline-Counted not6 isp = record {
      pipeline = λ s. ground (arith, pushed_pipeline s);
      stage6 = λ s. ground (arith, pushed_stage6 s);
      am = pushed_am;
    }

  -- The ways on from a row, as a rule for any property of claims.
  pub admit-cases {κ} :
      (P : Claims → Type κ) (state : String) (r : Row) (batch : List Row) (c : Claims)
      → (contains busy r.id ≡ true → P (admit cfg g busy state batch c))
      → (contains busy r.id ≡ false
          → (cfg.stage6_serial && is_stage6 state) ≡ true
          → P (record (push state r c) { stage6_admitted = c.stage6_admitted + 1 }))
      → (contains busy r.id ≡ false
          → (cfg.stage6_serial && is_stage6 state) ≡ false
          → (g.serial && is_pipeline state) ≡ true
          → P (record (push state r c) { pipeline_admitted = c.pipeline_admitted + 1 }))
      → (contains busy r.id ≡ false
          → (cfg.stage6_serial && is_stage6 state) ≡ false
          → (g.serial && is_pipeline state) ≡ false
          → P (push state r c))
      → (contains busy r.id ≡ false
          → (cfg.stage6_serial && is_stage6 state) ≡ false
          → (g.serial && is_pipeline state) ≡ false
          → (not cfg.am_parallel && is_am_active state) ≡ false
          → P (admit cfg g busy state batch (push state r c)))
      → P (admit cfg g busy state (r ∷ batch) c)
  unfolding admit
  admit-cases P state r batch c skipped six pipe stop more =
      elim (Bool-cases (contains busy r.id)) [
        | inl e ↦ rw e (skipped e)
        | inr e ↦ elim (Bool-cases (cfg.stage6_serial && is_stage6 state)) [
          | inl f ↦ rw (e, f) (six e f)
          | inr f ↦ elim (Bool-cases (g.serial && is_pipeline state)) [
            | inl h ↦ rw (e, f, h) (pipe e f h)
            | inr h ↦ elim (Bool-cases (leb cfg.concurrency (length (push state r c).claimed))) [
              | inl k ↦ rw (e, f, h, k) (stop e f h)
              | inr k ↦ elim (Bool-cases (not cfg.am_parallel && is_am_active state)) [
                | inl l ↦ rw (e, f, h, k, l) (stop e f h)
                | inr l ↦ rw (e, f, h, k, l) (more e f h l)
              ]
            ]
          ]
        ]
      ]

  pub admit-Counted :
      (state : String) (batch : List Row) (c : Claims)
      → (is_stage6 state ≡ true → is_pipeline state ≡ false)
      → All (Of state) batch
      → Counted c
      → Counted (admit cfg g busy state batch c)
  admit-Counted state [] c apart h k = unfold admit in k
  admit-Counted state (r ∷ batch) c apart (here, h) k =
      admit-cases Counted state r batch c (λ _. admit-Counted state batch c apart h k)
        (λ _ f. push_stage6-Counted state r c here k f (ground arith))
        (λ _. push_pipeline-Counted state r c here k) (λ _. push-Counted state r c here k)
        (λ _ f e _.
          admit-Counted state batch (push state r c) apart h (push-Counted state r c here k f e))
