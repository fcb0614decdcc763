-- ===== src/Ingester/Worker/Caps.antt =====
-- The gates admit at most one row of each kind in a tick, and none beside one in flight.
use repo_backend_v.Base.{
  ℕ, ◌+◌, ◌≤◌, ◌<◌, String, true, false, not, ◌&&◌, ◌≡◌, List, [], ◌∷◌, arith, nat_eq, string_eq,
}
use repo_backend_v.Ingester.Queue.Store.{Row}
use repo_backend_v.Ingester.Worker.{Config, Gates, Claims, push, is_gated, admit}
use repo_backend_v.Ingester.Worker.States.{is_pipeline, is_stage6, is_am_active}
use repo_backend_v.Ingester.Worker.Sets.{
  is_stage6-not_pipeline, is_am_active_lem, is_am_active-is_pipeline,
}
use repo_backend_v.Ingester.Worker.Admission.{admit-cases}

abbrev pub AtMostOne : ℕ → ℕ → Type 0
AtMostOne in_flight admitted = (admitted ≤ 1) × (0 < in_flight → admitted ≡ 0)

module _ (cfg : Config) (g : Gates) where
  pub record Capped (c : Claims) : Type 0 where
    pub pipeline : g.serial ≡ true → AtMostOne g.pipeline_in_flight c.pipeline_admitted
    pub stage6 : cfg.stage6_serial ≡ true → AtMostOne g.stage6_in_flight c.stage6_admitted
    pub am : cfg.am_parallel ≡ false → g.serial ≡ false → AtMostOne g.am_in_flight c.am_admitted

  -- There is room for a row of the state.
  pub record Room (state : String) (c : Claims) : Type 0 where
    pub pipeline :
        g.serial ≡ true → is_pipeline state ≡ true → g.pipeline_in_flight + c.pipeline_admitted ≡ 0
    pub stage6 :
        cfg.stage6_serial ≡ true
        → is_stage6 state ≡ true
        → g.stage6_in_flight + c.stage6_admitted ≡ 0
    pub am :
        cfg.am_parallel ≡ false
        → g.serial ≡ false
        → is_am_active state ≡ true
        → g.am_in_flight + c.am_admitted ≡ 0

  pub is_gated-Room : (state : String) (c : Claims) → is_gated cfg g state c ≡ false → Room state c
  unfolding is_gated
  is_gated-Room state c open' = record {
    pipeline = λ s p. ground (arith, is_stage6-not_pipeline state);
    stage6 = λ s p. ground arith;
    am = λ s p a. ground (
      arith,
      is_am_active_lem state,
      is_am_active-is_pipeline state,
      is_stage6-not_pipeline state,
    );
  }

  module _ (state : String) (r : Row) (c : Claims) (room : Room state c) (k : Capped c) where
    six_Capped :
        (cfg.stage6_serial && is_stage6 state) ≡ true
        → Capped (record (push state r c) { stage6_admitted = c.stage6_admitted + 1 })
    six_Capped f = record {
      pipeline = k.pipeline;
      stage6 = λ s. ground (arith, room.stage6 s);
      am = λ p n.
          ground (arith, k.am p n, is_am_active-is_pipeline state, is_stage6-not_pipeline state);
    }

    pipe_Capped :
        (g.serial && is_pipeline state) ≡ true
        → Capped (record (push state r c) { pipeline_admitted = c.pipeline_admitted + 1 })
    pipe_Capped f = record {
      pipeline = λ s. ground (arith, room.pipeline s);
      stage6 = k.stage6;
      am = λ p n. ground arith;
    }

    push-Capped : Capped (push state r c)
    push-Capped = record {
      pipeline = k.pipeline;
      stage6 = k.stage6;
      am = λ p n. ground (arith, k.am p n, room.am p n);
    }

    push-Room : (not cfg.am_parallel && is_am_active state) ≡ false → Room state (push state r c)
    push-Room quiet = record {
      pipeline = room.pipeline;
      stage6 = room.stage6;
      am = λ p n a. ground arith;
    }

  pub admit-Capped :
      (busy : List ℕ) (state : String) (batch : List Row) (c : Claims)
      → Room state c
      → Capped c
      → Capped (admit cfg g busy state batch c)
  admit-Capped busy state [] c room k = unfold admit in k
  admit-Capped busy state (r ∷ batch) c room k =
      admit-cases cfg g busy Capped state r batch c (λ _. admit-Capped busy state batch c room k)
        (λ _. six_Capped state r c room k) (λ _ f. pipe_Capped state r c room k)
        (λ _ f h. push-Capped state r c room k)
        (λ _ f h l.
          admit-Capped busy state batch (push state r c) (push-Room state r c room k l)
            (push-Capped state r c room k))
