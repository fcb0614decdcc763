-- ===== src/Ingester/Worker/Rounds.antt =====
-- One round of a tick's loop over the states, whatever happened since the round before it.
use repo_backend_v.Base.{
  ℕ, ◌-◌, String, true, false, ◌≡◌, refl, Option, List, [], arith, ◌==◌, leb, nat_eq, string_eq,
  contains, length, All, All-imp, Bool-cases, inl, inr,
}
use repo_backend_v.Ingester.Queue.Store.{Row, Db}
use repo_backend_v.Ingester.Queue.Listed.{list_queue-open}
use repo_backend_v.Ingester.Worker.{
  Config, Gates, Worker, Claims, no_claims, is_gated, claim_state, claim_round, batch_for, admit,
}
use repo_backend_v.Ingester.Worker.States.{ready_states}
use repo_backend_v.Ingester.Worker.Sets.{is_stage6-not_pipeline}
use repo_backend_v.Ingester.Worker.Admission.{Counted, Of, count_in, admit-Counted}
use repo_backend_v.Ingester.Worker.Caps.{Capped, is_gated-Room, admit-Capped}
use repo_backend_v.Ingester.Worker.Tick.{batch_for-All}
use repo_backend_v.Ingester.Worker.Serial.{claim_state-All}

abbrev pub Named : String → Type 0
Named s = ((s == "") ≡ false) × (contains ready_states s ≡ true)

-- The counters of the claims count the rows claimed, and keep to the gates.
pub record Tallied (cfg : Config) (g : Gates) (c : Claims) : Type 0 where
  pub counted : Counted cfg g [] c
  pub capped : Capped cfg g c

module _ (cfg : Config) (g : Gates) where
  recounted : (b b' : List ℕ) (c : Claims) → Counted cfg g b c → Counted cfg g b' c
  recounted b b' c k = record { pipeline = k.pipeline; stage6 = k.stage6; am = k.am }

module _ (in_backoff : List (Option String) → Option (List String)) (cfg : Config) (g : Gates)
    (w : Worker) (db : Db) where
  claim_state-Tallied :
      (state : String) (c : Claims)
      → Named state
      → Tallied cfg g c
      → Tallied cfg g (claim_state in_backoff cfg g w.abort_controllers db state c)
  unfolding claim_state
  claim_state-Tallied state c named k = elim (Bool-cases (is_gated cfg g state c)) [
    | inl shut ↦ rw shut k
    | inr open' ↦
        let busy : List ℕ = w.abort_controllers in
        let batch : List Row = batch_for in_backoff state (cfg.concurrency - length c.claimed) db in
        let of_state : All (Of state) batch =
          All-imp (λ r. (r.status ≡ state) × (r.is_complete ≡ false)) (Of state) (λ r h. h.0) batch
            (batch_for-All in_backoff db _ state (cfg.concurrency - length c.claimed)
              (λ n. list_queue-open state n db named.0)) in
        let admitted : Tallied cfg g (admit cfg g busy state batch c) = record {
          counted = recounted cfg g busy [] _ (
              admit-Counted cfg g busy state batch c (is_stage6-not_pipeline state) of_state
                (recounted cfg g [] busy c k.counted));
          capped =
              admit-Capped cfg g busy state batch c (is_gated-Room cfg g state c open') k.capped;
        } in
        rw open' admitted
  ]

  pub claim_round-Tallied :
      (state : String) (c : Claims)
      → Named state
      → Tallied cfg g c
      → Tallied cfg g (claim_round in_backoff cfg g w db state c)
  unfolding claim_round
  claim_round-Tallied state c named k = elim (Bool-cases (leb cfg.concurrency (length c.claimed))) [
    | inl full ↦ rw full k
    | inr more ↦ rw more (claim_state-Tallied state c named k)
  ]

  pub claim_round-All :
      (P : Row → Type 0)
      → All P db.rows
      → (state : String) (c : Claims) → All P c.claimed
      → All P (claim_round in_backoff cfg g w db state c).claimed
  unfolding claim_round
  claim_round-All P h state c k = elim (Bool-cases (leb cfg.concurrency (length c.claimed))) [
    | inl full ↦ rw full k
    | inr more ↦ rw more (claim_state-All in_backoff cfg g w.abort_controllers db P h state c k)
  ]

pub start-Tallied : (cfg : Config) (g : Gates) → Tallied cfg g no_claims
start-Tallied cfg g = record {
  counted = record {
    pipeline = λ s. unfold count_in in refl;
    stage6 = λ s. unfold count_in in refl;
    am = unfold count_in in refl;
  };
  capped = record {
    pipeline = λ s. (omega arith, λ h. refl);
    stage6 = λ s. (omega arith, λ h. refl);
    am = λ p s. (omega arith, λ h. refl);
  };
}
