-- ===== src/Ingester/Worker/Gated.antt =====
-- The claims of a tick keep to its gates: over the loop of the states.
use repo_backend_v.Base.{
  ℕ, ◌-◌, ◌≤◌, String, true, false, ◌≡◌, refl, Option, List, [], ◌∷◌, arith, leb, ◌==◌, nat_eq,
  string_eq, eq_iff, contains, length, All, All-imp, Bool-cases, inl, inr, sym, ◌∙◌, all, ◌&&◌, not,
}
use repo_backend_v.Ingester.Queue.Store.{Row, Db}
use repo_backend_v.Ingester.Queue.Listed.{list_queue-open}
use repo_backend_v.Ingester.Worker.{
  Config, Gates, Claims, no_claims, is_gated, admit, batch_for, claim_state, claim_states,
  claim_order,
}
use repo_backend_v.Ingester.Worker.States.{
  is_pipeline, is_stage6, ready_states, serial_claim_order, is_am_entry,
}
use repo_backend_v.Ingester.Worker.Sets.{is_stage6-not_pipeline}
use repo_backend_v.Ingester.Worker.Admission.{Counted, Of, count_in, admit-Counted}
use repo_backend_v.Ingester.Worker.Caps.{Capped, is_gated-Room, admit-Capped}
use repo_backend_v.Ingester.Worker.Tick.{
  batch_for-All, length-batch_for-le, admit-All, length-admit,
}

module _ (cfg : Config) (g : Gates) (busy : List ℕ) (db : Db) where
  -- A claimed row is open, in a state that has a stage, not in flight, and new work only where the
  -- database shows no earlier work under way.
  pub record Admissible (r : Row) : Type 0 where
    pub open_row : r.is_complete ≡ false
    pub free : contains busy r.id ≡ false
    pub ready : contains ready_states r.status ≡ true
    pub new_package : g.serial ≡ true → r.status ≡ "PENDING" → g.mid_db_count ≡ 0
    pub new_copy :
        cfg.stage6_serial ≡ true → r.status ≡ "AIP_STORE_PENDING" → g.stage6_inside_db ≡ 0
    pub new_transfer :
        cfg.am_parallel ≡ false
        → g.serial ≡ false
        → r.status ≡ "UPLOAD_COMPLETE"
        → g.inside_db_count ≡ 0

  pub record Kept (c : Claims) : Type 0 where
    pub counted : Counted cfg g busy c
    pub capped : Capped cfg g c
    pub within : length c.claimed ≤ cfg.concurrency
    pub rows : All Admissible c.claimed

  abbrev Named : String → Type 0
  Named s = ((s == "") ≡ false) × (contains ready_states s ≡ true)

  literals :
      (is_pipeline "PENDING" ≡ true)
      × (is_stage6 "AIP_STORE_PENDING" ≡ true)
      × (is_am_entry "UPLOAD_COMPLETE" ≡ true)
      × (is_stage6 "UPLOAD_COMPLETE" ≡ false)
  unfolding is_pipeline is_stage6 is_am_entry
  literals = (refl, refl, refl, refl)

  -- What an open gate says of the state.
  open_gate :
      (state : String) (c : Claims)
      → is_gated cfg g state c ≡ false
      → (g.serial ≡ true → state ≡ "PENDING" → g.mid_db_count ≡ 0)
        × (cfg.stage6_serial ≡ true → state ≡ "AIP_STORE_PENDING" → g.stage6_inside_db ≡ 0)
        × (cfg.am_parallel ≡ false
            → g.serial ≡ false
            → state ≡ "UPLOAD_COMPLETE"
            → g.inside_db_count ≡ 0)
  unfolding is_gated
  open_gate state c h = (
    λ s e. ground (arith, literals, eq_iff state "PENDING", is_stage6-not_pipeline "PENDING"),
    λ s e. ground (arith, literals, eq_iff state "AIP_STORE_PENDING"),
    λ p s e. ground (arith, literals),
  )

  module _ (in_backoff : List (Option String) → Option (List String)) where
    module _ (state : String) (c : Claims) (named : Named state) (k : Kept c)
        (open' : is_gated cfg g state c ≡ false) where
      abbrev batch : List Row
      batch = batch_for in_backoff state (cfg.concurrency - length c.claimed) db

      batch_rows : All (λ r. (r.status ≡ state) × (r.is_complete ≡ false)) batch
      batch_rows =
          batch_for-All in_backoff db _ state (cfg.concurrency - length c.claimed)
            (λ n. list_queue-open state n db named.0)

      admissible :
          (r : Row)
          → (r.status ≡ state) × (r.is_complete ≡ false)
          → contains busy r.id ≡ false
          → Admissible r
      admissible r h free =
          let gate = open_gate state c open' in
          record {
            open_row = h.1;
            free = free;
            ready = rw h.0 named.1;
            new_package = λ s e. gate.0 s (sym h.0 ∙ e);
            new_copy = λ s e. gate.1 s (sym h.0 ∙ e);
            new_transfer = λ p s e. gate.2 p s (sym h.0 ∙ e);
          }

      admitted : Kept (admit cfg g busy state batch c)
      admitted = record {
        counted =
            admit-Counted cfg g busy state batch c (is_stage6-not_pipeline state)
              (All-imp (λ r. (r.status ≡ state) × (r.is_complete ≡ false)) (Of state) (λ r h. h.0)
                batch batch_rows)
              k.counted;
        capped = admit-Capped cfg g busy state batch c (is_gated-Room cfg g state c open') k.capped;
        within = omega (
          arith,
          k.within,
          length-admit cfg g busy state batch c,
          length-batch_for-le in_backoff db state (cfg.concurrency - length c.claimed),
        );
        rows =
            admit-All cfg g busy Admissible state batch c
              (All-imp (λ r. (r.status ≡ state) × (r.is_complete ≡ false)) _ admissible batch
                batch_rows)
              k.rows;
      }

    claim_state-Kept :
        (state : String) (c : Claims)
        → Named state
        → Kept c
        → Kept (claim_state in_backoff cfg g busy db state c)
    unfolding claim_state
    claim_state-Kept state c named k = elim (Bool-cases (is_gated cfg g state c)) [
      | inl shut ↦ rw shut k
      | inr open' ↦ rw open' (admitted state c named k open')
    ]

    pub claim_states-Kept :
        (order : List String) (c : Claims)
        → All Named order
        → Kept c
        → Kept (claim_states in_backoff cfg g busy db order c)
    unfolding claim_states
    claim_states-Kept [] c named k = k
    claim_states-Kept (state ∷ order) c (here, named) k =
        elim (Bool-cases (leb cfg.concurrency (length c.claimed))) [
          | inl full ↦ rw full k
          | inr more ↦ rw more (
              claim_states-Kept order (claim_state in_backoff cfg g busy db state c) named
                (claim_state-Kept state c here k))
        ]

    pub start-Kept : Kept no_claims
    start-Kept = record {
      counted = record {
        pipeline = λ s. unfold count_in in refl;
        stage6 = λ s. unfold count_in in refl;
        am = unfold count_in in refl;
      };
      capped = record {
        pipeline = λ s. (omega arith, λ h. refl);
        stage6 = λ s. (omega arith, λ h. refl);
        am = λ p s. (omega arith, λ h. refl);
      };
      within = omega arith;
      rows = tt;
    }

named_all :
    (order : List String)
    → all (λ s. not (s == "") && contains ready_states s) order ≡ true
    → All (λ s. ((s == "") ≡ false) × (contains ready_states s ≡ true)) order
named_all [] h = tt
named_all (s ∷ order) h = ((ground arith, ground arith), named_all order (ground arith))

serial_named : All (λ s. ((s == "") ≡ false) × (contains ready_states s ≡ true)) serial_claim_order
unfolding contains
serial_named = named_all serial_claim_order refl

ready_named : All (λ s. ((s == "") ≡ false) × (contains ready_states s ≡ true)) ready_states
unfolding contains
ready_named = named_all ready_states refl

pub claim_order_named :
    (g : Gates) → All (λ s. ((s == "") ≡ false) × (contains ready_states s ≡ true)) (claim_order g)
claim_order_named g = elim (Bool-cases g.serial) [
  | inl s ↦ rw s serial_named
  | inr s ↦ rw s ready_named
]
