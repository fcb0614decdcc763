-- ===== src/Ingester/Worker/Runs.antt =====
-- Every run of a worker beside the rest of the program. A tick is its reads and its dispatch, each a
-- step; between two steps any call of the model may write the queue, and a dispatched stage may return
-- or throw at any time. No tick begins between the first read and the dispatch of another: the interval
-- of the worker does not see to that, its length does.
use repo_backend_v.Ingester.Worker.Gated.{claim_order_named}
use repo_backend_v.Ingester.Worker.Caps.{AtMostOne}
use repo_backend_v.Ingester.Worker.Rounds.{
  Tallied, Named, claim_round-Tallied, claim_round-All, start-Tallied,
}
use repo_backend_v.Base.{
  ℕ, ◌+◌, ◌≤◌, String, true, false, not, ◌≡◌, refl, Option, List, arith, length, All, Bool-cases,
  inl, inr, ◌||◌, nat_eq, string_eq, ◌&&◌, some, none, [], ◌∷◌,
}
use repo_backend_v.Ingester.Queue.Store.{Row, Db}
use repo_backend_v.Ingester.Queue.Select.{by_id}
use repo_backend_v.Ingester.Queue.Audit.{IsSynced, IsSound, update_queue-IsSound}
use repo_backend_v.Ingester.Queue.Reach.{Op, run_op, IsPlain, empty_db, run_op-IsSound}
use repo_backend_v.Ingester.Worker.{
  Config, Gates, Worker, fresh_worker, observe, no_claims, claim_order, end_dispatch, halt_row,
  begin_all, Turn, opening, claiming, tick_begin, read_am_gate, read_stage6_gate, claim_round,
  Claims,
}
use repo_backend_v.Ingester.Worker.States.{is_pipeline, is_stage6, is_am_active}
use repo_backend_v.Ingester.Worker.Serial.{begin_all-Grown, length-remove_if-le}

pub record System : Type 0 where
  pub worker : Worker
  pub db : Db
  pub ticking : Option Turn

module _ (in_backoff : List (Option String) → Option (List String)) (cfg : Config) where
  -- A tick begins where none is between its first read and its dispatch. `seen` is the queue that a
  -- gate's count saw.
  pub data Step : System → System → Type 0 where
    began :
        (s : System) (seen : Db) (t : Turn)
        → s.ticking ≡ none
        → tick_begin cfg seen s.worker ≡ some t
        → Step s (record s { ticking = some t })
    read_am :
        (s : System) (seen : Db) (g : Gates)
        → s.ticking ≡ some (opening g)
        → Step s (record s { ticking = some (opening (read_am_gate cfg seen s.worker g)) })
    read_stage6 :
        (s : System) (seen : Db) (g : Gates)
        → s.ticking ≡ some (opening g)
        → Step s (record s { ticking = some (opening (read_stage6_gate cfg seen s.worker g)) })
    opened :
        (s : System) (g : Gates)
        → s.ticking ≡ some (opening g)
        → Step s (record s { ticking = some (claiming g (claim_order g) no_claims) })
    claimed :
        (s : System) (g : Gates) (state : String) (order : List String) (c : Claims)
        → s.ticking ≡ some (claiming g (state ∷ order) c)
        → Step s (record s {
          ticking = some (claiming g order (claim_round in_backoff cfg g s.worker s.db state c));
        })
    failed : (s : System) → Step s (record s { ticking = none })
    dispatched :
        (s : System) (g : Gates) (c : Claims)
        → s.ticking ≡ some (claiming g [] c)
        → Step s (record s { worker = begin_all c.claimed s.worker; ticking = none })
    returned : (s : System) (row : Row) → Step s (record s { worker = end_dispatch row s.worker })
    threw :
        (s : System) (row : Row) (message : String)
        → Step s (record s { worker = end_dispatch row s.worker; db = halt_row row message s.db })
    called : (s : System) (op : Op) → IsPlain op → Step s (record s { db = run_op op s.db })
    stopped : (s : System) → Step s (record s { worker = record (s.worker) { stopping = true } })

  pub data Reach (s : System) : System → Type 0 where
    here : Reach s s
    next : {t u : System} → Reach s t → Step t u → Reach s u

  record IsSerial (w : Worker) : Type 0 where
    pipeline :
        cfg.am_parallel ≡ false → cfg.pipeline_serial ≡ true → length w.pipeline_dispatched ≤ 1
    stage6 : cfg.stage6_serial ≡ true → length w.stage6_dispatched ≤ 1
    am : cfg.am_parallel ≡ false → cfg.pipeline_serial ≡ false → length w.am_dispatched ≤ 1

  -- The gates of a tick under way: since they were read, stages have only ended.
  record IsSeen (g : Gates) (w : Worker) : Type 0 where
    serial : g.serial ≡ not cfg.am_parallel && cfg.pipeline_serial
    pipeline : length w.pipeline_dispatched ≤ g.pipeline_in_flight
    stage6 : length w.stage6_dispatched ≤ g.stage6_in_flight
    am : length w.am_dispatched ≤ g.am_in_flight

  abbrev IsUnderWay : Worker → Option Turn → Type 0
  IsUnderWay w none = Unit
  IsUnderWay w (some (opening g)) = IsSeen g w
  IsUnderWay w (some (claiming g order c)) =
      IsSeen g w × Tallied cfg g c × All IsSynced c.claimed × All Named order

  abbrev IsKept : System → Type 0
  IsKept s = IsSound s.db × IsSerial s.worker × IsUnderWay s.worker s.ticking

  begin-IsSeen :
      (seen : Db) (w : Worker) (t : Turn) → tick_begin cfg seen w ≡ some t → IsUnderWay w (some t)
  unfolding tick_begin
  begin-IsSeen seen w t e = elim (Bool-cases (w.stopping || not cfg.enabled)) [
    | inl off ↦ let nothing : none ≡ some t = rw off at e in absurd cc
    | inr on ↦
        let some_one : some (opening (observe cfg w seen)) ≡ some t = rw on at e in
        let same : opening (observe cfg w seen) ≡ t = cc in
        let first : IsSeen (observe cfg w seen) w =
          unfold observe in
          record {
            serial = refl;
            pipeline = omega arith;
            stage6 = omega arith;
            am = omega arith;
          } in
        rw⁻¹ same first
  ]

  at_most_one : {n m k a : ℕ} → n ≤ m + a → m ≤ k → AtMostOne k a → m ≤ 1 → n ≤ 1
  at_most_one grown seen cap h = ground (arith, cap)

  dispatched-IsSerial :
      (g : Gates) (c : Claims) (w : Worker)
      → IsSeen g w
      → Tallied cfg g c
      → All IsSynced c.claimed
      → IsSerial w
      → IsSerial (begin_all c.claimed w)
  dispatched-IsSerial g c w seen t synced k =
      let grown = begin_all-Grown c.claimed w synced in
      record {
        pipeline = λ p s.
            let on : g.serial ≡ true = rw (seen.serial, p, s) refl in
            at_most_one (rw (t.counted.pipeline on) at grown.pipeline) seen.pipeline
              (t.capped.pipeline on) (k.pipeline p s);
        stage6 = λ s.
            at_most_one (rw (t.counted.stage6 s) at grown.stage6) seen.stage6 (t.capped.stage6 s)
              (k.stage6 s);
        am = λ p s.
            let off : g.serial ≡ false = rw (seen.serial, p, s) refl in
            at_most_one (rw t.counted.am at grown.am) seen.am (t.capped.am p off) (k.am p s);
      }

  ended-IsSeen : (g : Gates) (row : Row) (w : Worker) → IsSeen g w → IsSeen g (end_dispatch row w)
  unfolding end_dispatch
  ended-IsSeen g row w k = record {
    serial = k.serial;
    pipeline = omega (
      arith,
      k.pipeline,
      length-remove_if-le (is_pipeline row.pipeline_state) row.id w.pipeline_dispatched,
    );
    stage6 = omega (
      arith,
      k.stage6,
      length-remove_if-le (is_stage6 row.pipeline_state) row.id w.stage6_dispatched,
    );
    am =
        omega (
          arith,
          k.am,
          length-remove_if-le (is_am_active row.pipeline_state) row.id w.am_dispatched,
        );
  }

  ended-IsUnderWay :
      (o : Option Turn) (row : Row) (w : Worker)
      → IsUnderWay w o
      → IsUnderWay (end_dispatch row w) o
  ended-IsUnderWay none row w k = tt
  ended-IsUnderWay (some (opening g)) row w k = ended-IsSeen g row w k
  ended-IsUnderWay (some (claiming g order c)) row w k = (ended-IsSeen g row w k.0, k.1, k.2, k.3)

  stopped-IsUnderWay :
      (o : Option Turn) (w : Worker) → IsUnderWay w o → IsUnderWay (record w { stopping = true }) o
  stopped-IsUnderWay none w k = tt
  stopped-IsUnderWay (some (opening g)) w k = record {
    serial = k.serial;
    pipeline = k.pipeline;
    stage6 = k.stage6;
    am = k.am;
  }
  stopped-IsUnderWay (some (claiming g order c)) w k = (
    record { serial = k.0.serial; pipeline = k.0.pipeline; stage6 = k.0.stage6; am = k.0.am },
    k.1,
    k.2,
    k.3,
  )

  end_dispatch-IsSerial : (row : Row) (w : Worker) → IsSerial w → IsSerial (end_dispatch row w)
  unfolding end_dispatch
  end_dispatch-IsSerial row w k = record {
    pipeline = λ p s. omega (
      arith,
      k.pipeline p s,
      length-remove_if-le (is_pipeline row.pipeline_state) row.id w.pipeline_dispatched,
    );
    stage6 = λ s. omega (
      arith,
      k.stage6 s,
      length-remove_if-le (is_stage6 row.pipeline_state) row.id w.stage6_dispatched,
    );
    am = λ p s. omega (
      arith,
      k.am p s,
      length-remove_if-le (is_am_active row.pipeline_state) row.id w.am_dispatched,
    );
  }

  halt_row-IsSound :
      (row : Row) (message : String) (db : Db) → IsSound db → IsSound (halt_row row message db)
  unfolding halt_row
  halt_row-IsSound row message db h = update_queue-IsSound (by_id row.id) _ _ db refl (λ e. cc) h

  Step-IsKept : {s t : System} → Step s t → IsKept s → IsKept t
  unfolding read_am_gate read_stage6_gate
  Step-IsKept (began s seen t idle e) (h, k, u) = (h, k, begin-IsSeen seen s.worker t e)
  Step-IsKept (read_am s seen g e) (h, k, u) =
      let now : IsSeen g s.worker = (rw e at u) in
      (
        h,
        k,
        record {
          serial = now.serial;
          pipeline = now.pipeline;
          stage6 = now.stage6;
          am = omega arith;
        },
      )
  Step-IsKept (read_stage6 s seen g e) (h, k, u) =
      let now : IsSeen g s.worker = (rw e at u) in
      (
        h,
        k,
        record { serial = now.serial; pipeline = now.pipeline; stage6 = omega arith; am = now.am },
      )
  Step-IsKept (opened s g e) (h, k, u) =
      (h, k, ((rw e at u), start-Tallied cfg g, tt, claim_order_named g))
  Step-IsKept (claimed s g state order c e) (h, k, u) =
      let now = (rw e at u) in
      (
        h,
        k,
        (
          now.0,
          claim_round-Tallied in_backoff cfg g s.worker s.db state c now.3.0 now.1,
          claim_round-All in_backoff cfg g s.worker s.db IsSynced h.synced state c now.2,
          now.3.1,
        ),
      )
  Step-IsKept (failed s) (h, k, u) = (h, k, tt)
  Step-IsKept (dispatched s g c e) (h, k, u) =
      let now = (rw e at u) in (h, dispatched-IsSerial g c s.worker now.0 now.1 now.2 k, tt)
  Step-IsKept (returned s row) (h, k, u) =
      (h, end_dispatch-IsSerial row s.worker k, ended-IsUnderWay s.ticking row s.worker u)
  Step-IsKept (threw s row message) (h, k, u) = (
    halt_row-IsSound row message s.db h,
    end_dispatch-IsSerial row s.worker k,
    ended-IsUnderWay s.ticking row s.worker u,
  )
  Step-IsKept (called s op p) (h, k, u) = (run_op-IsSound op s.db p h, k, u)
  Step-IsKept (stopped s) (h, k, u) = (
    h,
    record { pipeline = k.pipeline; stage6 = k.stage6; am = k.am },
    stopped-IsUnderWay s.ticking s.worker u,
  )

  Reach-IsKept : {s t : System} → IsKept s → Reach s t → IsKept t
  Reach-IsKept h here = h
  Reach-IsKept h (next r st) = Step-IsKept st (Reach-IsKept h r)

  start-IsKept : IsSound empty_db × IsSerial fresh_worker × Unit {0}
  unfolding empty_db fresh_worker
  start-IsKept = (
    record { synced = tt; ascending = tt; below = tt; audited = tt },
    record { pipeline = λ _ _. omega arith; stage6 = λ _. omega arith; am = λ _ _. omega arith },
    tt,
  )

  module _ (s : System)
      (r : Reach (record { worker = fresh_worker; db = empty_db; ticking = none }) s) where
    -- However the reads and the dispatches of ticks, stages that return or throw, and the calls of the
    -- model interleave, from an empty queue and a fresh worker, as long as no tick begins between the
    -- first read and the dispatch of another: with a serial Archivematica and a serial pipeline at most
    -- one package is in dispatch in stages 1 to 5. The calls name no state but by a status.
    pub one_package :
        cfg.am_parallel ≡ false
        → cfg.pipeline_serial ≡ true
        → length s.worker.pipeline_dispatched ≤ 1
    one_package = (Reach-IsKept start-IsKept r).1.pipeline

    -- However the reads and the dispatches of ticks, stages and the calls of the model interleave, from
    -- an empty queue and a fresh worker, as long as no tick begins between the first read and the
    -- dispatch of another: with a serial stage 6 at most one copy is in dispatch there. The calls name
    -- no state but by a status.
    pub one_copy : cfg.stage6_serial ≡ true → length s.worker.stage6_dispatched ≤ 1
    one_copy = (Reach-IsKept start-IsKept r).1.stage6

    -- However the reads and the dispatches of ticks, stages and the calls of the model interleave, from
    -- an empty queue and a fresh worker, as long as no tick begins between the first read and the
    -- dispatch of another: with a serial Archivematica and packages that interleave at most one is in
    -- dispatch in Archivematica's states. The calls name no state but by a status.
    pub one_transfer :
        cfg.am_parallel ≡ false → cfg.pipeline_serial ≡ false → length s.worker.am_dispatched ≤ 1
    one_transfer = (Reach-IsKept start-IsKept r).1.am
