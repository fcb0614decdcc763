-- ===== src/Ingester/Stages/DipOwn.antt =====
-- The check of the wait for the access copy writes only the columns of the stage's row, no state.
use repo_backend_v.Base.{
  ℕ, ◌+◌, String, Bool, not, ◌&&◌, ◌||◌, refl, Option, none, some, List, ltb, leb, ◌==◌, string_eq,
  nat_eq, if◌then◌else◌, if-both,
}
use repo_backend_v.Ingester.Queue.Store.{Row, Error}
use repo_backend_v.Ingester.Stages.Rules.{Safe-catch}
use repo_backend_v.Ingester.Stages.World.{S, ◌>>=◌, pure}
use repo_backend_v.Ingester.Stages.Steps.{write_row, write_progress}
use repo_backend_v.Ingester.Stages.Ends.{Own, Own-pure, Own-bind, Own-write, Own-progress}
use repo_backend_v.Ingester.Stages.DipCopy.{
  Got, threw, got, Link, Package, CopyReply, DipTurn, Wait, DipEnd, unexpected, copied_dip,
  terminal_reason, beat, wait_again, on_throw, on_incomplete, on_copy, other_folder, on_status,
  on_package, path_patch, store_path, on_stored, on_link, check_dip,
}

module _ (say : String → ℕ → String) (error_text : Error → String) (is_retryable : Error → Bool)
    (row : Row) (states : List String) where
  record Kept (m : S (Wait × Option DipEnd)) : Type 0 where
    own : Own row states m

  ended : (v : Wait) (e : DipEnd) → Kept (pure (v, some e))
  ended v e = record { own = Own-pure row states {A = Wait × Option DipEnd} (v, some e) }

  again : (v : Wait) (error : String) → Kept (wait_again say error_text is_retryable row v error)
  unfolding wait_again
  again v error = record {
    own = λ w.
        Own-bind row states (write_progress row (beat say error_text is_retryable row w.queue.now))
          (λ _. pure {A = Wait × Option DipEnd} (record v { waiting = error }, none))
          (Own-progress row states (beat say error_text is_retryable row w.queue.now) refl)
          (λ _. Own-pure row states {A = Wait × Option DipEnd} (record v { waiting = error }, none))
          w;
  }

  -- A conditional whose branches keep to the row.
  either-Kept :
      (b : Bool) (m k : S (Wait × Option DipEnd)) → Kept m → Kept k → Kept (if b then m else k)
  either-Kept b m k h j =
      if-both {A = S (Wait × Option DipEnd)} Kept b {x = m} {y = k} (λ _. h) (λ _. j)

  on_throw-Kept :
      (v : Wait) (retryable : Bool) (message : String)
      → Kept (on_throw say error_text is_retryable row v retryable message)
  unfolding on_throw
  on_throw-Kept v retryable message =
      either-Kept retryable _ _ (again v message) (ended v (unexpected message))

  on_incomplete-Kept :
      (v : Wait) (error : String) → Kept (on_incomplete say error_text is_retryable row v error)
  unfolding on_incomplete
  on_incomplete-Kept v error =
      let v' : Wait = record v { incomplete_answers = v.incomplete_answers + 1 } in
      either-Kept (ltb 1 v'.incomplete_answers) _ _ (ended v' _) (again v' _)

  on_copy-Kept : (v : Wait) (c : Got CopyReply) → Kept (on_copy say error_text is_retryable row v c)
  unfolding on_copy
  on_copy-Kept v (threw retryable message) = on_throw-Kept v retryable message
  on_copy-Kept v (got c) = either-Kept (leb 500 c.status || c.status == 429) _ _ (again v _) (
      either-Kept (not (c.status == 200)) _ _ (ended v _) (
        either-Kept (c.result == "incomplete") _ _ (on_incomplete-Kept v c.error)
          (either-Kept (c.is_ok && c.result == "copied") _ _ (ended v copied_dip) (ended v _))))

  on_status-Kept :
      (v : Wait) (p : Package) (c : Got CopyReply) (o : Option String)
      → Kept (on_status say error_text is_retryable row v p c o)
  unfolding on_status
  on_status-Kept v p c (some reason) = ended v _
  on_status-Kept v p c none =
      either-Kept (other_folder say error_text is_retryable row v p) _ _ (ended v _) (
        either-Kept (not (p.package_status == "UPLOADED")) _ _ (again v _)
          (either-Kept (p.size == 0) _ _ (again v _) (on_copy-Kept v c)))

  on_package-Kept :
      (v : Wait) (t : DipTurn) (p : Got Package)
      → Kept (on_package say error_text is_retryable row v t p)
  unfolding on_package
  on_package-Kept v t (threw retryable message) = on_throw-Kept v retryable message
  on_package-Kept v t (got p) =
      either-Kept (not (p.status == 200) || not p.has_data) _ _ (again v _) (
        either-Kept (not (p.package_type == "") && not (p.package_type == "DIP")) _ _ (ended v _)
          (on_status-Kept v p t.copied (terminal_reason p.package_status)))

  store_path-Own :
      (v : Wait) (path : String)
      → Own row states (store_path say error_text is_retryable row v path)
  unfolding store_path
  store_path-Own v path =
      let p = path_patch say error_text is_retryable row path in
      if-both {A = S (Option Error)} (Own row states) (path == v.row_path)
        (λ _. Own-pure row states {A = Option Error} none)
        (λ _.
          Safe-catch row.id states
            (write_row row p "ingest" "dip_path" >>= λ _. pure {A = Option Error} none)
            (λ e. pure {A = Option Error} (some e))
            (Own-bind row states (write_row row p "ingest" "dip_path")
              (λ _. pure {A = Option Error} none) (Own-write row states p "ingest" "dip_path" tt)
              (λ _. Own-pure row states {A = Option Error} none))
            (λ e. Own-pure row states {A = Option Error} (some e)))

  on_stored-Kept :
      (v : Wait) (l : Link) (t : DipTurn) (o : Option Error)
      → Kept (on_stored say error_text is_retryable row v l t o)
  unfolding on_stored
  on_stored-Kept v l t (some e) = on_throw-Kept v (is_retryable e) (error_text e)
  on_stored-Kept v l t none = on_package-Kept _ t t.package_record

  on_link-Kept :
      (v : Wait) (t : DipTurn) (l : Got Link) → Kept (on_link say error_text is_retryable row v t l)
  unfolding on_link
  on_link-Kept v t (threw retryable message) = on_throw-Kept v retryable message
  on_link-Kept v t (got l) =
      either-Kept (l.dip_path == "" || l.dip_uuid == "") _ _ (again v _) (record {
        own =
            Own-bind row states (store_path say error_text is_retryable row v l.dip_path)
              (on_stored say error_text is_retryable row v l t) (store_path-Own v l.dip_path)
              (λ o. (on_stored-Kept v l t o).own);
      })

  check_dip-Kept : (v : Wait) (t : DipTurn) → Kept (check_dip say error_text is_retryable row v t)
  unfolding check_dip
  check_dip-Kept v t =
      either-Kept (v.dip_uuid == "") _ _ (on_link-Kept v t t.link)
        (on_package-Kept v t t.package_record)

  pub check_dip-Own :
      (v : Wait) (t : DipTurn) → Own row states (check_dip say error_text is_retryable row v t)
  check_dip-Own v t = (check_dip-Kept v t).own
