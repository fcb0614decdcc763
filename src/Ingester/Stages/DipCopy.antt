-- ===== src/Ingester/Stages/DipCopy.antt =====
-- ingester/stages/ingest.js: `wait_and_copy_dip`, the wait for the access copy of a package and its
-- copy. The calls of a turn are its parameters; `say` words an HTTP status for the reason at hand.
use Prim.Native.String.{◌++◌}
use repo_backend_v.Base.{
  ℕ, ◌+◌, String, Bool, not, ◌&&◌, ◌||◌, Option, none, some, ltb, leb, ◌==◌, string_eq, nat_eq,
  if◌then◌else◌,
}
use repo_backend_v.Ingester.Queue.Store.{Row, Details, Error}
use repo_backend_v.Ingester.Queue.Update.{Patch, no_change, to_status}
use repo_backend_v.Ingester.Stages.Text.{text_or, basename_from_path, without_7z}
use repo_backend_v.Ingester.Stages.World.{S, ◌>>=◌, pure, catch}
use repo_backend_v.Ingester.Stages.Steps.{write_row, write_progress, halted}

-- A call's answer, or the error that it threw.
pub data Got (A : Type 0) : Type 0 where
  threw : (retryable : Bool) (message : String) → Got A
  got : A → Got A

-- The answer of get_dip_path; "" for what is missing, here and below.
pub record Link : Type 0 where
  pub dip_path : String
  pub dip_uuid : String

pub record Package : Type 0 where
  pub status : ℕ
  pub has_data : Bool
  pub current_path : String
  pub package_type : String
  pub package_status : String
  pub size : ℕ

pub record CopyReply : Type 0 where
  pub status : ℕ
  pub is_ok : Bool
  pub result : String
  pub error : String

-- What the calls of one turn answer, as far as the turn makes them.
pub record DipTurn : Type 0 where
  pub link : Got Link
  pub package_record : Got Package
  pub copied : Got CopyReply

-- The variables of the wait: `row_path` is the dip_path of the row, `waiting` the text of the last
-- reason to wait.
pub record Wait : Type 0 where
  pub dip_path : String
  pub dip_uuid : String
  pub row_path : String
  pub incomplete_answers : ℕ
  pub waiting : String

pub data DipEnd : Type 0 where
  unexpected : (message : String) → DipEnd
  given_up : (reason error : String) → DipEnd
  copied_dip : DipEnd

-- DIP_TERMINAL_STATUSES
unfoldable pub terminal_reason : String → Option String
terminal_reason s =
    if s == "DELETED"
    then some "dip_deleted"
    else if s == "DEL_REQ"
    then some "dip_deletion_requested"
    else if s == "DEL_FAIL"
    then some "dip_deletion_failed"
    else if s == "FAIL"
    then some "dip_failed"
    else none

unfoldable pub folder_of : String → String
folder_of stored_path = without_7z (basename_from_path stored_path)

module _ (say : String → ℕ → String) (error_text : Error → String) (is_retryable : Error → Bool)
    (row : Row) where
  abbrev pub Checked : Type 0
  Checked = S (Wait × Option DipEnd)

  abbrev pub beat : ℕ → Patch
  beat now = record no_change { last_poll_at = some (some now) }

  unfoldable pub wait_again : Wait → String → Checked
  wait_again v error w =
      (write_progress row (beat w.queue.now) >>= λ _.
      pure {A = Wait × Option DipEnd} (record v { waiting = error }, none))
        w

  abbrev pub give_up : Wait → (reason error : String) → Checked
  give_up v reason error = pure (v, some (given_up reason error))

  unfoldable pub on_throw : Wait → Bool → String → Checked
  unfolding wait_again
  on_throw v retryable message =
      if retryable then wait_again v message else pure (v, some (unexpected message))

  unfoldable pub on_incomplete : Wait → String → Checked
  unfolding wait_again
  on_incomplete v error =
      let v' = record v { incomplete_answers = v.incomplete_answers + 1 } in
      if ltb 1 v'.incomplete_answers
      then give_up v' "dip_incomplete" (
          "Archivematica reports the DIP as stored, but "
          ++ text_or error "it is not complete in DCP")
      else wait_again v' (text_or error "The DIP is not complete in DCP yet")

  unfoldable pub on_copy : Wait → Got CopyReply → Checked
  unfolding on_throw on_incomplete wait_again
  on_copy v (threw retryable message) = on_throw v retryable message
  on_copy v (got c) =
      if leb 500 c.status || c.status == 429
      then wait_again v (say "curation_unavailable" c.status)
      else if not (c.status == 200)
      then give_up v "dip_copy_rejected" (say "dip_copy_rejected" c.status)
      else if c.result == "incomplete"
      then on_incomplete v c.error
      else if c.is_ok && c.result == "copied"
      then pure (v, some copied_dip)
      else give_up v "dip_copy_failed" (text_or c.error "The DIP copy failed")

  abbrev pub other_folder : Wait → Package → Bool
  other_folder v p =
      not (folder_of p.current_path == "") && not (folder_of p.current_path == folder_of v.dip_path)

  unfoldable pub on_status : Wait → Package → Got CopyReply → Option String → Checked
  unfolding on_copy wait_again
  on_status v p c (some reason) =
      give_up v reason ("Archivematica reports the DIP as " ++ p.package_status)
  on_status v p c none =
      if other_folder v p
      then give_up v "dip_path_mismatch" (
          "The DIP's folder in Archivematica ("
          ++ folder_of p.current_path
          ++ ") is not the one worked out from the AIP's name ("
          ++ folder_of v.dip_path
          ++ ")")
      else if not (p.package_status == "UPLOADED")
      then wait_again v (
          "Archivematica reports the DIP as "
          ++ text_or p.package_status "no status"
          ++ ", not UPLOADED")
      else if p.size == 0
      then wait_again v "Archivematica reports no size for the DIP"
      else on_copy v c

  unfoldable pub on_package : Wait → DipTurn → Got Package → Checked
  unfolding on_status on_throw wait_again terminal_reason
  on_package v t (threw retryable message) = on_throw v retryable message
  on_package v t (got p) =
      if not (p.status == 200) || not p.has_data
      then wait_again v (say "dip_record_unavailable" p.status)
      else if not (p.package_type == "") && not (p.package_type == "DIP")
      then give_up v "not_a_dip" (
          "The AIP's first related package in Archivematica is not a DIP (package type "
          ++ p.package_type ++ ")")
      else on_status v p t.copied (terminal_reason p.package_status)

  abbrev pub path_patch : String → Patch
  path_patch path = record no_change { details = λ d. record d { dip_path = path } }

  -- The path is stored before it is used; the error of the write, if it fails.
  unfoldable pub store_path : Wait → String → S (Option Error)
  store_path v path =
      if path == v.row_path
      then pure none
      else catch
          (write_row row (path_patch path) "ingest" "dip_path" >>= λ _.
            pure {A = Option Error} none)
          λ e. pure (some e)

  unfoldable pub on_stored : Wait → Link → DipTurn → Option Error → Checked
  unfolding on_package on_throw
  on_stored v l t (some e) = on_throw v (is_retryable e) (error_text e)
  on_stored v l t none =
      on_package (record v { dip_path = l.dip_path; dip_uuid = l.dip_uuid; row_path = l.dip_path })
        t t.package_record

  unfoldable pub on_link : Wait → DipTurn → Got Link → Checked
  unfolding on_stored store_path wait_again on_throw
  on_link v t (threw retryable message) = on_throw v retryable message
  on_link v t (got l) =
      if l.dip_path == "" || l.dip_uuid == ""
      then wait_again v "Archivematica has not linked a DIP to this AIP"
      else (store_path v l.dip_path >>= on_stored v l t)

  -- One check of the wait; the link is asked for once a run.
  unfoldable pub check_dip : Wait → DipTurn → Checked
  unfolding on_link on_package
  check_dip v t = if v.dip_uuid == "" then on_link v t t.link else on_package v t t.package_record

  abbrev pub columns : String → Details → Details
  columns path d = if path == "" then d else record d { dip_path = path }

  -- `halt` with the columns: every halt of the wait is DURACLOUD_TIMEOUT.
  abbrev pub halt_patch : (path error : String) → Patch
  halt_patch path error = record (halted "DURACLOUD_TIMEOUT" error) { details = columns path }

  abbrev pub done_patch : String → Patch
  done_patch path = record (to_status "METADATA_PROCESSED") { details = columns path }

  abbrev pub first_wait : Wait
  first_wait = record {
    dip_path = "";
    dip_uuid = "";
    row_path = row.details.dip_path;
    incomplete_answers = 0;
    waiting = "Archivematica has not linked a DIP to this AIP";
  }
