-- ===== src/Convert/Tests.antt =====
-- The conversion queue on a concrete table: a row that is verified, one that waits, one that failed.
use repo_backend_v.Base.{
  ℕ, String, true, false, ◌≡◌, refl, inl, Option, none, some, List, [], ◌∷◌, arith, if◌then◌else◌,
  nat_eq, map, contains, filter, All,
}
use repo_backend_v.Convert.Mime.{eligible_mime}
use repo_backend_v.Convert.Expand.{Part, absent, array, Object, expand_row}
use repo_backend_v.Convert.Files.{entries_of, converts, expand_row-once}
use repo_backend_v.Convert.Model.{
  Row, Status, pending, in_progress, failed, Scope, Store, claim_one, first_pending, has_id,
}
use repo_backend_v.Convert.Rows.{IsBounded}
use repo_backend_v.Convert.Worker.{
  Config, missing, ok, answered, Moment, Awaited, Worker, tick_once, ticks, starts, crashes, run,
  Outcome,
}
use repo_backend_v.Convert.Attempts.{IsFit, run-IsFit}
use repo_backend_v.Convert.Awaiting.{IsTidy, tick_once-IsTidy}
use repo_backend_v.Convert.Stranded.{IsBusy, IsStranded, ticks_of, tick_once-IsStranded}

jpeg_converts : eligible_mime (some " image/JPEG ") ≡ true
unfolding eligible_mime
jpeg_converts = refl

png_does_not : eligible_mime (some "image/png") ≡ false
unfolding eligible_mime
png_does_not = refl

abbrev page : String → String → Part
page file mime = record { object = some file; type = some mime; mime_type = none }

abbrev book : Object
book = record {
  id = 1;
  pid = some "codu:1";
  sip_uuid = some "u1";
  file_name = some "a.tif";
  mime_type = some "image/tiff";
  is_member_of_collection = some "codu:root";
  compound_parts = array (
      page "a.tif" "image/tiff"
      ∷ page "b.mp4" "video/mp4"
      ∷ page "c.tif" ""
      ∷ page "a.tif" "image/tiff"
      ∷ []);
  display_record = absent;
}

book_files : map (λ e. e.file_name) (expand_row book) ≡ "a.tif" ∷ "c.tif" ∷ []
unfolding expand_row eligible_mime contains
book_files = refl

expand_row-once_example :
    entries_of "c.tif" (expand_row book) ≡ (if converts book "c.tif" then 1 else 0)
expand_row-once_example = expand_row-once book "c.tif"

abbrev row : ℕ → Status → ℕ → Row
row id st attempts = record {
  id = id;
  batch_id = 1;
  pid = none;
  sip_uuid = none;
  collection = none;
  file_name = "f.tif";
  object_name = "f.tif";
  mime_type = none;
  status = st;
  attempts = attempts;
  http_status = none;
}

abbrev waiting_rows : List Row
waiting_rows = row 1 in_progress 0 ∷ row 2 pending 1 ∷ row 3 pending 0 ∷ row 4 failed 3 ∷ []

claims_fresh_work : (claim_one waiting_rows).0 ≡ some (row 3 pending 0)
unfolding claim_one
claims_fresh_work = refl

abbrev config : Config
config = record {
  max_attempts = 3;
  verify_max_checks = 3;
  verify_enabled = true;
  delay_ms = 20000;
  idle_poll_ms = 5000;
}

abbrev moment : Option Outcome → Moment
moment verdict = record {
  configured = true;
  verdict = verdict;
  verify_write = true;
  stops_in_verify = false;
  claims = true;
  posted = answered 202;
  stops_in_post = false;
  post_write = true;
  catch_write = true;
}

abbrev awaited : Awaited
awaited = record { row = row 1 pending 0; ack_status = 202; checks = 0 }

abbrev worker : Worker
worker = record { queue = waiting_rows; awaiting = some awaited; running = true; stopping = false }

abbrev fresh_worker : Worker
fresh_worker = record { queue = waiting_rows; awaiting = none; running = false; stopping = false }

worker-IsTidy : IsTidy worker
worker-IsTidy = ((λ e. refl), ((λ e. cc e), ((λ e. cc e), ((λ e. cc e), tt))))

waiting-IsBounded : IsBounded 3 waiting_rows
waiting-IsBounded = record {
  ids = (
    ((refl, refl), ((refl, refl), ((refl, refl), tt))),
    (((refl, refl), ((refl, refl), tt)), (((refl, refl), tt), (tt, tt))),
  );
  attempts = (
    ((omega arith), (λ e. omega arith), (λ e. cc e)),
    (
      ((omega arith), (λ e. omega arith), (λ e. cc e)),
      (
        ((omega arith), (λ e. omega arith), (λ e. cc e)),
        (((omega arith), (λ e. cc e), (λ e. refl)), tt),
      ),
    ),
  );
}

run-IsFit_example :
    IsFit config
      (run config (starts true true true ∷ ticks (moment none) ∷ crashes ∷ []) fresh_worker)
run-IsFit_example =
    run-IsFit config (starts true true true ∷ ticks (moment none) ∷ crashes ∷ []) fresh_worker
      (waiting-IsBounded, inl refl)

tick_once-IsTidy_example : IsTidy (tick_once config (moment (some ok)) worker).worker
tick_once-IsTidy_example =
    tick_once-IsTidy config (moment (some ok)) worker refl refl refl worker-IsTidy

waiting-IsBusy : All (IsBusy 1) waiting_rows
waiting-IsBusy = ((λ e. refl), ((λ e. cc e), ((λ e. cc e), ((λ e. cc e), tt))))

tick_once-IsStranded_example :
    let held = filter (has_id awaited.row.id) waiting_rows in
    IsStranded awaited.row.id held (
      ticks_of awaited.row.id held config
        (moment (some ok) ∷ moment none ∷ [])
        (tick_once config (moment (some missing)) worker).worker)
tick_once-IsStranded_example =
    tick_once-IsStranded config (moment (some missing)) (moment (some ok) ∷ moment none ∷ [])
      waiting_rows awaited (row 3 pending 0) 202 waiting-IsBusy refl refl refl refl refl refl refl
      refl (unfold first_pending in refl)

abbrev empty_store : Store
empty_store = record { queue = waiting_rows; batches = []; next_id = 5; next_batch = 2 }

abbrev one_book : Scope
one_book = record { collection = none; sip_uuid = some "u1"; pid = none; limit = none }
