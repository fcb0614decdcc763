-- ===== src/Lib.antt =====
-- repo-backend-v2: the queue that carries a package from its folder to a repository record, the
-- worker that runs its stages, the queue that carries repository records to the search index, the
-- conversion of images, the refresh of metadata, the table of archival copies, and the permissions
-- of the dashboard's users.
--
-- Parts and files. Base holds list, option and number helpers; Base.Table is a database table as a
-- list of rows. Ingester.States models ingester/state_metadata.js: the table of severities, the
-- sets of states, and available_actions. Ingester.Queue models ingester/model.js: Store has the
-- rows, the event log and the monad of database calls; Update, Insert, Select, Cancel and Sweep
-- have its operations under the names of the source. Ingester.Worker models ingester/worker.js:
-- its in-memory state is the record Worker, the reads of a tick are Gates, a tick is tick_begin,
-- the reads of its later gates, one claim_round for each state and begin_all, with Turn for where
-- it stands between them, and dispatch_one is begin_dispatch before the call of a stage and
-- end_dispatch or halt_row after it.
--
-- Ingester.Controller models the staff actions of ingester/controller.js that cancel, reset or
-- retry a row, and the halt of a batch; Ingester.Polling is the loop of ingester/lib/polling.js.
-- Indexer.Model is indexer/model.js, whose queue is two flags of the objects table; Indexer.Worker
-- is one batch and one tick of indexer/worker.js, with the bulk call of libs/elasticsearch as a
-- parameter, and the backoff of its check of the index. Auth.Rbac is auth/rbac.js, with the user
-- table as a parameter, and Auth.Sso is auth/sso/replay_guard.js, with the LRU cache as a
-- parameter and what the guard relies on as the laws of the record Lru.
--
-- Convert models convert/: Mime and Expand say which files of an object are converted, Model is
-- the queue of convert/model.js, and Worker is one tick of convert/worker.js with start and stop;
-- a tick's input is what the service answers, which writes fail and when stop is called. Metadata
-- models metadata/: Model is the refresh queue, Batches the rows of a system-wide refresh,
-- Producer the tick that fills the queue from the objects table, and Worker the processing of one
-- claimed row. Metadata.Runs is the step relation over both tables. Repository.AipStore is
-- repository/aip_store_model.js.
--
-- Ingester.Stages models ingester/stages/: ProcessMetadata is process_metadata.js, Upload is
-- upload.js, Transfer is transfer.js, Ingest is ingest.js with its wait for the access copy in
-- DipCopy, and AipStore is aip_store.js, each with its function run. World is what they work on,
-- the queue with tbl_objects and tbl_aip_store, and the monad of a stage; Steps has halt and the
-- poll with a check that writes; Frame, Rules, Ends and Says are the rules that carry a property
-- of the steps to a whole stage. A call of Archivematica, ArchivesSpace or the curation service is
-- a parameter that gives its answer and the world at its end, so that other actors may write
-- meanwhile; where a theorem needs them to keep to their own rows, it says so.
--
-- How they interact. The refresh producer and the refresh worker share the batch's counters: the
-- producer raises the total and ends the enqueuing, the worker counts terminal rows and completes
-- the batch. The ingest worker reads its queue by list_queue and count_rows_in_states and writes
-- it only by update_queue and the sweeps; the severity and the suggested action of a write come
-- from the states' table. Ingester.Worker.Runs lets any call of the model happen between two steps
-- of the worker, and Ingester.Stages says which of them stages 1 to 4 and 6 make.
--
-- Choices. A database is two lists and a clock. A schedule of faults says which of the coming
-- transactions the database fails and with which message; a transaction either commits or leaves
-- no trace. State names are texts, as in the column. Loops run over finite lists and need no fuel,
-- except the poll: it runs on fuel, and Ingester.Polling.Ends says how much is enough.
-- list_uuids_in_backoff of the copy store is a parameter of the ingest worker, and
-- Repository.AipStore models it. In a stage a poll is the list of its turns and what ends it when
-- no turn gives a result. In the conversion and the refresh a write of the database that fails
-- throws and changes nothing; basename of Node's path and the base name of a legacy key are
-- parameters, and so is the text stored for an HTTP status. The handler cancel_row reads the row
-- twice, and what others write in between is a parameter. Identifiers that the code draws at
-- random are arguments, fresh where a step says so. In Ingester.Worker.Runs the reads and the
-- dispatch of a tick are steps of their own, between which the rest of the program runs, but no
-- other tick begins; in Metadata.Runs a tick is one step. Ticks that overlap on a slow database
-- are outside both, and Metadata.Runs leaves out cancel_batch, which staff use on their own
-- refreshes.
--
-- Not modelled: the HTTP layer around the handlers, timers, stage 5, the search index itself, the
-- rebuilt display record, the signature of single sign-on, and the other parts that PROJECT.json
-- lists with a reason.
pub mod Auth
pub mod Base
pub mod Convert
pub mod Indexer
pub mod Ingester
pub mod Metadata
pub mod Repository
