-- ===== src/Lib.antt =====
-- A model of the backend of the open transport data portal: organisations submit static feeds (GTFS,
-- NeTEx) and realtime feeds (GTFS-RT, SIRI, GBFS), the server validates them, reviewers publish them,
-- and the server fetches and serves the feeds whose original is hidden.
--
-- The parts, and the files that model them:
--
-- Roles (Roles/): OtwarteDaneTransportow/auth_roles.py. Users' groups, and the permission classes; a
-- user is loaded from the database or holds the remembered set of role names.
-- Accounts (Accounts/): accounts/services.py, accounts/api/views.py and accounts/api/serializers.py.
-- The guard that keeps an active administrator, for an update and for a deletion.
-- History (History/): the history models of data_manager/models.py. A table is the rows of one
-- submission, `create` is `objects.create`, and `current_stage`, `is_rejected`, `rejection_cause` and
-- `published_at` are the properties of the same names, over prefetched rows or a query.
-- History/Trail is the invariant that the writers of a history keep.
-- Review (Review/): data_manager/api/views.py. `validate_stage_value` with Python's `int` and `strip`,
-- `apply_stage_transition`, and the update of a static submission (`update_with_history`) in the order
-- of the handler; `Outcome` is the answer of a handler.
-- GTFS validation (Gtfs/): `validate_gtfs_feed_task` of data_manager/tasks.py from the parsed report on:
-- the counts, the text of a rejection and the two verdicts. The number of a rejection is printed by
-- division, with as many rounds as the number plus one, which is more than its digits.
-- Workflow (Workflow/): the steps of a static submission's life as a relation: the handler of Review,
-- the verdicts of Gtfs and the action of data_manager/admin.py (Workflow/Advance). A step is atomic,
-- which the update handler of the source is not; Workflow/Overlap takes it with an older history.
-- Requests on static submissions (Write/): `FeedSubmissionWriteSerializer` of
-- data_manager/api/serializers.py, with `StaticFeedEntry.clean` of data_manager/models.py and the
-- signals of data_manager/signals.py. Write/Contract puts the serializer into the handler of Review.
-- Fetch control (Fetch/): `FetchControlMixin` of data_manager/models.py: the delays after a failure,
-- the pauses, and which fields a transition saves. A source is an object and its row, so that two
-- processes with objects of one row can be told apart.
-- Outbound requests (Net/): data_manager/net_security.py. Net/Urls has the checks of a URL and of the
-- addresses of its host, Net/Pinning the resolver during a request, Net/Download and Net/Redirects
-- the loop of `safe_download`. The loop runs over `max_redirects + 1` hops, as in the code.
-- Net/Certificates has `_ca_bundle_with_aia_intermediates`, whose downloads may nest; `depth` is
-- how many the recursion limit lets nest, and beyond it a chain is not completed, as the error is
-- caught.
-- Content (Content/): data_manager/validators.py, the checks of fetched bytes.
-- Scheduler (Scheduler/): data_manager/scheduler.py, one fetch of a feed, with the checks of Content,
-- the transitions of Fetch and `record_entity_types` of data_manager/models.py.
-- Realtime (Realtime/): `validate_realtime_submission_task` of data_manager/tasks.py with the codes of
-- data_manager/rejection_reasons.py; it uses the history, the content checks and the cache
-- fetch. Realtime/Rules has the `clean` methods of data_manager/models.py.
-- Realtime loops (Loops/): the self-scheduling task of a realtime endpoint with its marker and its lock
-- in the cache, and what seeds it (data_manager/tasks.py), with the pause and resume views
-- (data_manager/api/views.py). One endpoint is a `Loop`; workers, operators, edits and the clock are
-- steps in any order.
-- Dispatch (Dispatch/): `refresh_static_feeds_task` of data_manager/tasks.py, the jobs that a tick
-- queues, over the submissions of Review.
-- Completed (Completed/): the cached ids of published submissions (data_manager/models.py) and their
-- invalidation (data_manager/signals.py). Readers, transactions and signals of several processes are
-- steps in any order; times there are seconds, as the cache counts them.
-- Secrets (Secrets/): `EncryptedCharField` of data_manager/fields.py.
-- Address (Address/): `get_client_ip` of OtwarteDaneTransportowe/request_ip.py.
-- Planner (Planner/): `_count` and `PlannerRateThrottle` of planner/access.py. A counter is touched at
-- two times, as other processes may come between its two calls.
-- Planner builds (Builds/): planner/services.py, planner/pipeline.py and planner/tasks.py. Builds/Queue
-- and Builds/Watch have the tables of graph builds and OSM downloads, with the requests, the writes of
-- the workers and the watchdog, which Builds/Steps takes in any order. The other files follow one build:
-- its feeds (Candidates, Trials), its graph (Graphs), the server (Serving), the activation (Activation)
-- and the whole run (Pipeline). Its actions keep their writes when they raise. Docker, downloads, file
-- errors and the clock are parameters, which answer by the number of the call. The wait for the server
-- has 121 rounds, ten seconds apart, for its twenty minutes.
-- Requests on realtime submissions (Endpoints/): `RealtimeSubmissionWriteSerializer` of
-- data_manager/api/serializers.py, and the update handler of data_manager/api/views.py from the
-- serializer to the review. Endpoints/Merging has `to_internal_value`, which may keep a stored secret.
-- Common (Common/): Booleans, lists and texts over the native numbers.
--
-- Texts and bytes are lists of code points or bytes; times are numbers. All loops are structural over
-- a list or over the number of hops, so every function is total.
--
-- Not modelled: the checks that the framework makes of a single field, which decide what reaches
-- the serializer; the deletion of history rows in the admin site; the download and the
-- validator's container of the GTFS task; e-mail and passwords; the seeding of several endpoints
-- at once; the schedule of graph builds, the search index, the configuration files of
-- OpenTripPlanner and the rest of the trip planner, the blog, the cases and the settings. The
-- standard library, `requests`, `cryptography`, Fernet, protobuf and JSON are parameters. `int` reads the decimal
-- digits of ASCII only. The clock of the history rows does not go back.
pub mod Common
pub mod Fetch
pub mod History
pub mod Roles
pub mod Accounts
pub mod Review
pub mod Gtfs
pub mod Workflow
pub mod Net
pub mod Content
pub mod Scheduler
pub mod Realtime
pub mod Completed
pub mod Address
pub mod Builds
pub mod Dispatch
pub mod Endpoints
pub mod Loops
pub mod Planner
pub mod Secrets
pub mod Write
