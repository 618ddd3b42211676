-- ===== src/Lib.antt =====
-- BBD-OS: sources of knowledge, the ingestion of what collectors and crawls bring, and the documents
-- that come of it.
--
-- The API and the worker of the program share a PostgreSQL database. A collector sends batches of
-- records to the API, a crawl is requested, or a file is uploaded; each leaves a run with a stage and
-- an event in the outbox. The dispatcher turns due events into jobs of a queue, and the worker
-- processes a job in a few transactions. A source has a generation, which every change of its status
-- raises: an event carries the generation of its time, and the worker drops events of an older one. A
-- lease in the collection state of a source lets one collection run at a time.
--
-- Database and its children hold the rows (modules/sources/models.py, modules/ingestion/models.py,
-- modules/knowledge/documents/models.py) and the tables as lists of rows. An operation of the code is
-- a function from the database and its arguments to what it returns and commits; raising an error is
-- `err`, and nothing is committed then. A transaction is one step: the rows that it locks do not change
-- under it, and its readings of the clock are one number. Identifiers that the code draws are
-- arguments. Jobs of several transactions are sequences of such steps, and what other transactions do
-- between them is an argument or an arbitrary database.
--
-- Sources: modules/sources/public.py. create_source, update_source, archive_source and
--   start_source_purge have their names; Sources.Fence is about generations, Sources.Purge is the job
--   process_source_purge of modules/sources/worker.py.
-- Ingestion: modules/ingestion/public.py. receive_batch is in Ingestion itself; the children
--   Credentials, Crawl, Files and Retry have the other operations, and Accepted, Replay, Exclusive and
--   Records what they come to.
-- Dispatcher: modules/ingestion/dispatcher.py.
-- Worker: process_ingestion_event of apps/worker/main.py, as the claim of a stage (Worker), the work
--   (Worker.Collect), the transactions that end it (Worker.Ending) and all of it (Worker.Process).
-- Chunking: core/chunking.py, with the incremental UTF-8 decoder of Python.
-- Documents: modules/knowledge/documents/public.py. Documents.Versions has the operations that add a
--   version, Appending says what append_content answers, Numbers, History and Reachable how versions are
--   numbered, and Log is the abstract view of a document as a log of texts.
-- Uploading: process_uploaded_file of modules/ingestion/worker.py.
-- Auth: core/auth/dependencies.py, and create_owner, login, logout and _allow_attempt of
--   core/auth/routes.py. Auth.Setup is about the owner, Auth.Limits about attempts, Auth.Sessions about
--   logins and logouts, and Auth.Forged about forged requests; Auth.Renewal has auth_session.
-- Gateway: core/model_gateway/policy.py and client.py: ModelGateway._request (Gateway, Gateway.Sending),
--   ModelGateway.stream (Gateway.Streaming) and ModelGateway._slot (Gateway.Slots). A request has two
--   attempts, as in the code.
-- Search: modules/search/indexing.py. Search has the rows, Search.Embedding what is accepted as an
--   embedding, Search.Indexing the transactions that pick a chunk and conclude a generation, and
--   Search.Indexing.Job the embedding and the job of two rounds. Search.Indexing.Activation, Sending and
--   Single are about what becomes active, what leaves the program and how many generations there are.
-- Search.Querying: `search` of modules/search/public.py. Offsets has its cursors, Finding the candidates;
--   Visible, Accepted with Bounded and Cursor, and Fallback with Covered are about what is shown, the next page, and
--   failures of the model. The database is an argument for each of the queries, since others may change it between them.
-- Paging: core/pagination.py, and list_versions, list_documents and list_sources. Paging.Order and Walk are
--   about any list that is read page by page, Base64, Cursors and Stamps about the texts of cursors, and
--   Versions and Listings about the lists. A client that reads all pages has fuel for as many as there are
--   rows, since no page but the last is empty.
-- Prelude: shared tests, lists, results and tables. Tests: the operations at concrete values.
--
-- SHA-256, HMAC, argon2, the JSON encoding, tiktoken, the random numbers, the answers of the browser
-- service, and the file system are parameters. `Chunking.spans` runs on fuel: each chunk begins behind
-- the one before it, so the number of tokens is enough.
--
-- Not modelled: the purge of expired sessions, the probe of a model, the connectors, settings, storage
-- and parsers, which are components of their own, and the other routes, migrations and the web
-- application, which have no logic of this kind. `updated_at` columns are left out, since only
-- responses read them.
pub mod Prelude
pub mod Database
pub mod Sources
pub mod Ingestion
pub mod Chunking
pub mod Dispatcher
pub mod Worker
pub mod Documents
pub mod Uploading
pub mod Auth
pub mod Gateway
pub mod Search
pub mod Paging
mod Tests
