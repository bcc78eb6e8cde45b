-- ===== src/Lib.antt =====
-- A model of the One AI backend: the sync of a mailbox connection, the identity rules that guard it,
-- and who may read what it brings in. Paths are from the root of the repository.
--
-- Prelude holds the shared tests, lists and SQL tables; a table is a list of rows, and SELECT, UPDATE
-- and DELETE with a WHERE clause are find_where, update_where, count_where and delete_where. A UUID
-- and a time (whole seconds) are natural numbers. The database clock of a statement is an argument.
--
-- Connectors/Connection.antt: backend/app/connectors/models/connector_connection.py and
--   repositories/connector_connection_repository.py, one function per method. Fence is about one claim,
--   Trace about any sequence of claims, fenced writes and switches on a connection, Life about one run
--   from its claim to its end.
-- Connectors/Policy.antt, Board.antt, Service.antt and Me.antt: the tables of entitlements, policies,
--   overrides and consents of backend/app/connectors with their repositories and
--   services/connector_authz.py; the services connector_entitlement_service.py,
--   connector_consent_service.py and connector_governance_service.py; connector_service.py; and
--   me_connector_service.py. Board holds the tables that they share. Me/History runs any sequence of
--   their calls.
-- Sync/Planner.antt: backend/app/connectors/imap/sync/fetch_planner.py (batch_by_bytes,
--   highest_contiguous_uid).
-- Sync/Fetch.antt, Sync/Tracker.antt, Sync/Ingest.antt, Sync/Store.antt, Sync/Runner.antt:
--   backend/app/connectors/base/incremental_fetch.py, backend/app/connectors/sync/connector_sync_runner.py
--   and the repositories of cursors and runs. The runner takes the committed tables (Db) to the
--   committed tables; between two transactions the rest of the system acts (Arrival.meanwhile), the
--   heartbeat task included. The connector's stream is a list of arrivals that ends or raises. The
--   ingest of one message is the interface Ingest, which states what the runner relies on.
-- Sync/EmailIngest.antt: backend/app/connectors/imap/services/email_ingest_service.py with
--   repositories/email_repository.py; Flow is ingest_email, and Contract fills the interface Ingest with
--   it. Parsing, extraction and the resolver are arguments; a concurrent sync is a row that a SELECT
--   does not see and an INSERT runs into.
-- Sync/Fetcher.antt: backend/app/connectors/imap/sync/imap_fetcher.py over a session, the record of
--   what the protocol ImapFetchSession answers; Sync/UidSet.antt: the UID sets of
--   backend/app/connectors/imap/fetch_session.py (_compress_uid_ranges, _chunk_uid_set). Runner/Safety puts
--   the fetcher and the runner together.
-- Sync/Service.antt: backend/app/connectors/sync/sync_service.py, the start of a run.
-- Identity/RateLimit.antt, Denylist.antt, Tokens.antt, Support.antt and Users.antt:
--   backend/app/identity/security/rate_limit.py, security/token_denylist.py,
--   services/token_rotator.py with repositories/refresh_token_repository.py, the two services of
--   support access with their repository and read-model, and services/user_service.py with
--   repositories/user_repository.py.
-- Identity/Realm.antt, Login.antt, Session.antt, Platform.antt and Console.antt: the tables of
--   organizations and platform administrators with their repositories, services/auth_service.py over
--   services/token_issuer.py, services/platform_org_service.py, and services/platform_auth_service.py
--   (its onboarding stands in Platform, the rest in Console), all of backend/app/identity. Realm is the
--   state that they share. A raised error rolls the session back and so leaves the tables; the
--   throttle, the denylist and the events of a failed login, which has a session of its own, keep what
--   they have.
-- Identity/Hooks.antt and Erasure.antt: backend/app/common/erasure_hooks.py with the erasure
--   repositories of access, connectors and entities, registered as backend/app/main.py does, and
--   backend/app/identity/services/erasure_service.py. A tenant's row is its key and its organization.
-- Access/Normalize.antt and Access/Grants.antt: backend/app/entities/services/email_normalizer.py and
--   backend/app/access/services/grant_writer.py with its two repositories. A dict is an association
--   list whose first item of a key counts; the methods of texts are given.
-- Access/Email.antt, Promotion.antt and Projection.antt: the rows of
--   backend/app/connectors/imap/models/email.py, services/promotion_service.py with
--   repositories/content_visibility_repository.py, and services/email_projection.py of
--   backend/app/access. A refusal rolls the transaction back, so an error carries no tables.
-- Entities/Cache.antt: backend/app/entities/services/resolution_cache.py. Cache/Facts describes the
--   session on its own: the facts that the transaction has written, by the savepoint that holds
--   them, and the events that it reports to the cache.
-- Audit.antt: the events of backend/app/identity/services/audit_service.py.
-- Examples: the theorems on small concrete runs.
--
-- The services call the repositories on their session's tables, and each appends its audit event to
-- the same session. The claim of a run on a connection is what connects the runs: every write of a run
-- names its run id in its WHERE clause.
--
-- All loops are structural recursion on a list, save the digits of a number, whose fuel is the number
-- plus one while every round divides it by ten. Left out: the session that speaks IMAP, parsing and
-- extraction, routes and schemas, row-level security and triggers, the cascades of the database, the
-- resolver of people and companies.
pub mod Access
pub mod Audit
pub mod Connectors
pub mod Entities
pub mod Examples
pub mod Identity
pub mod Prelude
pub mod Result
pub mod Sync
