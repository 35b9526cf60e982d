-- ===== src/Lib.antt =====
-- Recordlane, a multidomain master data management service (backend/src/recordlane).
--
-- The service takes observations of business objects from several sources, finds the ones that are
-- about the same thing, keeps one entity for each, and publishes its master record. Its parts and
-- the files that model them:
--
--   Base, Json      names, tests, lists and dicts; the JSON values that the database columns hold
--   Jobs            jobs/worker.py: the durable job table, leases with fences, the run of one job.
--                   A job's database row is `DurableJob`; each transaction of claim_one, renew_lease,
--                   run_once and of cancel_job (api/routes.py) is a function on the table.
--   Policy          policy.py: what a compiled policy does. Normalize, Validate, Blocking and Compare
--                   are the methods of CompiledPolicy; Decision is about the result of compare. The
--                   standard library's text functions and floats are parameters.
--   Mastering       mastering/service.py over the rows of models/tables.py: Objects has source
--                   objects, their history and cannot-link decisions (_observation_is_current, the
--                   end of ingest's loop, _set_membership, _is_cannot_link, _current_records);
--                   Survivor is _master_values; Resolve is _resolve. The others are proofs:
--                   Membership and Ordering about Objects, Winner, Fields, Master and Raises about
--                   Survivor, Candidates, Linking and Highest about Resolve.
--   Ingest          ingest of mastering/service.py over the tables of Review, with its runs, meta rows
--                   and checkpoints: Runs has the checks before the loop, Payload what an
--                   observation's body reads, Observe the body of the loop and Page the method.
--                   Frame, Kept, Opened, Missing, Suited, Processed, Passed and Held are lemmas of
--                   Balance, Repeated and Withheld.
--   Review          the review decisions of mastering/service.py over one record of tables: Draft is
--                   _draft_master; Merge is _apply_merge, _apply_split and _link_match; Decide is
--                   decide_task; Propose is propose_merge and propose_split. Moved and Decided are
--                   proofs about Merge and Decide.
--   Config          the configuration versions of mastering/service.py: Drafts is
--                   _configuration_policies, create_config and revert_config, Snapshot is
--                   _snapshot_hash, Impact the exceptions of _simulate_policy, Approval is simulate,
--                   propose_config and the branch of decide_task that activates a configuration. Installed and Steps are lemmas of Live; Active and
--                   Machine are proofs about Approval and all of Config.
--   Publication     publication/service.py: relay_events sends the due outbox events, and commits a
--                   marker before each request (proofs in Relay); Reconcile is
--                   reconcile_events, which asks the consumer about the uncertain ones.
--   Http            what a handler returns: a value, or an HTTPException with its status and code.
--   Auth            auth/principal.py, auth/session.py and auth/scim.py over one record of tables.
--                   Permissions has Principal.allows and require; Sessions, Callback the session
--                   functions and routes; Credentials current_principal; Users, Groups and Directory
--                   the SCIM handlers. Commands makes one sequence of all that these do to the
--                   tables. The others are proofs: Revocation and Kept about revoked sessions,
--                   Admitted and Login about callback, Principals about the credentials,
--                   Deprovisioning and Members about users and groups, Paging about lists.
--
-- A database table is a list of its rows, for one workspace; a query is a function on the list,
-- and an update replaces rows. Identifiers and times are natural numbers. The hashes are parameters, and
-- in Auth the identity provider and the JWT library; nothing is assumed of them. Mastering
-- asks a policy for comparisons (compare) and block keys; what it approves is published as an
-- event; a job's handler is what runs mastering again, and is a parameter of Jobs. No definition
-- runs on fuel: loops are over lists.
--
-- Not modelled: compile_policy (a parameter of Config), the OverflowError of math.exp, the changes that a simulation lists, data
-- quality and matching by probability, which are programs of their own beside these. Nor are the
-- HTTP routes, the connectors to outside systems, the assistant, migrations, observability and the
-- web application, which pass data on or call other systems.
pub mod Base
pub mod Json
pub mod Policy
pub mod Mastering
pub mod Jobs
pub mod Publication
pub mod Http
pub mod Auth
pub mod Review
pub mod Ingest
pub mod Config
