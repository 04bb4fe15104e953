-- ===== src/Lib.antt =====
-- A verification library for helpdesktool: a control plane that decides which remedies may run on the devices
-- of its tenants, and the agents that run them.
--
-- A request for a remedy (a skill) goes to the orchestrator, which asks the policy engine whether the skill
-- is allowed on the device and whether a person has to approve it. An action that is approved is run at once,
-- or queued as a job for the device's agent. The agent claims the job, which gives it a lease and a token,
-- gets a signed envelope, checks it, runs an executor, keeps a journal on disk, and reports the result with
-- the token. A worker takes back jobs whose lease ran out, another delivers events to webhooks. A user may
-- also ask in a chat for an operation on the own account of an application: that becomes a connector request,
-- which somebody else decides, and which a worker expires when nobody does. All that happens is written to an audit log whose events are chained by hashes.
--
-- Which file models which part:
-- - Models: helpdesktool/models.py, the enumerations, records and the checks of their constructors.
-- - Policy: helpdesktool/policy.py. `make_engine` is `PolicyEngine.__init__`, `evaluate` is its method.
-- - Audit: helpdesktool/audit.py, `append` and `verify_chain` of the log in memory.
-- - Orchestrator: helpdesktool/orchestrator.py, `submit`, `approve`, `deny` and `_run` as steps on a `Work`,
--   the orchestrator together with the record at hand, and the SQL store of helpdesktool/persistence.py.
--   A step keeps the changes it made before an exception, as the mutations of the source do.
-- - Signing: agent_common/signing.py, `verify_envelope` with its checks in their order.
-- - Journal: agent_common/journal.py, on a machine that loses power after a given number of effects. An
--   effect is a write of the file, a request to the control plane or a run of an executor. What the machine
--   did is a log that only the theorems read, and through which the environment may choose its answers.
-- - Agent: linux_agent/agent.py, `process_jobs` and all it calls, with the loop of `main` as `cycle` and
--   `life`. The agent of windows_agent has the same methods and another executor.
-- - Idempotency, Leases: `idempotency_lookup`, `remember`, `claim_job` and `report_job_result` of
--   helpdesktool/api.py, on the columns of the tables that they read and write.
-- - Reaper: helpdesktool/lease_reaper.py.
-- - RateLimit: `RateLimitMiddleware` of helpdesktool/hardening.py.
-- - Webhooks: the attempts and the retries of helpdesktool/webhook_worker.py.
-- - Classification: helpdesktool/security_classification.py.
-- - Executor: linux_agent/executor.py, the executors that restart a service and flush the DNS cache.
-- - Auth: helpdesktool/auth.py, the decisions on whom a request comes from (`require_user`, `require_roles`).
-- - Devices: the handlers of helpdesktool/api.py for devices and enrolment tokens, and `require_agent`. A
--   dependency that refuses is the argument of `depends`.
-- - Keys: `active_public_keys` of helpdesktool/job_signing.py, and `_merge_signing_keys` and
--   `ensure_signing_key` of linux_agent/agent.py, which pin what it hands out.
-- - Baseline: helpdesktool/baseline.py and the handlers that store and resolve entries.
-- - Connectors: helpdesktool/connectors/__init__.py, the step-up codes and `decide_connector_request` of
--   helpdesktool/api.py, and helpdesktool/connector_request_reaper.py. A connector is a record of methods over a
--   world, the state of the applications, which stays changed when a handler raises. Connectors/Mock is
--   helpdesktool/connectors/mock.py, Connectors/Decide the decision, Connectors/Expiry the reaper, and
--   Connectors/Requests the state machine that they implement.
-- - Conversation: helpdesktool/conversation.py and `send_chat_message`; Conversation/Turns has the branches of
--   `handle_message`.
-- - Skills: helpdesktool/skills.py, the check of parameters; Skills/Registry the manifests that
--   helpdesktool/api.py loads, each under its hash.
-- - Actions: `create_action` and `decide_action` of helpdesktool/api.py, which put Auth, Idempotency, Skills,
--   Policy and Orchestrator together.
-- - Incidents: `correlate_incident` and `resolve_recovered_incident` of helpdesktool/incidents.py;
--   Incidents/Correlation has what becomes of an observation.
-- - Prelude: shared names, the dictionary `Dict`, texts, and the monad `Exec` of state with exceptions.
--
-- Conventions. A Python exception is a constructor of an error type, an HTTPException one of `HttpError`, and
-- a handler that raises one changes nothing, since its transaction is not committed. Times are natural numbers
-- in the source's unit. A `dict` is an association list in insertion order. SHA-256, HMAC, Ed25519, str,
-- str.lower, fromisoformat, the clock and the commands of the operating system are arguments of the
-- definitions that use them; no theorem but the one on collisions and the one on signatures
-- assumes anything of them. A floating-point number is kept as its text, and 1.0 is not taken for the key 1.
--
-- Bounds. No definition needs fuel: loops are recursions on lists, and a life of an agent is as long as the
-- list of its cycles. The number of effects that a cycle is given stands for the time at which the power goes;
-- a cycle that is given enough of them ends by itself. A write of the journal fails in no other way.
--
-- Not modelled: the other handlers of helpdesktool/api.py (tickets, reports, knowledge, the
-- registration of skills and connectors, the chat providers), row-level security, the detection of incidents
-- in an inventory, the rules for confidence and knowledge, the channels,
-- reporting and metrics, the HTTP clients and the collectors of the agents, the Windows executor, the
-- migrations and the frontend. They are input and output, declarations for other libraries, or parts that
-- stand beside the path of an action and of a connector request.
pub mod Prelude
pub mod Models
pub mod Policy
pub mod Audit
pub mod Signing
pub mod Journal
pub mod Agent
pub mod Orchestrator
pub mod Idempotency
pub mod Leases
pub mod Reaper
pub mod RateLimit
pub mod Webhooks
pub mod Classification
pub mod Executor
pub mod Auth
pub mod Devices
pub mod Keys
pub mod Baseline
pub mod Connectors
pub mod Conversation
pub mod Skills
pub mod Actions
pub mod Incidents
