-- ===== src/Lib.antt =====
-- Voyagent: the agent runtime of a travel agency platform, and its settlement reconciliation.
--
-- A turn of a chat session enters `Orchestrator.run_turn`. Two gates may refuse it, the rate limiter
-- and the daily token budget. Then the agent loop streams answers of the model and dispatches its
-- tool calls through `invoke_tool`, which checks the input, the role and the approval, runs the
-- handler and writes the audit log. The orchestrator may hand the turn over to a domain agent, which
-- runs the same loop. Approvals that humans grant are kept in the session store. Paths are from the
-- repository's root, with R = services/agent_runtime/src/voyagent_agent_runtime:
--
--   RateLimiter   R/rate_limiter.py: the deques of InMemoryRateLimiter, `check`
--   CostTracker   R/cost_tracker.py: pricing, InMemoryCostTracker, `enforce_daily_budget`
--   Tools         R/tools.py: specs, contexts, `invoke_tool`; audit events are those of
--                 schemas/canonical/lifecycle.py
--   AgentLoop     R/_agent_loop.py: `run_agent_turn`, on the events of R/events.py
--   Orchestrator  R/orchestrator.py: `run_turn`; R/domain_agents/accounting.py: `run`
--   SessionStore  R/session.py: the approvals of InMemorySessionStore
--   Auth          services/api/src/voyagent_api/auth_inhouse and services/api/src/voyagent_api/
--                 revocation.py: AuthService, its repositories, tokens and the second factor
--   Enquiries     services/api/src/voyagent_api/enquiries.py: the endpoints, on the tables of
--                 schemas/storage/enquiry.py
--   Runner        services/browser_runner/src/voyagent_browser_runner: job.py, the queue in memory
--                 (queue.py), the worker (worker.py) and the client (client.py)
--   Caches        R/offer_cache.py: InMemoryOfferCache; R/tool_cache.py: ToolResultCache
--   Approvals     services/api/src/voyagent_api/approvals.py: list, get and resolve
--   Reports       services/api/src/voyagent_api/reports.py: the ageing of receivables and payables
--   Haf           drivers/bsp_india/haf_parser.py, drivers/bsp_india/airlines.py: the text of a HAF
--                 file to its records
--   Bsp           drivers/bsp_india/mapping.py: HAF files to reports, and their reconciliation against
--                 tickets, on drivers/bsp_india/haf_records.py and schemas/canonical/finance.py
--   Prelude       strings as code points, dicts in insertion order, integers, Boolean tests
--
-- State is passed on explicitly. What the code calls but does not define is a parameter: the world `W`
-- that handlers and the model's client act on, the JSON values `J`, the validators, the client, clocks
-- and ids (read off the world). A generator is the list of its events, each with the state at its
-- `yield`, so that a consumer that stops early leaves the state of the event it stops at.
--
-- Python's `deque`, `dict` and `list` are lists; seconds are natural numbers, delays milliseconds, and
-- `Decimal` amounts integers that count hundredths (dollars of the pricing: in 10^-8). The retry loop
-- of the stream runs on fuel 4, which its two schedules of waits, of length 2 and 1, never use up; the
-- rounds of a turn are counted down from MAX_TOOL_LOOPS. The gate's two attempts are a count as well.
--
-- Not modelled: locks of asyncio (each operation is one step), turns of a tenant that run at the
-- same time, amounts with more than two decimals, the validators of the canonical records (a report
-- is that of a file they accept), `_jsonable` and the prompt and offered tools of an agent
-- (parameters), logging, metrics, the Redis and Postgres variants of the stores, handlers of the
-- single tools, exceptions of the parameters where the code only logs or reports them, the chat and
-- audit endpoints, the other reports, the drivers beside bsp_india, and the bounds that FastAPI and
-- pydantic put on the fields of a request.
pub mod Prelude
pub mod RateLimiter
pub mod Tools
pub mod AgentLoop
pub mod Approvals
pub mod Auth
pub mod Caches
pub mod CostTracker
pub mod Enquiries
pub mod Orchestrator
pub mod Bsp
pub mod Haf
pub mod Reports
pub mod Runner
pub mod SessionStore
