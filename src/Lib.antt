-- ===== src/Lib.antt =====
-- codex-lb: a load balancer that serves one API from many upstream accounts. This library models
-- the parts of it that decide: which account serves a request, what a failure does to an account,
-- what an API key may still spend, who owns a bridged session, and which request is turned away.
--
-- The parts and their files:
--   Balancer      app/core/balancer/logic.py. State holds AccountState; Eligibility is the first
--                 loop of select_account, Ranking its sort keys, Select the rest of it. Failures
--                 has the handle_... functions and failover_decision, Health evaluate_health_tier.
--   Quota         apply_usage_quota of app/core/usage/quota.py: the status that the usage windows
--                 give.
--   ApiKeys       app/modules/api_keys: Types the rows, Windows limit_windows.py, Repository the
--                 statements of repository.py; Stale the release of stale reservations; Budget,
--                 Service, Retry and Recording the functions of service.py.
--   Bridge        app/modules/proxy/durable_bridge_repository.py: the leases and aliases of
--                 sessions. Writes has the calls that read and commit apart from one another,
--                 Fencing their runs.
--   Ring          app/modules/proxy/ring_membership.py: which instances share the bridge.
--   Leader        app/core/scheduling/leader_election.py.
--   RateLimiter   app/core/rate_limiter/db_rate_limiter.py.
--   Bulkhead      app/core/resilience/bulkhead.py with is_proxy_path of overload.py.
--   Admission     app/modules/proxy/work_admission.py.
--   Resilience    app/core/resilience/circuit_breaker.py and retry_budget.py.
--   LoadBalancer  app/modules/proxy/load_balancer.py with what it calls. Accounts has the rows and
--                 the two updates of a status, Plans the helpers of app/core/usage/__init__.py and
--                 plan_types.py, States _state_from_account, Runtime and Persist the
--                 synchronisation with memory and table, Marks the reports of failures, Cache
--                 account_cache.py, Inputs _load_selection_inputs, Budget and Sticky the two
--                 selections over select_account, Mappings sticky_repository.py, Loop and Keyed
--                 the attempts of LoadBalancer.select_account without and with a sticky key.
--   Base          what they share: tests, lists, membership, tables, signed numbers, places.
--
-- How they meet: a proxied request passes the Bulkhead, reserves on the limits of its key
-- (ApiKeys), and asks the LoadBalancer for an account, which makes states of rows with Quota,
-- calls the Balancer and writes what changed; Admission bounds the connections that it opens; the
-- answers of the upstream go through Failures, and the breaker and the retry budget of Resilience
-- bound what is tried again. Quota writes the statuses that Eligibility reads. At the end the
-- reservation is settled or released.
--
-- Conventions: an operation of the source is a function of the state that it changes and of the
-- clock, and gives the state afterwards with its result. Times and durations are whole
-- milliseconds since one origin and percentages whole percents, where the source has floats;
-- credits are counted in hundredths. Ids and keys are numbers, in the order of the strings that
-- they stand for. A call reads the clock once, unless a file says otherwise. A database table is a
-- function from its key, or a list of rows; a statement is one step but where a file splits it,
-- and a transaction that fails leaves the table as it was.
--
-- Parameters: JSON, the digest and the stripping of a URL (Ring.RingHost), the draw of
-- random.choices and the normalisation of plan names (Ranking.Host), the regular expression of
-- parse_retry_after and the jitter (Failures.Draw), the cost of a request, which the source
-- computes with floats (Budget.CostFunction), what the database does with each attempt (Retry),
-- and whether the database of the leader answers.
--
-- Fuel: advance_limit_reset runs its loop on a fuel of as many steps as there are milliseconds
-- from the old reset to the clock; every window is longer than that step, so the loop ends before
-- the fuel does. The two loops of LoadBalancer.select_account recur on the number of attempts that
-- may still follow, which is three at the start, as _MAX_SELECTION_ATTEMPTS is four.
-- release_rounds has as fuel one more than the number of reservations, of which each round but the
-- last releases one. All other loops are structural.
--
-- Not modelled: HTTP and websocket streaming, the conversion of request documents, pricing,
-- logging and metrics, queries that only read, locks (an operation under a lock is one step), and
-- the degraded mode of the load balancer.
pub mod Base
pub mod Balancer
pub mod Resilience
pub mod ApiKeys
pub mod RateLimiter
pub mod Quota
pub mod Bridge
pub mod Leader
pub mod Bulkhead
pub mod Admission
pub mod LoadBalancer
pub mod Ring
