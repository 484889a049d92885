-- ===== src/Bulkhead.antt =====
-- The admission of a request: `BulkheadSemaphore` and `BulkheadMiddleware` of
-- app/core/resilience/bulkhead.py, with `is_proxy_path` of app/core/resilience/overload.py. A lane's
-- semaphore is its number of free places, none where the lane has no limit; nobody waits on one, since
-- a request at a locked lane is turned away. Memory pressure is an argument.
pub mod Capacity
mod Tests
use Prim.Native.String.{String, len, slice}
use text.Mathlib.Text.{starts_with, ◌==◌ as str_eq}
use codex_lb_mod.Base.{
  Bool, Option, if◌then◌else◌, leb, ltb, min, none, not, or_default, some, ℕ, ◌&&◌, ◌+◌, ◌-◌, ◌==◌,
  ◌||◌,
}

pub data Lane : Type 0 where
  proxy_http proxy_websocket proxy_compact dashboard : Lane

pub record Bulkhead : Type 0 where
  pub http_places : Option ℕ
  pub websocket_places : Option ℕ
  pub compact_places : Option ℕ
  pub dashboard_places : Option ℕ
  pub background_places : Option ℕ

abbrev semaphore : ℕ → Option ℕ
semaphore limit = if ltb 0 limit then some limit else none

-- `BulkheadSemaphore.__init__`
unfoldable new_bulkhead : Option ℕ → ℕ → ℕ → Option ℕ → Option ℕ → Option ℕ → Bulkhead
new_bulkhead proxy_limit dashboard_limit background_limit http_limit websocket_limit compact_limit =
    let proxy = or_default proxy_limit 200 in
    let http = or_default http_limit proxy in
    record {
      http_places = semaphore http;
      websocket_places = semaphore (or_default websocket_limit proxy);
      compact_places = semaphore (or_default compact_limit (if http == 0 then 0 else min http 16));
      dashboard_places = semaphore dashboard_limit;
      background_places = semaphore background_limit;
    }

-- `s.endswith(t)`
abbrev ends_with : String → String → Bool
ends_with s t = leb (len t) (len s) && str_eq (slice s (len s - len t) (len s)) t

abbrev is_proxy_path : String → Bool
is_proxy_path path = starts_with path "/v1/" || starts_with path "/backend-api/"

abbrev is_compact_path : String → Bool
is_compact_path path = ends_with path "/responses/compact"

-- `get_semaphore`, the lane of a scope and a path.
unfoldable pub lane_of : String → String → Lane
lane_of scope_type path =
    if str_eq scope_type "websocket" && is_proxy_path path
    then Lane.proxy_websocket
    else if str_eq scope_type "http" && is_compact_path path
    then Lane.proxy_compact
    else if str_eq scope_type "http" && is_proxy_path path
    then Lane.proxy_http
    else Lane.dashboard

abbrev pub places : Lane → Bulkhead → Option ℕ
places Lane.proxy_http b = b.http_places
places Lane.proxy_websocket b = b.websocket_places
places Lane.proxy_compact b = b.compact_places
places Lane.dashboard b = b.dashboard_places

abbrev pub set_places : Lane → Option ℕ → Bulkhead → Bulkhead
set_places Lane.proxy_http p b = record b { http_places = p }
set_places Lane.proxy_websocket p b = record b { websocket_places = p }
set_places Lane.proxy_compact p b = record b { compact_places = p }
set_places Lane.dashboard p b = record b { dashboard_places = p }

-- What the middleware does with a request: pass it on, on a place of a lane or without one, or turn
-- it away with 503 or 429.
pub data Decision : Type 0 where
  passes memory_pressure : Decision
  admitted overloaded : Lane → Decision

-- The test of `sem.locked()`, then `sem.acquire()`.
unfoldable pub take_place : Lane → Bulkhead → Bulkhead × Decision
take_place lane b = elim (places lane b) [
  | none ↦ (b, passes)
  | some free ↦
      if free == 0
      then (b, overloaded lane)
      else (set_places lane (some (free - 1)) b, admitted lane)
]

-- `BulkheadMiddleware.__call__` up to the call of the app.
unfoldable pub enter : Bool → String → String → Bulkhead → Bulkhead × Decision
unfolding lane_of
enter pressure scope_type path b =
    let taken = take_place (lane_of scope_type path) b in
    if not (str_eq scope_type "http" || str_eq scope_type "websocket")
    then (b, passes)
    else if starts_with path "/health"
    then (b, passes)
    else if pressure
    then (b, memory_pressure)
    else taken

-- The `finally` behind the call of the app.
unfoldable pub leave : Lane → Bulkhead → Bulkhead
leave lane b = elim (places lane b) [ none ↦ b | some free ↦ set_places lane (some (free + 1)) b ]
