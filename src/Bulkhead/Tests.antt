-- ===== src/Bulkhead/Tests.antt =====
-- Requests at a bulkhead with one place.
use codex_lb_mod.Base.{List, [], false, none, some, ◌∷◌}
use codex_lb_mod.Bulkhead.{Bulkhead, Lane, places}
use codex_lb_mod.Base.Places.{IsBalanced}
use codex_lb_mod.Bulkhead.Capacity.{Event, arrives, ends, lane-IsBalanced, running_in, serve_all}

abbrev narrow : Bulkhead
narrow = record {
  http_places = some 1;
  websocket_places = none;
  compact_places = some 1;
  dashboard_places = some 2;
  background_places = none;
}

abbrev events : List Event
events =
    arrives false "http" "/v1/responses"
    ∷ arrives false "http" "/v1/models"
    ∷ ends Lane.proxy_http
    ∷ []

lane-IsBalanced_example :
    IsBalanced
      (some 1)
      (places Lane.proxy_http (serve_all events (record { lanes = narrow; running = [] })).lanes)
      (running_in Lane.proxy_http
        (serve_all events (record { lanes = narrow; running = [] })).running)
lane-IsBalanced_example = lane-IsBalanced Lane.proxy_http events narrow
