-- ===== src/Admission/Tests.antt =====
-- Work at a gate with one place.
use codex_lb_mod.Base.{List, [], none, some, ◌∷◌}
use codex_lb_mod.Admission.{Stage, WorkAdmissionController, gate}
use codex_lb_mod.Base.Places.{IsBalanced}
use codex_lb_mod.Admission.Leases.{
  Event, acquires, lease-IsBalanced, open_leases, releases, work_all,
}

abbrev small : WorkAdmissionController
small = record {
  token_refresh_gate = some 1;
  websocket_connect_gate = none;
  response_create_gate = some 2;
  compact_response_create_gate = some 1;
}

abbrev events : List Event
events = acquires Stage.token_refresh ∷ acquires Stage.token_refresh ∷ releases 0 ∷ releases 0 ∷ []

lease-IsBalanced_example :
    IsBalanced
      (some 1)
      (gate Stage.token_refresh
        (work_all events (record { controller = small; leases = [] })).controller)
      (open_leases Stage.token_refresh
        (work_all events (record { controller = small; leases = [] })).leases)
lease-IsBalanced_example = lease-IsBalanced Stage.token_refresh events small
