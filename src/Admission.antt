-- ===== src/Admission.antt =====
-- `WorkAdmissionController` of app/modules/proxy/work_admission.py. A gate is its number of free places,
-- or none without a limit. An acquire counts where its wait ends: with a place, or at the timeout with
-- none. A lease knows its stage and whether it was released; leaving its `with` block and collecting it
-- do what `release` does.
pub mod Leases
mod Tests
use codex_lb_mod.Base.{Bool, Option, false, if◌then◌else◌, none, some, true, ℕ, ◌+◌, ◌-◌, ◌==◌}

pub data Stage : Type 0 where
  token_refresh websocket_connect response_create compact_response_create : Stage

pub record WorkAdmissionController : Type 0 where
  pub token_refresh_gate : Option ℕ
  pub websocket_connect_gate : Option ℕ
  pub response_create_gate : Option ℕ
  pub compact_response_create_gate : Option ℕ

abbrev make_gate : ℕ → Option ℕ
make_gate limit = if limit == 0 then none else some limit

unfoldable pub new_controller : ℕ → ℕ → ℕ → ℕ → WorkAdmissionController
new_controller refresh connect create compact = record {
  token_refresh_gate = make_gate refresh;
  websocket_connect_gate = make_gate connect;
  response_create_gate = make_gate create;
  compact_response_create_gate = make_gate compact;
}

abbrev pub gate : Stage → WorkAdmissionController → Option ℕ
gate Stage.token_refresh c = c.token_refresh_gate
gate Stage.websocket_connect c = c.websocket_connect_gate
gate Stage.response_create c = c.response_create_gate
gate Stage.compact_response_create c = c.compact_response_create_gate

abbrev pub set_gate : Stage → Option ℕ → WorkAdmissionController → WorkAdmissionController
set_gate Stage.token_refresh g c = record c { token_refresh_gate = g }
set_gate Stage.websocket_connect g c = record c { websocket_connect_gate = g }
set_gate Stage.response_create g c = record c { response_create_gate = g }
set_gate Stage.compact_response_create g c = record c { compact_response_create_gate = g }

-- The stage of the lease's semaphore, where it has one.
pub record AdmissionLease : Type 0 where
  pub lease_semaphore : Option Stage
  pub is_released : Bool

-- `_acquire`; `none` is the 429 of the timeout.
unfoldable pub acquire :
    Stage → WorkAdmissionController → WorkAdmissionController × Option AdmissionLease
acquire stage c = elim (gate stage c) [
  | none ↦ (c, some (record { lease_semaphore = none; is_released = false }))
  | some free ↦ if free == 0 then (c, none) else (
    set_gate stage (some (free - 1)) c,
    some (record { lease_semaphore = some stage; is_released = false }),
  )
]

abbrev pub put_back : Stage → WorkAdmissionController → WorkAdmissionController
put_back stage c = elim (gate stage c) [ none ↦ c | some free ↦ set_gate stage (some (free + 1)) c ]

-- `AdmissionLease.release`
unfoldable pub release :
    AdmissionLease → WorkAdmissionController → WorkAdmissionController × AdmissionLease
release lease c = elim lease.lease_semaphore [
  | none ↦ (c, lease)
  | some stage ↦
      if lease.is_released
      then (c, lease)
      else (put_back stage c, record lease { is_released = true })
]
