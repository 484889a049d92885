-- ===== src/Balancer/State.antt =====
-- `AccountState` of app/core/balancer/logic.py with `AccountStatus` of app/db/models.py.
-- Times are whole milliseconds since the epoch, percentages whole percents, account ids numbers
-- in the order of the strings. A float of the source becomes the number of its unit.
use Prim.Native.String.{String}
use codex_lb_mod.Base.{Bool, Option, false, leb, ltb, none, some, true, ℕ, ◌&&◌, ◌*◌}

pub data AccountStatus : Type 0 where
  active rate_limited quota_exceeded paused deactivated : AccountStatus

pub record AccountState : Type 0 where
  pub account_id : ℕ
  pub status : AccountStatus
  pub used_percent : Option ℕ
  pub reset_at : Option ℕ
  pub blocked_at : Option ℕ
  pub cooldown_until : Option ℕ
  pub secondary_used_percent : Option ℕ
  pub secondary_reset_at : Option ℕ
  pub last_error_at : Option ℕ
  pub last_selected_at : Option ℕ
  pub error_count : ℕ
  pub deactivation_reason : Option String
  pub plan_type : Option String
  pub capacity_credits : Option ℕ
  pub health_tier : ℕ

abbrev pub seconds : ℕ → ℕ
seconds n = n * 1000

-- `state.status == AccountStatus.…`
abbrev pub same_status : AccountStatus → AccountStatus → Bool
same_status AccountStatus.active AccountStatus.active = true
same_status AccountStatus.rate_limited AccountStatus.rate_limited = true
same_status AccountStatus.quota_exceeded AccountStatus.quota_exceeded = true
same_status AccountStatus.paused AccountStatus.paused = true
same_status AccountStatus.deactivated AccountStatus.deactivated = true
same_status _ _ = false

-- `t and current >= t`, for an optional time.
abbrev pub due : ℕ → Option ℕ → Bool
due current none = false
due current (some t) = ltb 0 t && leb t current

-- `t and current < t`
abbrev pub ahead : ℕ → Option ℕ → Bool
ahead current none = false
ahead current (some t) = ltb 0 t && ltb current t
