-- ===== src/LoadBalancer/Accounts.antt =====
-- The rows that the load balancer reads, `Account` and `UsageHistory` of app/db/models.py by the
-- columns that it uses, and the two updates of a status of app/modules/accounts/repository.py.
-- A time that the database keeps in whole seconds is here a multiple of 1000 milliseconds.
use Prim.Native.String.{String}
use text.Mathlib.Text.{◌==◌ as str_eq}
use codex_lb_mod.Base.{
  Bool, Option, Table, false, if◌then◌else◌, none, put, some, true, ℕ, ◌&&◌, ◌==◌,
}
use codex_lb_mod.Balancer.State.{AccountStatus, same_status}

pub record Account : Type 0 where
  pub id : ℕ
  pub plan_type : String
  pub status : AccountStatus
  pub deactivation_reason : Option String
  pub reset_at : Option ℕ
  pub blocked_at : Option ℕ

pub record UsageHistory : Type 0 where
  pub recorded_at : Option ℕ
  pub used_percent : Option ℕ
  pub reset_at : Option ℕ
  pub window_minutes : Option ℕ

-- `a == b` for optional values.
abbrev pub same_time : Option ℕ → Option ℕ → Bool
same_time none none = true
same_time (some a) (some b) = a == b
same_time _ _ = false

abbrev pub same_reason : Option String → Option String → Bool
same_reason none none = true
same_reason (some a) (some b) = str_eq a b
same_reason _ _ = false

-- The four columns that an update writes and a compare-and-set compares.
pub record StatusColumns : Type 0 where
  pub new_status : AccountStatus
  pub new_reason : Option String
  pub new_reset_at : Option ℕ
  pub new_blocked_at : Option ℕ

abbrev pub columns_of : Account → StatusColumns
columns_of a = record {
  new_status = a.status;
  new_reason = a.deactivation_reason;
  new_reset_at = a.reset_at;
  new_blocked_at = a.blocked_at;
}

abbrev pub write_columns : StatusColumns → Account → Account
write_columns c a = record a {
  status = c.new_status;
  deactivation_reason = c.new_reason;
  reset_at = c.new_reset_at;
  blocked_at = c.new_blocked_at;
}

abbrev pub same_columns : StatusColumns → StatusColumns → Bool
same_columns c d =
    same_status c.new_status d.new_status
    && same_reason c.new_reason d.new_reason
    && same_time c.new_reset_at d.new_reset_at
    && same_time c.new_blocked_at d.new_blocked_at

-- The table afterwards, and whether a row was found.
unfoldable pub update_status : ℕ → StatusColumns → Table Account → Table Account × Bool
update_status id new t = elim (t id) [
  | none ↦ (t, false)
  | some row ↦ (put t id (write_columns new row), true)
]

-- The statement takes the row only where it still has the expected columns.
unfoldable pub update_status_if_current :
    ℕ → StatusColumns → StatusColumns → Table Account → Table Account × Bool
update_status_if_current id expected new t = elim (t id) [
  | none ↦ (t, false)
  | some row ↦
      if same_columns (columns_of row) expected
      then (put t id (write_columns new row), true)
      else (t, false)
]
