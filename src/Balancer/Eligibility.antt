-- ===== src/Balancer/Eligibility.antt =====
-- The first loop of `select_account` (app/core/balancer/logic.py): an account recovers, is skipped,
-- is held back after errors, or is available. A visit changes the account's state in place.
pub mod Serving
pub mod Stable
use codex_lb_mod.Base.{
  Bool, List, false, if◌then◌else◌, leb, ltb, map, min, none, select, some, true, ℕ, ◌&&◌, ◌*◌, ◌+◌,
  ◌-◌, ◌^◌,
}
use codex_lb_mod.Balancer.State.{AccountState, AccountStatus, ahead, due, seconds}

pub data Verdict : Type 0 where
  skipped backing_off available : Verdict

-- The two tests on a blocked status, and on the two that never serve. `false` is `continue`.
unfoldable pub admit_status : ℕ → AccountState → AccountState × Bool
admit_status current s = elim s.status [
  | AccountStatus.active ↦ (s, true)
  | AccountStatus.rate_limited ↦
      if due current s.reset_at
      then (record s { status = AccountStatus.active; error_count = 0; reset_at = none }, true)
      else (s, false)
  | AccountStatus.quota_exceeded ↦
      if due current s.reset_at
      then (
        record s { status = AccountStatus.active; used_percent = some 0; reset_at = none },
        true,
      )
      else (s, false)
  | AccountStatus.paused ↦ (s, false)
  | AccountStatus.deactivated ↦ (s, false)
]

unfoldable pub clear_cooldown : ℕ → AccountState → AccountState
clear_cooldown current s =
    if due current s.cooldown_until
    then record s { cooldown_until = none; last_error_at = none; error_count = 0 }
    else s

-- `min(300, 30 * (2 ** (error_count - 3)))`, used for three errors and more.
unfoldable pub error_backoff : ℕ → ℕ
error_backoff errors = min (seconds 300) (seconds 30 * 2 ^ (errors - 3))

-- `last_error_at and current - last_error_at < backoff`
unfoldable pub within_backoff : ℕ → AccountState → Bool
within_backoff current s = elim s.last_error_at [
  | none ↦ false
  | some t ↦ ltb 0 t && ltb current (t + error_backoff s.error_count)
]

unfoldable pub hold_back : ℕ → AccountState → AccountState × Verdict
hold_back current s =
    if ahead current s.cooldown_until
    then (s, skipped)
    else if leb 3 s.error_count
    then if within_backoff current s
      then (s, backing_off)
      else (record s { error_count = 0; last_error_at = none }, available)
    else (s, available)

unfoldable pub visit : ℕ → AccountState → AccountState × Verdict
visit current s =
    let (s', admitted) = admit_status current s in
    if admitted then hold_back current (clear_cooldown current s') else (s', skipped)

abbrev pub is_available : Verdict → Bool
is_available available = true
is_available skipped = false
is_available backing_off = false

abbrev pub is_backing_off : Verdict → Bool
is_backing_off backing_off = true
is_backing_off skipped = false
is_backing_off available = false

-- The state of every account after the loop, and the two lists that it fills.
unfoldable pub visited : ℕ → List AccountState → List AccountState
visited current states = map (λ s. (visit current s).0) states

abbrev pub verdicts : ℕ → List AccountState → List (AccountState × Verdict)
verdicts current = map (visit current)

unfoldable pub available_of : ℕ → List AccountState → List AccountState
available_of current states =
    map (λ v. v.0) (select (λ v. is_available v.1) (verdicts current states))

unfoldable pub backing_off_of : ℕ → List AccountState → List AccountState
backing_off_of current states =
    map (λ v. v.0) (select (λ v. is_backing_off v.1) (verdicts current states))
