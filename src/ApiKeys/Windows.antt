-- ===== src/ApiKeys/Windows.antt =====
-- app/modules/api_keys/limit_windows.py.
pub mod Advance
use codex_lb_mod.Base.{if◌then◌else◌, leb, suc, zero, ℕ, ◌*◌, ◌+◌, ◌-◌}
use codex_lb_mod.ApiKeys.Types.{LimitWindow, daily, five_hours, monthly, seven_days, weekly}

abbrev hours : ℕ → ℕ
hours n = n * 3600000

abbrev days : ℕ → ℕ
days n = n * 86400000

unfoldable pub limit_window_delta : LimitWindow → ℕ
limit_window_delta five_hours = hours 5
limit_window_delta seven_days = days 7
limit_window_delta daily = days 1
limit_window_delta weekly = days 7
limit_window_delta monthly = days 30

unfoldable next_limit_reset : ℕ → LimitWindow → ℕ
next_limit_reset now five_hours = now + hours 5
next_limit_reset now seven_days = now + days 7
next_limit_reset now daily = now + days 1
next_limit_reset now weekly = now + days 7
next_limit_reset now monthly = now + days 30

-- `while next_reset <= now: next_reset += delta`. A round moves at least one millisecond, so the
-- fuel below is never used up.
unfoldable pub advance_loop : ℕ → ℕ → ℕ → ℕ → ℕ
advance_loop zero now delta next_reset = next_reset
advance_loop (suc fuel) now delta next_reset =
    let rest = advance_loop fuel now delta (next_reset + delta) in
    if leb next_reset now then rest else next_reset

unfoldable pub advance_limit_reset : ℕ → ℕ → LimitWindow → ℕ
unfolding advance_loop limit_window_delta
advance_limit_reset reset_at now window =
    advance_loop (suc now - reset_at) now (limit_window_delta window) reset_at
