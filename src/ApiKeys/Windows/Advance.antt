-- ===== src/ApiKeys/Windows/Advance.antt =====
-- Where the loop of `advance_limit_reset` ends (app/modules/api_keys/limit_windows.py).
use codex_lb_mod.Base.{
  Bool-cases, arith, inl, inr, leb, refl, suc, zero, ℕ, ◌*◌, ◌+◌, ◌-◌, ◌<◌, ◌≡◌, ◌≤◌, ◌⊎◌,
}
use codex_lb_mod.ApiKeys.Types.{LimitWindow, daily, five_hours, monthly, seven_days, weekly}
use codex_lb_mod.ApiKeys.Windows.{advance_limit_reset, advance_loop, limit_window_delta}

-- A reset after `now` that is a whole number of windows after an earlier one, and the first such:
-- it is the earlier one, or at most one window after `now`.
pub record IsNextReset (reset_at now delta r : ℕ) : Type 0 where
  pub steps : ℕ
  pub aligned : r ≡ reset_at + steps * delta
  pub future : now < r
  pub first : (r ≡ reset_at) ⊎ (r ≤ now + delta)

advance_loop-IsNextReset :
    (fuel now delta next_reset : ℕ)
    → 0 < delta
    → suc now - next_reset ≤ fuel
    → IsNextReset next_reset now delta (advance_loop fuel now delta next_reset)
unfolding advance_loop
advance_loop-IsNextReset zero now delta next_reset p f = record {
  steps = 0;
  aligned = omega arith;
  future = omega arith;
  first = inl refl;
}
advance_loop-IsNextReset (suc fuel) now delta next_reset p f =
    elim (Bool-cases (leb next_reset now)) [
      | inl past ↦ rw past (
          let r = advance_loop-IsNextReset fuel now delta (next_reset + delta) p (ground arith) in
          record {
            steps = suc r.steps;
            aligned = omega (arith, r.aligned);
            future = r.future;
            first = inr (elim r.first [ inl e ↦ ground arith | inr h ↦ h ]);
          })
      | inr ahead ↦
          rw ahead
            (record { steps = 0; aligned = omega arith; future = ground arith; first = inl refl })
    ]

limit_window_delta-pos : (window : LimitWindow) → 0 < limit_window_delta window
unfolding limit_window_delta
limit_window_delta-pos five_hours = omega arith
limit_window_delta-pos seven_days = omega arith
limit_window_delta-pos daily = omega arith
limit_window_delta-pos weekly = omega arith
limit_window_delta-pos monthly = omega arith

-- For every window the loop ends, at the first reset after `now` that lies a whole number of windows
-- after the old one.
pub advance_limit_reset-IsNextReset :
    (reset_at now : ℕ) (window : LimitWindow)
    → IsNextReset reset_at now (limit_window_delta window) (advance_limit_reset reset_at now window)
unfolding advance_limit_reset
advance_limit_reset-IsNextReset reset_at now window =
    advance_loop-IsNextReset (suc now - reset_at) now (limit_window_delta window) reset_at
      (limit_window_delta-pos window) (omega arith)
