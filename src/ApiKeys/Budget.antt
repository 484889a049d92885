-- ===== src/ApiKeys/Budget.antt =====
-- How much a request reserves, and how much its usage counts: app/modules/api_keys/service.py.
use Prim.Native.String.{String}
use text.Mathlib.Text.{◌==◌ as str_eq}
use codex_lb_mod.Base.{
  Option, if◌then◌else◌, leb, min, none, some, ℕ, ◌*◌, ◌+◌, ◌-◌, ◌/◌, ◌==◌, ◌||◌,
}
use codex_lb_mod.ApiKeys.Types.{ApiKeyLimit, LimitType}

-- `_calculate_cost_microdollars`, which prices tokens with floats (app/core/usage/pricing.py): the
-- model, the input, output and cached tokens, the service tier.
abbrev pub CostFunction : Type 0
CostFunction = String → ℕ → ℕ → ℕ → Option String → ℕ

pub record UsageBudget : Type 0 where
  pub budget_input : Option ℕ
  pub budget_output : Option ℕ

abbrev max_token_budget : ℕ
max_token_budget = 8192

abbrev default_input_tokens : ℕ
default_input_tokens = 8192

abbrev default_output_tokens : ℕ
default_output_tokens = 2048

unfoldable normalize_reservation_token_budget : Option ℕ → ℕ → ℕ
normalize_reservation_token_budget none default = default
normalize_reservation_token_budget (some value) default = min value max_token_budget

unfoldable pub normalize_request_usage_budget : Option UsageBudget → ℕ × ℕ
unfolding normalize_reservation_token_budget
normalize_request_usage_budget none = (default_input_tokens, default_output_tokens)
normalize_request_usage_budget (some b) = (
  normalize_reservation_token_budget b.budget_input default_input_tokens,
  normalize_reservation_token_budget b.budget_output default_output_tokens,
)

-- `ceil(2_000_000 * tokens / 16_384)`
unfoldable unknown_model_reserve_cost_budget : ℕ → ℕ → ℕ
unknown_model_reserve_cost_budget input output = (2000000 * (input + output) + 16383) / 16384

unfoldable reserve_cost_budget : CostFunction → Option String → Option String → ℕ → ℕ → ℕ
unfolding unknown_model_reserve_cost_budget
reserve_cost_budget cost none tier input output = unknown_model_reserve_cost_budget input output
reserve_cost_budget cost (some model) tier input output =
    let priced = cost model input output 0 tier in
    if str_eq model "" || priced == 0
    then unknown_model_reserve_cost_budget input output
    else priced

unfoldable reserve_budget_for_limit_type :
    CostFunction → LimitType → Option String → Option String → ℕ → ℕ → ℕ
unfolding reserve_cost_budget
reserve_budget_for_limit_type cost LimitType.total_tokens model tier input output = input + output
reserve_budget_for_limit_type cost LimitType.input_tokens model tier input output = input
reserve_budget_for_limit_type cost LimitType.output_tokens model tier input output = output
reserve_budget_for_limit_type cost LimitType.cost_usd model tier input output =
    reserve_cost_budget cost model tier input output
reserve_budget_for_limit_type cost LimitType.credits model tier input output = 0

unfoldable pub reserve_delta_for_limit :
    CostFunction → ApiKeyLimit → Option String → Option String → ℕ × ℕ → ℕ
unfolding reserve_budget_for_limit_type
reserve_delta_for_limit cost limit model tier (input, output) =
    if leb limit.max_value limit.current_value
    then 0
    else min (limit.max_value - limit.current_value)
        (reserve_budget_for_limit_type cost limit.limit_type model tier input output)

unfoldable pub compute_increment_for_limit_type : LimitType → ℕ → ℕ → ℕ → ℕ
compute_increment_for_limit_type LimitType.total_tokens input output cost = input + output
compute_increment_for_limit_type LimitType.input_tokens input output cost = input
compute_increment_for_limit_type LimitType.output_tokens input output cost = output
compute_increment_for_limit_type LimitType.cost_usd input output cost = cost
compute_increment_for_limit_type LimitType.credits input output cost = 0
