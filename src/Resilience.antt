-- ===== src/Resilience.antt =====
-- app/core/resilience: the circuit breaker and the retry budget.
pub mod CircuitBreaker
pub mod RetryBudget
mod Tests
