-- ===== src/Balancer.antt =====
-- app/core/balancer: the state of an account, who may serve, who is chosen, what failures do.
pub mod State
pub mod Eligibility
pub mod Ranking
pub mod Select
pub mod Failures
pub mod Health
mod Tests
