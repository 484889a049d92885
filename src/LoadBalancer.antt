-- ===== src/LoadBalancer.antt =====
-- app/modules/proxy/load_balancer.py with the repositories and the cache that it calls: accounts
-- as rows, what the process remembers of each, and the selection over both.
pub mod Accounts
pub mod Cache
pub mod Plans
pub mod States
pub mod Runtime
pub mod Persist
pub mod Inputs
pub mod Marks
pub mod Budget
pub mod Mappings
pub mod Sticky
pub mod Loop
pub mod Keyed
mod Tests
