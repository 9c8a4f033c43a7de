-- ===== src/Reliability.antt =====
-- internal/reliability: the quotas of tenants, and the limit of concurrent calls.
pub mod Budget
pub mod Concurrency
