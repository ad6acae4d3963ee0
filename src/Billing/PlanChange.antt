-- ===== src/Billing/PlanChange.antt =====
-- pkg/billing/plan_change.go: upgrades and downgrades. The subscription store is that of
-- Subscriptions. A `Services` gives what lies outside: Stripe, the clock, the database's faults,
-- fresh ids, `time.AddDate`, and the float64 product that scales a price difference.
pub mod Types
pub mod Handlers
pub mod Service
pub mod Safety
pub mod Effects
pub mod Proration
