-- ===== src/Billing.antt =====
-- pkg/billing: plans, subscriptions, plan changes and overage.
pub mod Plans
pub mod Subscriptions
pub mod PlanChange
pub mod Webhook
pub mod Overage
mod Examples
