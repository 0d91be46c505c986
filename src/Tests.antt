-- ===== src/Tests.antt =====
-- Runs of the model on small concrete databases, and each theorem applied to one of them.
pub mod Samples
pub mod WalletRuns
pub mod Purchases
pub mod Promos
pub mod Subscriptions
pub mod Onboardings
pub mod Giveaways
pub mod Draws
pub mod Systems
pub mod Merges
pub mod Deliveries
