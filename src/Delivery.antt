-- ===== src/Delivery.antt =====
-- packages/subscription_delivery/subscription_delivery/delivery.py: a paid order becomes a profile of
-- the panel, or more days on one. The panel is a record of its operations over a state of its own.
pub mod Names
pub mod Bounds
pub mod World
pub mod Link
pub mod Allocate
pub mod Intake
pub mod Deliver
pub mod Keeps
pub mod Invariants
pub mod Attached
pub mod Links
pub mod Reports
pub mod Outcome
pub mod Safe
pub mod Again
pub mod Create
pub mod Ours
