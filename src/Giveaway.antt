-- ===== src/Giveaway.antt =====
-- packages/common_db/common_db/repo/giveaways.py: raffles, their participants, tickets and winners.
pub mod Config
pub mod Tickets
pub mod Unique
pub mod Retry
pub mod Frame
pub mod Lifecycle
pub mod Life
pub mod Frozen
pub mod Normal
pub mod Winners
pub mod Draw
pub mod Chosen
pub mod DrawOnce
