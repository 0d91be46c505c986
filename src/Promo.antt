-- ===== src/Promo.antt =====
-- packages/common_db/common_db/repo/promos.py: the catalogue of codes and their redemption.
pub mod Lookup
pub mod Redeem
pub mod Keeps
pub mod Once
pub mod Invariants
pub mod Codes
