-- ===== src/Merge.antt =====
-- packages/account_linking/account_linking/merge.py: two accounts become one, and a subscription is
-- imported by its short uuid.
pub mod Decide
pub mod Apply
pub mod Import
pub mod Accounts
pub mod Rows
pub mod Others
pub mod Users
pub mod Keeps
pub mod Primary
pub mod Links
pub mod Linked
pub mod Outcome
pub mod Imported
pub mod ImportKeeps
