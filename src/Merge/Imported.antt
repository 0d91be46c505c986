-- ===== src/Merge/Imported.antt =====
-- Who may import a subscription by `import_subscription_by_uuid` of merge.py.
use text.Mathlib.Text.{◌==◌ as str_eq}
use xray_vpn_bot.Prelude.{String, ◌≡◌, ◌≢◌, Option, none, some}
use xray_vpn_bot.Prelude.Strip.{strip}
use xray_vpn_bot.Db.{Db}
use xray_vpn_bot.Merge.Accounts.{RawUser}

-- The panel's profile has an email that is not blank, and it is the claimed one but for case and
-- outer spaces.
abbrev pub IsProven : (String → String) → String → Option RawUser → Type 0
IsProven lower claimed none = ⊥
IsProven lower claimed (some b) =
    (email : String) × (b.email ≡ some email)
    × (lower (strip email) ≢ "")
    × (lower (strip email) ≡ lower (strip claimed))
