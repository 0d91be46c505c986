-- ===== src/Promo/Lookup.antt =====
-- The lookups of packages/common_db/common_db/repo/promos.py, users.py and system.py that the
-- redemption of a code uses. Where the source takes the first row that a query gives, the model
-- takes the first in the order of insertion.
use text.Mathlib.Text.{◌==◌ as str_eq}
use xray_vpn_bot.Prelude.{
  ℤ, pos, neg_part, ltb_ℤ, eqb_ℤ, String, Bool, true, false, ◌&&◌, Option, none, some, List, [],
  ◌∷◌, ltb, ◌==◌, find, any, if◌then◌else◌, is_some,
}
use xray_vpn_bot.Exec.{Exec, Result, ok, err, no_more_draws}
use xray_vpn_bot.Db.{
  Db, User, Promo, PromoType, referral, promotional, PromoRedemption, PromoSettings,
}
use xray_vpn_bot.Db.Tables.{insert}
use xray_vpn_bot.Wallet.{find_user}

-- repo/users.py
abbrev pub has_tg : ℤ → User → Bool
has_tg tg u = elim u.tg_id [ none ↦ false | some t ↦ eqb_ℤ t tg ]

unfoldable pub get_user_by_tg_id : ℤ → Db → Option User
get_user_by_tg_id tg db = find (has_tg tg) db.users.rows

unfoldable pub user_has_any_transaction : ℤ → Db → Bool
user_has_any_transaction tg db =
    any (λ t. any (λ u. u.id == t.user_id && has_tg tg u) db.users.rows) db.transactions

-- repo/promos.py
unfoldable pub get_promo_by_tg_id : ℤ → Db → Option Promo
get_promo_by_tg_id tg db = find (λ p. eqb_ℤ p.tg_id tg) db.promos.rows

unfoldable pub get_promo_by_code : String → Db → Option Promo
get_promo_by_code code db =
    if str_eq code "" then none else find (λ p. str_eq p.promo_code code) db.promos.rows

-- The codes that the random generator will draw, in order; each is tried once.
unfoldable pub generate_unique_code : List String → Db → Result String
unfolding get_promo_by_code
generate_unique_code [] db = err no_more_draws
generate_unique_code (code ∷ draws) db =
    let retry = generate_unique_code draws db in
    if is_some (get_promo_by_code code db) then retry else ok code

abbrev pub add_referral_code : ℤ → String → Db → Db
add_referral_code tg code db = record db {
  promos =
      insert
        (λ id. record {
          id = id;
          tg_id = tg;
          promo_code = code;
          promo_type = referral;
          days_purchased = pos 0;
          points_rewarded = pos 0;
          credit_grant = none;
        })
        db.promos;
}

unfoldable pub get_or_create_referral_code : ℤ → List String → Exec Db String
unfolding get_promo_by_tg_id generate_unique_code
get_or_create_referral_code tg draws db = elim (get_promo_by_tg_id tg db) [
  | some promo ↦ (ok promo.promo_code, db)
  | none ↦ elim (generate_unique_code draws db) [
    | err e ↦ (err e, db)
    | ok code ↦ (ok code, add_referral_code tg code db)
  ]
]

abbrev pub redeemed : ℤ → String → PromoRedemption → Bool
redeemed tg code r = eqb_ℤ r.tg_id tg && str_eq r.promo_code code

unfoldable pub get_redemption_for_code : ℤ → String → Db → Option PromoRedemption
get_redemption_for_code tg code db = find (redeemed tg code) db.redemptions.rows

-- ORDER BY id DESC LIMIT 1 among the rows of a user
abbrev pub later_of : Option PromoRedemption → PromoRedemption → Option PromoRedemption
later_of none r = some r
later_of (some best) r = if ltb best.id r.id then some r else some best

abbrev pub latest_of : ℤ → Option PromoRedemption → List PromoRedemption → Option PromoRedemption
latest_of tg best [] = best
latest_of tg best (r ∷ rs) = latest_of tg (if eqb_ℤ r.tg_id tg then later_of best r else best) rs

unfoldable pub get_latest_redemption : ℤ → Db → Option PromoRedemption
get_latest_redemption tg db = latest_of tg none db.redemptions.rows

abbrev pub is_referral : PromoType → Bool
is_referral referral = true
is_referral promotional = false

abbrev pub by_referral : ℤ → PromoRedemption → Bool
by_referral tg r = eqb_ℤ r.tg_id tg && is_referral r.promo_type

unfoldable pub has_referral_redemption : ℤ → Db → Bool
has_referral_redemption tg db = any (by_referral tg) db.redemptions.rows

-- A real Telegram id, or a synthetic -user.id.
unfoldable pub resolve_user_for_redeem : ℤ → Db → Option User
unfolding get_user_by_tg_id
resolve_user_for_redeem tg db = elim (get_user_by_tg_id tg db) [
  | some u ↦ some u
  | none ↦ if ltb_ℤ tg (pos 0) then find_user (neg_part tg) db else none
]

-- repo/system.py: the settings row, created with its defaults on the first call
abbrev pub default_settings : PromoSettings
default_settings = record {
  default_credit_grant = pos 100;
  default_discount_percent = pos 20;
  points_reward_per_30 = pos 30;
  reward_cap_points = pos 1800;
}

abbrev pub settings_or_default : Option PromoSettings → PromoSettings
settings_or_default none = default_settings
settings_or_default (some s) = s

unfoldable pub get_promo_settings : Exec Db PromoSettings
get_promo_settings db =
    let s = settings_or_default db.settings in (ok s, record db { settings = some s })
