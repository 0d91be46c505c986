-- ===== src/Referral.antt =====
-- packages/common_db/common_db/repo/referral_rewards.py: bonus points for the owner of a referral
-- code when an invitee pays.
pub mod Outcome
pub mod Total
use text.Mathlib.Text.{◌==◌ as str_eq}
use Prim.Native.String
use xray_vpn_bot.Prelude.{
  ℕ, ℤ, pos, ◌+ℤ◌, ◌-ℤ◌, ◌*ℤ◌, floor_div, min_ℤ, max_ℤ, ltb_ℤ, leb_ℤ, String, Bool, true, false,
  Option, none, some, ◌==◌, find, if◌then◌else◌,
}
use xray_vpn_bot.Exec.{Exec, Result, ok, err, pure, modify, ◌>>=◌, ◌>>◌}
use xray_vpn_bot.Db.{Db, User, Promo, PromoSettings, invitee_purchase}
use xray_vpn_bot.Db.Tables.{update}
use xray_vpn_bot.Wallet.{credit, source_promo}
use xray_vpn_bot.Giveaway.Tickets.{Env, try_grant_invitee_ticket}
use xray_vpn_bot.Promo.Lookup.{get_latest_redemption, get_user_by_tg_id, get_promo_settings}

pub record ReferralRewardInfo : Type 0 where
  pub owner_tg_id : ℤ
  pub owner_user_id : ℕ
  pub promo_code : String
  pub reward_points : ℤ
  pub days_purchased : ℤ
  pub points_rewarded_before : ℤ
  pub points_rewarded_after : ℤ

-- The points for a code with `total` days bought and `already` points given.
unfoldable pub reward_points : PromoSettings → ℤ → ℤ → ℤ
reward_points settings total already =
    let earned = floor_div total 30 *ℤ settings.points_reward_per_30 -ℤ already in
    max_ℤ (pos 0) (min_ℤ earned (settings.reward_cap_points -ℤ already))

-- promo.days_purchased += days
abbrev pub add_days : Promo → ℤ → Db → Db
add_days promo days db = record db {
  promos =
      update (λ p. p.id == promo.id)
        (λ p. record p { days_purchased = promo.days_purchased +ℤ days }) db.promos;
}

-- promo.points_rewarded = already_rewarded + reward_points
abbrev pub add_points : Promo → ℤ → Db → Db
add_points promo points db = record db {
  promos =
      update (λ p. p.id == promo.id)
        (λ p. record p { points_rewarded = promo.points_rewarded +ℤ points }) db.promos;
}

-- The reward of the owner, if there is one.
unfoldable pub pay_reward : Promo → User → ℤ → String → Exec Db (Unit {0})
unfolding credit
pay_reward promo owner points now =
    if ltb_ℤ (pos 0) points
    then (do
      modify (add_points promo points)
      credit owner.id points source_promo (some (String.◌++◌ "referral:" promo.promo_code)) now
      pure tt)
    else pure tt

abbrev pub reward_info : Promo → User → ℤ → ℤ → Option ReferralRewardInfo
reward_info promo owner total points =
    if leb_ℤ points (pos 0)
    then none
    else some (record {
      owner_tg_id = promo.tg_id;
      owner_user_id = owner.id;
      promo_code = promo.promo_code;
      reward_points = points;
      days_purchased = total;
      points_rewarded_before = promo.points_rewarded;
      points_rewarded_after = promo.points_rewarded +ℤ points;
    })

unfoldable pub purchase_ticket : Env → ℤ → Promo → Exec Db (Unit {0})
unfolding try_grant_invitee_ticket
purchase_ticket env buyer promo db =
    (ok tt, (try_grant_invitee_ticket env promo.tg_id buyer invitee_purchase db).1)

-- The part of the function after the settings are read.
abbrev pub settle :
    Env → ℤ → ℤ → String → Promo → User → PromoSettings → Exec Db (Option ReferralRewardInfo)
settle env buyer days now promo owner settings =
    let total = promo.days_purchased +ℤ days in
    let points = reward_points settings total promo.points_rewarded in
    do
      pay_reward promo owner points now
      purchase_ticket env buyer promo
      pure (reward_info promo owner total points)

unfoldable pub reward_owner :
    Env → ℤ → ℤ → String → Promo → User → Exec Db (Option ReferralRewardInfo)
unfolding get_promo_settings reward_points pay_reward purchase_ticket
reward_owner env buyer days now promo owner = do
  modify (add_days promo days)
  settings ← get_promo_settings
  settle env buyer days now promo owner settings

-- The code that the buyer redeemed last, and its owner.
unfoldable pub referral_of : ℤ → Db → Option (Promo × User)
unfolding get_latest_redemption get_user_by_tg_id
referral_of buyer db = elim (get_latest_redemption buyer db) [
  | none ↦ none
  | some redemption ↦ elim (find (λ p. str_eq p.promo_code redemption.promo_code) db.promos.rows) [
    | none ↦ none
    | some promo ↦ elim (get_user_by_tg_id promo.tg_id db) [
      | none ↦ none
      | some owner ↦ some (promo, owner)
    ]
  ]
]

unfoldable pub record_purchase_and_compute_reward :
    Env → ℤ → ℤ → String → Exec Db (Option ReferralRewardInfo)
unfolding referral_of reward_owner
record_purchase_and_compute_reward env buyer days now db = elim (referral_of buyer db) [
  | none ↦ (ok none, db)
  | some (promo, owner) ↦ reward_owner env buyer days now promo owner db
]
