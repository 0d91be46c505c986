-- ===== src/Tests/Systems.antt =====
-- A purchase by Alice, a redemption by Bob, and the reward of Alice.
use xray_vpn_bot.Prelude.{pos, none, [], ◌∷◌, codes, refl}
use xray_vpn_bot.Db.{Db}
use xray_vpn_bot.Wallet.Audit.{IsAudited}
use xray_vpn_bot.Purchase.{PurchaseRequest, purchase_with_credits}
use xray_vpn_bot.Promo.Redeem.{redeem_promo}
use xray_vpn_bot.Referral.{record_purchase_and_compute_reward}
use xray_vpn_bot.System.{Reaches, done, more, purchases, redeems, rewards}
use xray_vpn_bot.System.Money.{Reaches-IsAudited}
use xray_vpn_bot.Tests.Promos.{env}
use xray_vpn_bot.Tests.Samples.{with_code}

abbrev request : PurchaseRequest
request = record {
  user_id = 1;
  username = "alice";
  points_cost = pos 80;
  days = pos 30;
  tariff_slug = codes "month";
  android_user_id = none;
  target_rw_id = none;
  purchase_source = "bot";
}

abbrev bought : Db
bought = (purchase_with_credits request "tx1" "t1" "t1" with_code).1

abbrev redeemed_later : Db
redeemed_later = (redeem_promo env (pos 502) "ALICE" ("CODE1234" ∷ []) "t2" bought).1

abbrev rewarded_last : Db
rewarded_last = (record_purchase_and_compute_reward env (pos 502) (pos 30) "t3" redeemed_later).1

path : Reaches with_code rewarded_last
path = more (purchases request "tx1" "t1" "t1") (
    more (redeems env (pos 502) "ALICE" ("CODE1234" ∷ []) "t2")
      (more (rewards env (pos 502) (pos 30) "t3") done))

Reaches-IsAudited_example : IsAudited 1 (pos 100) rewarded_last
Reaches-IsAudited_example =
    Reaches-IsAudited 1 (pos 100) with_code rewarded_last path
      (record { chained = tt; closes = refl })
