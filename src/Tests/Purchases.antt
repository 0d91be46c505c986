-- ===== src/Tests/Purchases.antt =====
-- Purchases from the balance.
use xray_vpn_bot.Prelude.{pos, ◌≤ℤ◌, ◌<ℤ◌, ◌≡◌, ◌⊎◌, refl, none, some, arith, codes}
use xray_vpn_bot.Exec.{ok}
use xray_vpn_bot.Purchase.{PurchaseRequest, purchase_with_credits, parse_squads}
use xray_vpn_bot.Purchase.Outcome.{IsPurchased, purchase_all_or_nothing}
use xray_vpn_bot.Purchase.Slug.{squad_slug, parse_squads-squad_slug}
use xray_vpn_bot.Tests.Samples.{two_users, alice}

abbrev request : PurchaseRequest
request = record {
  user_id = 1;
  username = "alice";
  points_cost = pos 80;
  days = pos 30;
  tariff_slug = codes "month";
  android_user_id = none;
  target_rw_id = none;
  purchase_source = "bot";
}

purchase_all_or_nothing_example :
    let (r, db') = purchase_with_credits request "tx1" "t" "t" two_users in
    ((pos 80 ≤ℤ pos 100) × IsPurchased request "tx1" "t" "t" two_users db' alice r)
    ⊎ ((pos 100 <ℤ pos 80) × (r ≡ ok none) × (db' ≡ two_users))
purchase_all_or_nothing_example =
    purchase_all_or_nothing request "tx1" "t" "t" two_users alice (omega arith) (omega arith) refl

abbrev for_no_days : PurchaseRequest
for_no_days = record request { days = pos 0 }

parse_squads-squad_slug_example :
    parse_squads (squad_slug (codes "ab") (codes "c:d")) ≡ (some (codes "ab"), some (codes "c:d"))
parse_squads-squad_slug_example =
    parse_squads-squad_slug (codes "ab") (codes "c:d") (omega arith, (omega arith, tt))
