-- ===== src/Tests/Subscriptions.antt =====
-- Two profiles of one account.
use xray_vpn_bot.Prelude.{◌≡◌, ◌⊎◌, refl, true, false, none, some, arith}
use xray_vpn_bot.Exec.{ok, err, value_error}
use xray_vpn_bot.Subscription.{AttachRequest, attach, set_primary, detach}
use xray_vpn_bot.Subscription.Links.{IsLinked, set_primary-IsLinked}
use xray_vpn_bot.Subscription.AttachOutcome.{attach_outcome, attached_row, foreign}
use xray_vpn_bot.Subscription.Owners.{owner_of, attach-owners}
use xray_vpn_bot.Subscription.Detach.{detach-IsLinked}
use xray_vpn_bot.Tests.Samples.{subscribed, bob}

pub subscribed-IsLinked : IsLinked subscribed
subscribed-IsLinked = record {
  ids_once = λ k. ground arith;
  ids_below = λ k b. ground arith;
  profiles_once = λ r. ground arith;
  owners = λ v e. ground arith;
  one_primary = λ v. ground arith;
  mirrored = λ v u e. ground arith;
}

set_primary-IsLinked_example : IsLinked (set_primary 1 2 "t" subscribed).1
set_primary-IsLinked_example = set_primary-IsLinked 1 2 "t" subscribed subscribed-IsLinked

detach-IsLinked_example : IsLinked (detach 1 2 subscribed).1
detach-IsLinked_example = detach-IsLinked 1 2 subscribed subscribed-IsLinked

-- The primary of several cannot go.
primary_stays : (detach 1 1 subscribed).0 ≡ err (value_error "primary_change_required")
unfolding detach
primary_stays = refl

abbrev request : AttachRequest
request = record {
  user_id = 2;
  rw_id = 90;
  source = "bot";
  product_key = none;
  label = none;
  make_primary = false;
}

attach_outcome_example :
    let (r, db') = attach request "t" subscribed in
    ((foreign request subscribed ≡ true)
      × (r ≡ err (value_error "subscription_already_linked"))
      × (db' ≡ subscribed))
    ⊎ ((foreign request subscribed ≡ false)
        × (r ≡ ok (attached_row request "t" subscribed))
        × IsLinked db')
attach_outcome_example = attach_outcome request "t" subscribed bob refl subscribed-IsLinked

attach-owners_example : owner_of 80 (attach request "t" subscribed).1 ≡ some 1
attach-owners_example = attach-owners request "t" subscribed 80 1 refl
