-- ===== src/Tests/Onboardings.antt =====
-- A registration from a subscription page.
use xray_vpn_bot.Prelude.{◌≡◌, refl, length, ◌==◌, false, some, [], ◌∷◌}
use xray_vpn_bot.Exec.{ok}
use xray_vpn_bot.Db.{Db}
use xray_vpn_bot.Onboarding.{finalize_email_verification, attach_initial, attached, new_pending}
use xray_vpn_bot.Subscription.{list_for_user}
use xray_vpn_bot.Subscription.Links.{IsLinked}
use xray_vpn_bot.Onboarding.Links.{
  finalize-IsLinked, attach_initial-IsLinked, attach_initial-nonempty,
}
use xray_vpn_bot.Tests.Samples.{subscribed}
use xray_vpn_bot.Tests.Subscriptions.{subscribed-IsLinked}

-- Bob waits for the profile 90.
abbrev waiting : Db
waiting = record subscribed { pending = new_pending 2 (some 90) 1000 ∷ [] }

waiting-IsLinked : IsLinked waiting
waiting-IsLinked = record {
  ids_once = subscribed-IsLinked.ids_once;
  ids_below = subscribed-IsLinked.ids_below;
  profiles_once = subscribed-IsLinked.profiles_once;
  owners = subscribed-IsLinked.owners;
  one_primary = subscribed-IsLinked.one_primary;
  mirrored = subscribed-IsLinked.mirrored;
}

-- In time, the profile becomes his.
verified_in_time : (finalize_email_verification 2 2000 "t" waiting).0 ≡ ok attached
unfolding finalize_email_verification
verified_in_time = refl

finalize-IsLinked_example : IsLinked (finalize_email_verification 2 2000 "t" waiting).1
finalize-IsLinked_example = finalize-IsLinked 2 2000 "t" waiting waiting-IsLinked

attach_initial-IsLinked_example : IsLinked (attach_initial 2 90 "t" waiting).1
attach_initial-IsLinked_example = attach_initial-IsLinked 2 90 "t" waiting waiting-IsLinked

not_empty : length (list_for_user 1 waiting) == 0 ≡ false
unfolding list_for_user
not_empty = refl

attach_initial-nonempty_example :
    let db' = (attach_initial 1 90 "t" waiting).1 in
    (db'.subscriptions ≡ waiting.subscriptions) × (db'.users ≡ waiting.users)
attach_initial-nonempty_example = attach_initial-nonempty 1 90 "t" waiting not_empty
