-- ===== src/Tests/Deliveries.antt =====
-- Bob buys a month, on a panel with room for one profile.
use xray_vpn_bot.Prelude.{
  ℕ, pos, ◌≤◌, ◌≡◌, refl, sym, ap, Option, none, some, [], ◌∷◌, All, Text, codes, text_eq,
  if◌then◌else◌, ◌==◌,
}
use xray_vpn_bot.Panel.{Profile}
use xray_vpn_bot.Subscription.Links.{IsLinked}
use xray_vpn_bot.Subscription.Owners.{owner_of}
use xray_vpn_bot.Delivery.Names.{build_remnawave_username, email_to_username, text_of}
use xray_vpn_bot.Delivery.Bounds.{IsWord, build_remnawave_username_lem}
use xray_vpn_bot.Delivery.World.{
  Answer, failed, answered, Order, Squads, PanelCalls, Outside, World,
}
use xray_vpn_bot.Delivery.Allocate.{new_profile, allocate}
use xray_vpn_bot.Delivery.Link.{link_profile}
use xray_vpn_bot.Delivery.Deliver.{deliver_android_paid}
use xray_vpn_bot.Delivery.Intake.{job_of}
use xray_vpn_bot.Delivery.Reports.{IsReported}
use xray_vpn_bot.Delivery.Safe.{deliver_reports, deliver-owners, deliver-IsLinked}
use xray_vpn_bot.Delivery.Again.{deliver_again}
use xray_vpn_bot.Delivery.Ours.{IsOurs, IsDescribing, allocate-IsOurs}
use xray_vpn_bot.Subscription.{attach}
use xray_vpn_bot.Delivery.Attached.{request, link_profile-attach}
use xray_vpn_bot.Tests.Samples.{subscribed, bob}
use xray_vpn_bot.Tests.Subscriptions.{subscribed-IsLinked}

abbrev entry : Text → Text → Profile
entry username description = record {
  rw_id = some 90;
  username = some username;
  status = some "active";
  data_limit = none;
  expire = some (pos 0);
  email = none;
  telegram_id = some (pos 502);
  description = some description;
  subscription_url = some "https://panel/90";
}

abbrev named : Text → Option Profile → Option Profile
named c none = none
named c (some p) = if text_eq (text_of p.username) c then some p else none

abbrev numbered : ℕ → Option Profile → Option Profile
numbered n s = if n == 90 then s else none

abbrev panel_calls : PanelCalls (Option Profile)
panel_calls = record {
  by_id = λ n s. (answered (numbered n s), s);
  by_username = λ c s. (answered (named c s), s);
  new_user = λ x s.
      (answered (some (entry x.username x.description)), some (entry x.username x.description));
  extend = λ x s.
      (answered (some (entry x.username x.description)), some (entry x.username x.description));
  update = λ x s.
      (answered (some (entry x.username x.description)), some (entry x.username x.description));
}

abbrev outside : Outside
outside = record {
  lower = λ s. s;
  resolve_slug = λ s. none;
  shown = λ s. "slug";
  days_until = λ t. pos 0;
  now = "t";
}

abbrev order : Option ℕ → Order
order target = record {
  transaction_id = "tx1";
  user_id = 2;
  email = none;
  days = pos 30;
  tariff_slug = some (codes "sid:a:esid:b");
  delivery_target = none;
  target_rw_id = target;
  tg_id = none;
  tg_username = none;
  purchase_source = "bot";
}

abbrev before : World (Option Profile)
before = record { db = subscribed; panel = none }

build_remnawave_username_lem_example : (3 ≤ 6) × (6 ≤ 36) × All IsWord (codes "user_2")
unfolding build_remnawave_username
build_remnawave_username_lem_example =
    build_remnawave_username_lem (λ s. s) none 2 0 (codes "user_2") refl

deliver_reports_example :
    IsReported
      (order none)
      (deliver_android_paid panel_calls outside (order none) before).0
      (deliver_android_paid panel_calls outside (order none) before).1.db
deliver_reports_example = deliver_reports panel_calls outside (order none) before

deliver-owners_example :
    owner_of 80 (deliver_android_paid panel_calls outside (order none) before).1.db ≡ some 1
deliver-owners_example = deliver-owners panel_calls outside (order none) before 80 1 refl

deliver-IsLinked_example :
    IsLinked (deliver_android_paid panel_calls outside (order none) before).1.db
deliver-IsLinked_example =
    deliver-IsLinked panel_calls outside (order none) before subscribed-IsLinked

-- The profile after an earlier delivery of the order.
abbrev again : World (Option Profile)
again = record {
  db = subscribed;
  panel = some (entry (codes "user_2") (codes "delivery:tx1; bot paid extend"));
}

deliver_again_example :
    (deliver_android_paid panel_calls outside (order (some 90)) again).1.panel
    ≡ some (entry (codes "user_2") (codes "delivery:tx1; bot paid extend"))
deliver_again_example =
    deliver_again panel_calls outside (order (some 90)) 90
      (entry (codes "user_2") (codes "delivery:tx1; bot paid extend")) again refl refl refl

abbrev squads : Squads
squads = record { internal_ids = codes "a" ∷ []; external_id = codes "b" }

abbrev bought : Profile
bought =
    entry (codes "user_2")
      (new_profile (job_of (order none) bob 0 squads) (codes "user_2")).description

email_name : email_to_username (codes "a.b@c.d") ≡ codes "a_b_at_c_d"
unfolding email_to_username
email_name = refl

abbrev some_of : Answer (Option Profile) → Option Profile
some_of (answered r) = r
some_of (failed e) = none

abbrev description_of : Option Profile → Option Text
description_of none = none
description_of (some p) = p.description

describing : IsDescribing panel_calls
describing x s r e = sym (ap (λ a. description_of (some_of a)) e)

allocate-IsOurs_example :
    IsOurs "tx1" (allocate panel_calls outside (job_of (order none) bob 0 squads) before).0
allocate-IsOurs_example =
    allocate-IsOurs panel_calls outside (job_of (order none) bob 0 squads) describing before

link_profile-attach_example :
    link_profile 2 90 "bot" "t" subscribed
    ≡ (attach (request 2 90 "bot" "t" subscribed) "t" subscribed).1
link_profile-attach_example = link_profile-attach 2 90 "bot" "t" subscribed bob refl refl
