-- ===== src/Delivery/Create.antt =====
-- A new order of delivery.py on a panel that answers.
use xray_vpn_bot.Prelude.{ℕ, ◌≡◌, true, none, some, Text}
use xray_vpn_bot.Exec.{ok}
use xray_vpn_bot.Panel.{Profile}
use xray_vpn_bot.Delivery.Names.{build_remnawave_username, provisioning_marker}
use xray_vpn_bot.Delivery.World.{answered, PanelCalls, Outside, World}
use xray_vpn_bot.Delivery.Link.{created_now, subscription_owner}
use xray_vpn_bot.Delivery.Allocate.{Delivered, Job, has_marker, new_profile}
use xray_vpn_bot.Delivery.Deliver.{username_of, paid_scenario}

module _ {W : Type 0} (calls : PanelCalls W) (outside : Outside) (job : Job) (w : World W) (v : W)
    (candidate : Text) (r : Profile) (rw_id : ℕ)
    (named : build_remnawave_username outside.lower job.tg_username job.order.user_id
        job.subscription_count
      ≡ ok candidate)
    (free : calls.by_username candidate w.panel ≡ (answered none, w.panel))
    (made : calls.new_user (new_profile job candidate) w.panel ≡ (answered (some r), v))
    (seen : calls.by_username candidate v ≡ (answered (some r), v))
    (marked : has_marker (provisioning_marker job.order.transaction_id) r ≡ true)
    (numbered : r.rw_id ≡ some rw_id) where
  module _ (username : Text) (fits : username_of outside job r job.subscription_count ≡ ok username)
      (unowned : subscription_owner rw_id w.db ≡ none) where
    abbrev created : Delivered
    created = record {
      scenario = paid_scenario r;
      subscription_url = r.subscription_url;
      rw_id = rw_id;
      username = username;
      action = created_now;
    }
