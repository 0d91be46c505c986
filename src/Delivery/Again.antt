-- ===== src/Delivery/Again.antt =====
-- Orders of delivery.py that are delivered again, and new orders that are delivered.
use xray_vpn_bot.Prelude.{
  ℕ, String, ◌≡◌, refl, Bool, true, false, ◌||◌, some, Text, inl, inr, Bool-cases, Option-cases,
}
use xray_vpn_bot.Exec.{Result, ok, err}
use xray_vpn_bot.Db.{User}
use xray_vpn_bot.Panel.{Profile}
use xray_vpn_bot.Wallet.{find_user}
use xray_vpn_bot.Subscription.{count_for_user}
use xray_vpn_bot.Delivery.Names.{provisioning_marker, delivery_marker}
use xray_vpn_bot.Delivery.World.{answered, Order, Squads, PanelCalls, Outside, World}
use xray_vpn_bot.Delivery.Link.{Action, subscription_owner, is_other, attach_subscription}
use xray_vpn_bot.Delivery.Allocate.{Job, has_marker}
use xray_vpn_bot.Delivery.Deliver.{
  username_of, action_of, apply_to, after_attach, deliver_profile, deliver_job,
  deliver_android_paid,
}
use xray_vpn_bot.Delivery.Intake.{squads_of, job_of}

-- The description of a profile has one of the markers of a transaction.
abbrev pub is_marked : String → Profile → Bool
is_marked tx p = has_marker (provisioning_marker tx) p || has_marker (delivery_marker tx) p

module _ {W : Type 0} (calls : PanelCalls W) (outside : Outside) where
  module _ (job : Job) (p : Profile) (marked : is_marked job.order.transaction_id p ≡ true) where
    apply_to-panel :
        (rw_id : ℕ) (action : Action) (name : Result Text) (w : World W)
        → (apply_to calls outside job false p rw_id action name w).1.panel ≡ w.panel
    apply_to-panel rw_id action (err e) w = refl
    apply_to-panel rw_id action (ok username) w = rw marked refl

    after_attach-panel :
        (rw_id : ℕ) (r : Result Action) (w : World W)
        → (after_attach calls outside job false p rw_id 0 r w).1.panel ≡ w.panel
    after_attach-panel rw_id (err e) w = refl
    after_attach-panel rw_id (ok action) w =
        apply_to-panel rw_id (action_of false action) (username_of outside job p 0) w

    deliver_profile-panel :
        (w : World W) → (deliver_profile calls outside job p false 0 w).1.panel ≡ w.panel
    unfolding deliver_profile
    deliver_profile-panel w = elim (Option-cases p.rw_id) [
      | inl missing ↦ rw (missing, deliver_profile) refl
      | inr (rw_id, named) ↦
          let order = job.order in
          let linked =
            attach_subscription order.user_id rw_id order.transaction_id order.purchase_source
              outside.now w.db in
          rw (named, deliver_profile)
            (after_attach-panel rw_id linked.0 (record w { db = linked.1 }))
    ]

  module _ (order : Order) (rw_id : ℕ) (p : Profile) (w : World W)
      (named : order.target_rw_id ≡ some rw_id)
      (read : calls.by_id rw_id w.panel ≡ (answered (some p), w.panel))
      (marked : is_marked order.transaction_id p ≡ true) where
    deliver_job-panel :
        (u : User) (n : ℕ) (squads : Squads)
        → (deliver_job calls outside (job_of order u n squads) w).1.panel ≡ w.panel
    unfolding deliver_job
    deliver_job-panel u n squads =
        elim (Bool-cases (is_other order.user_id (subscription_owner rw_id w.db))) [
          | inl conflict ↦ rw (named, conflict, deliver_job) refl
          | inr own ↦
              rw (named, own, read, deliver_job)
                (deliver_profile-panel (job_of order u n squads) p marked w)
        ]

    -- An order whose target, read in the panel, has a marker of its transaction in the
    -- description changes nothing in the panel when it is delivered again, if reading
    -- changes nothing.
    pub deliver_again : (deliver_android_paid calls outside order w).1.panel ≡ w.panel
    unfolding deliver_android_paid
    deliver_again = elim (Option-cases (find_user order.user_id w.db)) [
      | inl missing ↦ rw (missing, deliver_android_paid) refl
      | inr (u, known) ↦ elim (Option-cases (squads_of outside order)) [
        | inl bad ↦ rw (known, bad, deliver_android_paid) refl
        | inr (squads, good) ↦
            rw (known, good, deliver_android_paid)
              (deliver_job-panel u (count_for_user order.user_id w.db) squads)
      ]
    ]
