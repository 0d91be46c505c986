-- ===== src/Delivery/Invariants.antt =====
-- A property of the database that the writes of a delivery keep, through `deliver_android_paid` of
-- delivery.py.
use xray_vpn_bot.Prelude.{
  ℕ, String, ◌≡◌, Bool, false, Option, none, some, Text, inl, inr, Bool-cases, Option-cases,
}
use xray_vpn_bot.Exec.{Result, ok, err, bind_post}
use xray_vpn_bot.Db.{Db, User, Transaction}
use xray_vpn_bot.Wallet.{find_user}
use xray_vpn_bot.Panel.{Profile}
use xray_vpn_bot.Subscription.{count_for_user}
use xray_vpn_bot.Delivery.Names.{delivery_marker}
use xray_vpn_bot.Delivery.World.{Answer, answered, failed, Order, PanelCalls, Outside, World, ask}
use xray_vpn_bot.Delivery.Link.{
  Action, subscription_owner, is_other, attach_subscription, change_transactions,
}
use xray_vpn_bot.Delivery.Keeps.{KeepsDelivery, allocate_keeps}
use xray_vpn_bot.Delivery.Allocate.{Job, Found, profile, stopped, has_marker, allocate}
use xray_vpn_bot.Delivery.Deliver.{
  is_extend, paid_scenario, username_of, is_done, change_of, verify_failed, verify_empty,
  after_change, apply_to, after_attach, action_of, deliver_profile, deliver_found, deliver_new,
  after_target, deliver_job, deliver_android_paid,
}
use xray_vpn_bot.Delivery.Intake.{squads_of, job_of}

module _ {W : Type 0} (calls : PanelCalls W) (outside : Outside) (P : Db → Type 0) where
  abbrev In : World W → Type 0
  In w = P w.db

  module _ (job : Job) (k : KeepsDelivery P job.order.user_id) where
    after_change_keeps :
        (p : Profile) (rw_id : ℕ) (username : Text) (action : Action) (a : Answer (Option Profile))
        (w : World W)
        → In w
        → In (after_change calls outside job p rw_id username action a w).1
    after_change_keeps p rw_id username action (answered (some r)) w h = k.transactions w.db _ h
    after_change_keeps p rw_id username action (answered none) w h =
        verify_empty_keeps (ask (calls.by_id rw_id) w).0 (ask (calls.by_id rw_id) w).1 h
      where
        verify_empty_keeps :
            (a : Answer (Option Profile)) (v : World W)
            → In v
            → In (verify_empty calls outside job p rw_id username action a v).1
        verify_empty_keeps (failed e) v h = k.transactions v.db _ h
        verify_empty_keeps (answered none) v h = k.transactions v.db _ h
        verify_empty_keeps (answered (some b)) v h =
            elim (Bool-cases (has_marker (delivery_marker job.order.transaction_id) b)) [
              | inl made ↦ rw made (k.transactions v.db _ h)
              | inr absent ↦ rw absent (k.transactions v.db _ h)
            ]
    after_change_keeps p rw_id username action (failed e) w h =
        verify_failed_keeps (ask (calls.by_id rw_id) w).0 (ask (calls.by_id rw_id) w).1 h
      where
        verify_failed_keeps :
            (a : Answer (Option Profile)) (v : World W)
            → In v
            → In (verify_failed calls outside job p rw_id username action e a v).1
        verify_failed_keeps (failed e') v h = k.transactions v.db _ h
        verify_failed_keeps (answered none) v h = k.transactions v.db _ h
        verify_failed_keeps (answered (some b)) v h =
            elim (Bool-cases (has_marker (delivery_marker job.order.transaction_id) b)) [
              | inl made ↦ rw made (k.transactions v.db _ h)
              | inr absent ↦ rw absent (k.transactions v.db _ h)
            ]

    apply_to_keeps :
        (created : Bool) (p : Profile) (rw_id : ℕ) (action : Action) (name : Result Text)
        (w : World W)
        → In w
        → In (apply_to calls outside job created p rw_id action name w).1
    apply_to_keeps created p rw_id action (err e) w h = h
    apply_to_keeps created p rw_id action (ok username) w h =
        let change = change_of calls outside job p rw_id username in
        elim (Bool-cases (is_done calls outside job created p)) [
          | inl done ↦ rw done (k.transactions w.db _ h)
          | inr todo ↦ elim (Bool-cases (is_extend (paid_scenario p))) [
            | inl more ↦
                rw (todo, more)
                  (after_change_keeps p rw_id username action (ask (calls.extend change) w).0
                    (ask (calls.extend change) w).1 h)
            | inr anew ↦
                rw (todo, anew)
                  (after_change_keeps p rw_id username action (ask (calls.update change) w).0
                    (ask (calls.update change) w).1 h)
          ]
        ]

    after_attach_keeps :
        (created : Bool) (p : Profile) (rw_id ordinal : ℕ) (r : Result Action) (w : World W)
        → In w
        → In (after_attach calls outside job created p rw_id ordinal r w).1
    after_attach_keeps created p rw_id ordinal (err e) w h = k.transactions w.db _ h
    after_attach_keeps created p rw_id ordinal (ok action) w h =
        apply_to_keeps created p rw_id (action_of created action)
          (username_of outside job p ordinal) w h

    deliver_profile_keeps :
        (p : Profile) (created : Bool) (ordinal : ℕ) (w : World W)
        → In w
        → In (deliver_profile calls outside job p created ordinal w).1
    unfolding deliver_profile
    deliver_profile_keeps p created ordinal w h = elim (Option-cases p.rw_id) [
      | inl missing ↦ rw (missing, deliver_profile) (k.transactions w.db _ h)
      | inr (rw_id, named) ↦
          let order = job.order in
          let linked =
            attach_subscription order.user_id rw_id order.transaction_id order.purchase_source
              outside.now w.db in
          rw (named, deliver_profile)
            (after_attach_keeps created p rw_id ordinal linked.0 (record w { db = linked.1 })
              (k.links rw_id order.transaction_id order.purchase_source outside.now w.db h))
    ]

    deliver_new_keeps : (w : World W) → In w → In (deliver_new calls outside job w).1
    unfolding deliver_new
    deliver_new_keeps w h =
        bind_post In In (allocate calls outside job) (deliver_found calls outside job) w
          (allocate_keeps calls outside job P k w h) (λ found v hv. found_keeps found v hv)
          (λ v hv. hv)
      where
        found_keeps : (f : Found) (v : World W) → In v → In (deliver_found calls outside job f v).1
        found_keeps (stopped report) v hv = hv
        found_keeps (profile p created ordinal) v hv = deliver_profile_keeps p created ordinal v hv

    after_target_keeps :
        (a : Answer (Option Profile)) (w : World W)
        → In w
        → In (after_target calls outside job a w).1
    after_target_keeps (failed e) w h = k.transactions w.db _ h
    after_target_keeps (answered none) w h = deliver_new_keeps w h
    after_target_keeps (answered (some p)) w h = deliver_profile_keeps p false 0 w h

    deliver_job_keeps : (w : World W) → In w → In (deliver_job calls outside job w).1
    unfolding deliver_job
    deliver_job_keeps w h = elim (Option-cases job.order.target_rw_id) [
      | inl any_name ↦ rw (any_name, deliver_job) (deliver_new_keeps w h)
      | inr (rw_id, named) ↦
          elim (Bool-cases (is_other job.order.user_id (subscription_owner rw_id w.db))) [
            | inl conflict ↦ rw (named, conflict, deliver_job) (k.transactions w.db _ h)
            | inr own ↦
                rw (named, own, deliver_job)
                  (after_target_keeps (ask (calls.by_id rw_id) w).0 (ask (calls.by_id rw_id) w).1 h)
          ]
    ]

  -- Where `start` is what is known once the account is found.
  pub deliver_keeps :
      (Q : Db → Type 0) (order : Order) (w : World W)
      → KeepsDelivery P order.user_id
      → ((db : Db) → P db → Q db)
      → ((tx : String) (f : Transaction → Transaction) → Q (change_transactions tx f w.db))
      → ((u : User) → find_user order.user_id w.db ≡ some u → P w.db)
      → Q (deliver_android_paid calls outside order w).1.db
  unfolding deliver_android_paid
  deliver_keeps Q order w k weaken refused start =
      elim (Option-cases (find_user order.user_id w.db)) [
        | inl missing ↦ rw (missing, deliver_android_paid) (refused order.transaction_id _)
        | inr (u, known) ↦ elim (Option-cases (squads_of outside order)) [
          | inl bad ↦ rw (known, bad, deliver_android_paid) (refused order.transaction_id _)
          | inr (squads, good) ↦
              rw (known, good, deliver_android_paid)
                (weaken _ (
                  deliver_job_keeps (job_of order u (count_for_user order.user_id w.db) squads) k w
                    (start u known)))
        ]
      ]
