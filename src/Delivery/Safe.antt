-- ===== src/Delivery/Safe.antt =====
-- `deliver_android_paid` of delivery.py as a whole.
use Prim.Native.String
use xray_vpn_bot.Prelude.{
  ℕ, ◌≡◌, Bool, false, Option, none, some, inl, inr, Bool-cases, Option-cases, arith,
}
use xray_vpn_bot.Exec.{Result, ok, err, ◌>>=◌}
use xray_vpn_bot.Panel.{Profile}
use xray_vpn_bot.Wallet.{find_user}
use xray_vpn_bot.Subscription.{count_for_user}
use xray_vpn_bot.Subscription.Links.{IsLinked}
use xray_vpn_bot.Subscription.Owners.{owner_of}
use xray_vpn_bot.Delivery.World.{
  Answer, answered, failed, message_of, is_retryable, Order, PanelCalls, Outside, World, ask,
}
use xray_vpn_bot.Delivery.Link.{subscription_owner, is_other, attach_subscription}
use xray_vpn_bot.Delivery.Links.{
  owners-KeepsDelivery, IsServed, IsServed-KeepsDelivery, IsLinked-transactions,
}
use xray_vpn_bot.Delivery.Invariants.{deliver_keeps}
use xray_vpn_bot.Delivery.Allocate.{Report, Job, Found, profile, stopped, allocate}
use xray_vpn_bot.Delivery.Deliver.{
  deliver_profile, deliver_found, deliver_new, after_target, deliver_job, deliver_android_paid,
}
use xray_vpn_bot.Delivery.Intake.{squads_of, job_of}
use xray_vpn_bot.Delivery.Reports.{IsReported, fail-IsReported, IsFound, allocate-Told}
use xray_vpn_bot.Delivery.Outcome.{attach_subscription-IsAttached, after_attach-Told}

module _ {W : Type 0} (calls : PanelCalls W) (outside : Outside) (job : Job) where
  abbrev Told : Result Report × World W → Type 0
  Told (r, w) = IsReported job.order r w.db

  deliver_profile-Told :
      (p : Profile) (created : Bool) (ordinal : ℕ) (w : World W)
      → Told (deliver_profile calls outside job p created ordinal w)
  unfolding deliver_profile
  deliver_profile-Told p created ordinal w = elim (Option-cases p.rw_id) [
    | inl missing ↦
        rw (missing, deliver_profile) (fail-IsReported job.order "remnawave_missing_rw_id" false w)
    | inr (rw_id, named) ↦
        let order = job.order in
        let linked =
          attach_subscription order.user_id rw_id order.transaction_id order.purchase_source
            outside.now w.db in
        rw (named, deliver_profile)
          (after_attach-Told calls outside job created p rw_id ordinal linked.0
            order.purchase_source outside.now (record w { db = linked.1 })
            (attach_subscription-IsAttached order rw_id order.purchase_source outside.now w.db))
  ]

  found-Told :
      (f : Result Found) (w : World W)
      → IsFound job.order f w.db
      → Told (((λ (_ : World W). (f, w)) >>= deliver_found calls outside job) w)
  found-Told (err e) w h = tt
  found-Told (ok (stopped report)) w h = h
  found-Told (ok (profile p created ordinal)) w h = deliver_profile-Told p created ordinal w

  deliver_new-Told : (w : World W) → Told (deliver_new calls outside job w)
  unfolding deliver_new
  deliver_new-Told w =
      let found = allocate calls outside job w in
      found-Told found.0 found.1 (allocate-Told calls outside job w)

  after_target-Told :
      (a : Answer (Option Profile)) (w : World W) → Told (after_target calls outside job a w)
  after_target-Told (failed e) w = fail-IsReported job.order (message_of e) (is_retryable e) w
  after_target-Told (answered none) w = deliver_new-Told w
  after_target-Told (answered (some p)) w = deliver_profile-Told p false 0 w

  deliver_job-Told : (w : World W) → Told (deliver_job calls outside job w)
  unfolding deliver_job
  deliver_job-Told w = elim (Option-cases job.order.target_rw_id) [
    | inl any_name ↦ rw (any_name, deliver_job) (deliver_new-Told w)
    | inr (rw_id, named) ↦
        elim (Bool-cases (is_other job.order.user_id (subscription_owner rw_id w.db))) [
          | inl conflict ↦
              rw (named, conflict, deliver_job)
                (fail-IsReported job.order "target_owner_conflict" false w)
          | inr own ↦
              let found = ask (calls.by_id rw_id) w in
              rw (named, own, deliver_job) (after_target-Told found.0 found.1)
        ]
  ]

module _ {W : Type 0} (calls : PanelCalls W) (outside : Outside) (order : Order) (w : World W) where
  -- Whatever the panel answers, a delivery that reports success leaves the profile with the
  -- account of the order and every row of its transaction delivered, confirmed and with that
  -- profile as target; one that reports pending leaves every row of the transaction pending.
  pub deliver_reports :
      IsReported order
        (deliver_android_paid calls outside order w).0
        (deliver_android_paid calls outside order w).1.db
  unfolding deliver_android_paid
  deliver_reports = elim (Option-cases (find_user order.user_id w.db)) [
    | inl missing ↦
        rw (missing, deliver_android_paid) (fail-IsReported order "local_user_not_found" false w)
    | inr (u, known) ↦ elim (Option-cases (squads_of outside order)) [
      | inl bad ↦
          rw (known, bad, deliver_android_paid)
            (fail-IsReported order
              (String.◌++◌ "bad tariff_slug: " (outside.shown order.tariff_slug)) false w)
      | inr (squads, good) ↦
          rw (known, good, deliver_android_paid)
            (deliver_job-Told calls outside
              (job_of order u (count_for_user order.user_id w.db) squads) w)
    ]
  ]

  -- Whatever the panel answers, a delivery leaves every profile that an account has with that
  -- account.
  pub deliver-owners :
      (r o : ℕ)
      → owner_of r w.db ≡ some o
      → owner_of r (deliver_android_paid calls outside order w).1.db ≡ some o
  deliver-owners r o had =
      deliver_keeps calls outside (λ db. owner_of r db ≡ some o) (λ db. owner_of r db ≡ some o)
        order w (owners-KeepsDelivery order.user_id r o) (λ db h. h) (λ tx f. had) (λ u known. had)

  -- Whatever the panel answers, a delivery keeps the links between accounts and profiles.
  pub deliver-IsLinked : IsLinked w.db → IsLinked (deliver_android_paid calls outside order w).1.db
  deliver-IsLinked h =
      deliver_keeps calls outside (IsServed order.user_id) IsLinked order w
        (IsServed-KeepsDelivery order.user_id) (λ db s. s.links)
        (λ tx f. IsLinked-transactions w.db _ h)
        (λ u known. record { links = h; known = ground arith })
