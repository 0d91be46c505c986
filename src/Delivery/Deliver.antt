-- ===== src/Delivery/Deliver.antt =====
-- `deliver_android_paid` of delivery.py. What it tells the administrators (`_notify`, with the number
-- of the subscription) is output alone and is left out.
use Prim.Native.String
use xray_vpn_bot.Prelude.{
  ℕ, ℤ, pos, leb_ℤ, String, Bool, true, false, ◌||◌, Option, none, some, [], ◌∷◌, ◌++◌, Text, codes,
  if◌then◌else◌,
}
use xray_vpn_bot.Exec.{Exec, Result, ok, err, ◌>>=◌}
use xray_vpn_bot.Wallet.{find_user}
use xray_vpn_bot.Panel.{Profile, Scenario, extend, paid, resolve_scenario}
use xray_vpn_bot.Subscription.{count_for_user}
use xray_vpn_bot.Delivery.Names.{
  build_remnawave_username, delivery_marker, delivery_description, text_of, provisioning_marker,
}
use xray_vpn_bot.Delivery.World.{
  Failure, Answer, answered, failed, is_retryable, message_of, Order, ProfileChange, PanelCalls,
  Outside, World, ask,
}
use xray_vpn_bot.Delivery.Intake.{squads_of, job_of}
use xray_vpn_bot.Delivery.Link.{
  Action, created_now, change_transactions, as_delivered, subscription_owner, is_other,
  attach_subscription,
}
use xray_vpn_bot.Delivery.Allocate.{
  Report, success, Job, fail, Found, profile, stopped, has_marker, target_of, both_messages,
  allocate,
}

abbrev pub is_extend : Scenario → Bool
is_extend extend = true
is_extend s = false

abbrev pub paid_scenario : Profile → Scenario
paid_scenario p = resolve_scenario (some p) paid

-- max(0, round(...)), and 0 without an expiry
abbrev pub days_left : Outside → Profile → ℤ
days_left outside p = elim p.expire [
  | none ↦ pos 0
  | some t ↦ if leb_ℤ (outside.days_until t) (pos 0) then pos 0 else outside.days_until t
]

abbrev pub base_description : Order → Profile → Option Text
base_description order p = elim order.delivery_target [
  | some t ↦ t.remnawave_description
  | none ↦ some (
      codes order.purchase_source
      ++ (if is_extend (paid_scenario p) then codes " paid extend" else codes " paid update"))
]

abbrev pub action_of : Bool → Action → Action
action_of created a = if created then created_now else a

-- info.get("username") or build_remnawave_username(...)
abbrev pub username_of : Outside → Job → Profile → ℕ → Result Text
username_of outside job p ordinal = elim (text_of p.username) [
  | [] ↦ build_remnawave_username outside.lower job.tg_username job.order.user_id ordinal
  | c ∷ s ↦ ok (c ∷ s)
]

module _ {W : Type 0} (calls : PanelCalls W) (outside : Outside) (job : Job) where
  abbrev pub id : String
  id = job.order.transaction_id

  -- The transaction is delivered, and the report names the profile.
  abbrev pub finish : Profile → ℕ → Text → Action → Option String → Exec (World W) Report
  finish p rw username action url w = (
    ok (
        success (record {
          scenario = paid_scenario p;
          subscription_url = url;
          rw_id = rw;
          username = username;
          action = action;
        })),
    record w { db = change_transactions id as_delivered w.db },
  )

  abbrev pub change_of : Profile → ℕ → Text → ProfileChange
  change_of p rw username =
      let target = target_of job.order in
      record {
        rw_id = rw;
        username = username;
        days = job.order.days;
        current_days_left = days_left outside p;
        squads = job.squads;
        traffic_limit_bytes = target.traffic_limit_bytes;
        traffic_limit_strategy = target.traffic_limit_strategy;
        tag = target.remnawave_tag;
        description = delivery_description id (base_description job.order p);
      }

  -- After an exception: the change may have been made all the same.
  abbrev pub verify_failed :
      Profile → ℕ → Text → Action → Failure → Answer (Option Profile) → Exec (World W) Report
  verify_failed p rw username action e (failed v) =
      fail id (both_messages calls outside job e v) (is_retryable e || is_retryable v)
  verify_failed p rw username action e (answered none) = fail id (message_of e) (is_retryable e)
  verify_failed p rw username action e (answered (some a)) =
      if has_marker (delivery_marker id) a
      then finish p rw username action a.subscription_url
      else fail id (message_of e) (is_retryable e)

  -- After an answer without a profile.
  abbrev pub verify_empty :
      Profile → ℕ → Text → Action → Answer (Option Profile) → Exec (World W) Report
  verify_empty p rw username action (failed v) =
      fail id
        (String.◌++◌ "remnawave_apply_returned_none"
          (String.◌++◌ "; verification_failed:" (message_of v)))
        true
  verify_empty p rw username action (answered none) = fail id "remnawave_apply_returned_none" true
  verify_empty p rw username action (answered (some a)) =
      if has_marker (delivery_marker id) a
      then finish p rw username action a.subscription_url
      else fail id "remnawave_apply_returned_none" true

  abbrev pub after_change :
      Profile → ℕ → Text → Action → Answer (Option Profile) → Exec (World W) Report
  after_change p rw username action (answered (some r)) w =
      finish p rw username action r.subscription_url w
  after_change p rw username action (answered none) w =
      let (a, w') = ask (calls.by_id rw) w in verify_empty p rw username action a w'
  after_change p rw username action (failed e) w =
      let (a, w') = ask (calls.by_id rw) w in verify_failed p rw username action e a w'

  -- The profile is new, or has the marker of this transaction already.
  abbrev pub is_done : Bool → Profile → Bool
  is_done created p =
      created || (has_marker (provisioning_marker id) p || has_marker (delivery_marker id) p)

  abbrev pub apply_to : Bool → Profile → ℕ → Action → Result Text → Exec (World W) Report
  apply_to created p rw action (err e) w = (err e, w)
  apply_to created p rw action (ok username) w =
      if is_done created p
      then finish p rw username action p.subscription_url w
      else if is_extend (paid_scenario p)
      then (let (r, w') = ask (calls.extend (change_of p rw username)) w in
          after_change p rw username action r w')
      else (let (r, w') = ask (calls.update (change_of p rw username)) w in
          after_change p rw username action r w')

  -- After `_attach_subscription`, whose only exception is the conflict.
  abbrev pub after_attach : Bool → Profile → ℕ → ℕ → Result Action → Exec (World W) Report
  after_attach created p rw ordinal (err e) = fail id "target_owner_conflict" false
  after_attach created p rw ordinal (ok action) =
      apply_to created p rw (action_of created action) (username_of outside job p ordinal)

  unfoldable pub deliver_profile : Profile → Bool → ℕ → Exec (World W) Report
  unfolding attach_subscription resolve_scenario delivery_description build_remnawave_username
  deliver_profile p created ordinal w = elim p.rw_id [
    | none ↦ fail id "remnawave_missing_rw_id" false w
    | some rw ↦
        let (r, db') =
          attach_subscription job.order.user_id rw id job.order.purchase_source outside.now w.db in
        after_attach created p rw ordinal r (record w { db = db' })
  ]

  abbrev pub deliver_found : Found → Exec (World W) Report
  deliver_found (stopped report) w = (ok report, w)
  deliver_found (profile p created ordinal) w = deliver_profile p created ordinal w

  unfoldable pub deliver_new : Exec (World W) Report
  unfolding allocate deliver_profile
  deliver_new = allocate calls outside job >>= deliver_found

  -- The profile that the order names; one that the panel does not have any more is made anew.
  abbrev pub after_target : Answer (Option Profile) → Exec (World W) Report
  after_target (failed e) = fail id (message_of e) (is_retryable e)
  after_target (answered none) = deliver_new
  after_target (answered (some p)) = deliver_profile p false 0

  unfoldable pub deliver_job : Exec (World W) Report
  unfolding deliver_new deliver_profile
  deliver_job w = elim job.order.target_rw_id [
    | none ↦ deliver_new w
    | some rw ↦
        if is_other job.order.user_id (subscription_owner rw w.db)
        then fail id "target_owner_conflict" false w
        else (let (a, w') = ask (calls.by_id rw) w in after_target a w')
  ]

unfoldable pub deliver_android_paid :
    {W : Type 0} → PanelCalls W → Outside → Order → Exec (World W) Report
unfolding deliver_job squads_of
deliver_android_paid calls outside order w = elim (find_user order.user_id w.db) [
  | none ↦ fail order.transaction_id "local_user_not_found" false w
  | some u ↦ elim (squads_of outside order) [
    | none ↦
        fail order.transaction_id
          (String.◌++◌ "bad tariff_slug: " (outside.shown order.tariff_slug)) false w
    | some squads ↦
        deliver_job calls outside (job_of order u (count_for_user order.user_id w.db) squads) w
  ]
]
