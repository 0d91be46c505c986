-- ===== src/Delivery/Allocate.antt =====
-- The new profile of an order in delivery.py: usernames are tried in turn, and one that is taken is
-- used only if its description has the marker of this transaction.
use Prim.Native.String
use xray_vpn_bot.Prelude.{
  ℕ, zero, suc, ℤ, pos, String, Bool, true, false, ◌||◌, Option, none, some, [], is_some, Text,
  contains, if◌then◌else◌,
}
use xray_vpn_bot.Exec.{Exec, Result, ok, err}
use xray_vpn_bot.Panel.{Profile, Scenario}
use xray_vpn_bot.Delivery.Names.{
  build_remnawave_username, provisioning_description, provisioning_marker, max_username_attempts,
  text_of,
}
use xray_vpn_bot.Delivery.World.{
  Failure, Answer, answered, failed, is_retryable, message_of, Target, Order, Squads, NewProfile,
  PanelCalls, Outside, World, ask,
}
use xray_vpn_bot.Delivery.Link.{Action, change_transactions, as_pending, cut_string}

pub record Delivered : Type 0 where
  pub scenario : Scenario
  pub subscription_url : Option String
  pub rw_id : ℕ
  pub username : Text
  pub action : Action

-- The dict that a delivery returns: pending, with its message and whether it may be tried again.
pub data Report : Type 0 where
  success : Delivered → Report
  pending : String → Bool → Report

-- The order with what the account adds to it.
pub record Job : Type 0 where
  pub order : Order
  pub tg_id : Option ℤ
  pub tg_username : Option Text
  pub email : Option String
  pub squads : Squads
  pub subscription_count : ℕ

-- The transaction stays pending, with the reason.
abbrev pub fail : {W : Type 0} → String → String → Bool → Exec (World W) Report
fail tx reason retryable w = (
  ok (pending reason retryable),
  record w { db = change_transactions tx (as_pending (cut_string 255 reason)) w.db },
)

-- What the search ends with: a profile, whether it is new, and the number it was found at; or a report.
pub data Found : Type 0 where
  profile : Profile → Bool → ℕ → Found
  stopped : Report → Found

abbrev pub stop : {W : Type 0} → String → String → Bool → Exec (World W) Found
stop tx reason retryable w =
    (ok (stopped (pending reason retryable)), (fail tx reason retryable w).1)

abbrev pub has_marker : Text → Profile → Bool
has_marker marker p = contains marker (text_of p.description)

abbrev pub no_target : Target
no_target = record {
  internal_squad_ids = [];
  external_squad_id = none;
  remnawave_description = none;
  traffic_limit_bytes = none;
  traffic_limit_strategy = none;
  remnawave_tag = none;
}

-- dict(delivery_target or {})
abbrev pub target_of : Order → Target
target_of order = elim order.delivery_target [ none ↦ no_target | some t ↦ t ]

abbrev pub number_or_zero : Option ℤ → ℤ
number_or_zero none = pos 0
number_or_zero (some n) = n

abbrev pub new_profile : Job → Text → NewProfile
new_profile job candidate =
    let target = target_of job.order in
    record {
      username = candidate;
      telegram_id = number_or_zero job.tg_id;
      days = job.order.days;
      email = job.email;
      squads = job.squads;
      traffic_limit_bytes = target.traffic_limit_bytes;
      traffic_limit_strategy = target.traffic_limit_strategy;
      tag = target.remnawave_tag;
      description =
          provisioning_description job.order.transaction_id job.order.user_id job.tg_id
            job.order.purchase_source job.tg_username target.remnawave_description;
    }

module _ {W : Type 0} (calls : PanelCalls W) (outside : Outside) (job : Job) where
  abbrev pub marker : Text
  marker = provisioning_marker job.order.transaction_id

  abbrev pub tx : String
  tx = job.order.transaction_id

  -- f"{exc}; verification_failed:{verify_exc}"
  abbrev pub both_messages : Failure → Failure → String
  both_messages e v =
      String.◌++◌ (message_of e) (String.◌++◌ "; verification_failed:" (message_of v))

  -- After a creation that failed: the name is looked up again.
  abbrev pub after_failed :
      ℕ → Exec (World W) Found → Failure → Answer (Option Profile) → Exec (World W) Found
  after_failed ordinal next e (failed v) =
      stop tx (both_messages e v) (is_retryable e || is_retryable v)
  after_failed ordinal next e (answered none) = stop tx (message_of e) (is_retryable e)
  after_failed ordinal next e (answered (some p)) =
      if has_marker marker p then (λ w. (ok (profile p false ordinal), w)) else next

  -- After a creation that was answered. A read that fails counts as nothing found.
  abbrev pub after_created :
      ℕ → Exec (World W) Found → Option Profile → Answer (Option Profile) → Exec (World W) Found
  after_created ordinal next result (answered (some p)) =
      if has_marker marker p then (λ w. (ok (profile p (is_some result) ordinal), w)) else next
  after_created ordinal next (some r) (answered none) = λ w. (ok (profile r true ordinal), w)
  after_created ordinal next (some r) (failed e) = λ w. (ok (profile r true ordinal), w)
  after_created ordinal next none (answered none) = stop tx "remnawave_apply_returned_none" true
  after_created ordinal next none (failed e) = stop tx "remnawave_apply_returned_none" true

  abbrev pub after_creation :
      ℕ → Text → Exec (World W) Found → Answer (Option Profile) → Exec (World W) Found
  after_creation ordinal candidate next (failed e) w =
      let (again, w') = ask (calls.by_username candidate) w in after_failed ordinal next e again w'
  after_creation ordinal candidate next (answered result) w =
      let (again, w') = ask (calls.by_username candidate) w in
      after_created ordinal next result again w'

  abbrev pub after_lookup :
      ℕ → Text → Exec (World W) Found → Answer (Option Profile) → Exec (World W) Found
  after_lookup ordinal candidate next (failed e) w = stop tx (message_of e) (is_retryable e) w
  after_lookup ordinal candidate next (answered (some p)) w =
      if has_marker marker p then (ok (profile p false ordinal), w) else next w
  after_lookup ordinal candidate next (answered none) w =
      let (made, w') = ask (calls.new_user (new_profile job candidate)) w in
      after_creation ordinal candidate next made w'

  abbrev pub attempt : ℕ → Exec (World W) Found → Result Text → Exec (World W) Found
  attempt ordinal next (err e) w = (err e, w)
  attempt ordinal next (ok candidate) w =
      let (occupied, w') = ask (calls.by_username candidate) w in
      after_lookup ordinal candidate next occupied w'

  -- for ordinal in range(start, start + attempts)
  abbrev pub try_usernames : ℕ → ℕ → Exec (World W) Found
  try_usernames zero ordinal = stop tx "rw_username_allocation_failed" false
  try_usernames (suc attempts) ordinal =
      attempt ordinal (try_usernames attempts (suc ordinal))
        (build_remnawave_username outside.lower job.tg_username job.order.user_id ordinal)

  unfoldable pub allocate : Exec (World W) Found
  unfolding build_remnawave_username provisioning_description
  allocate = try_usernames max_username_attempts job.subscription_count
