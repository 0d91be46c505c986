-- ===== src/Delivery/Outcome.antt =====
-- The reports of delivery.py from the link to the end.
use Prim.Native.String
use xray_vpn_bot.Prelude.{
  ℕ, String, ◌≡◌, refl, Bool, true, false, Option, none, some, List, [], ◌∷◌, All, Text,
  update_where, ==_iff, inl, inr, Bool-cases, Option-cases, arith,
}
use xray_vpn_bot.Exec.{Result, ok, err}
use xray_vpn_bot.Db.{Db, Transaction}
use xray_vpn_bot.Panel.{Profile}
use xray_vpn_bot.Subscription.{get_by_rw_id}
use xray_vpn_bot.Subscription.Owners.{owner_of}
use xray_vpn_bot.Delivery.Names.{delivery_marker}
use xray_vpn_bot.Delivery.World.{
  Failure, Answer, answered, failed, message_of, Order, PanelCalls, Outside, World, ask,
}
use xray_vpn_bot.Delivery.Link.{
  Action, is_transaction, change_transactions, as_delivered, with_target, link_profile,
  subscription_owner, is_other, attach_subscription,
}
use xray_vpn_bot.Delivery.Attached.{owner_of-linked}
use xray_vpn_bot.Delivery.Allocate.{Report, Job, has_marker, both_messages}
use xray_vpn_bot.Delivery.Deliver.{
  is_extend, paid_scenario, username_of, is_done, change_of, finish, verify_failed, verify_empty,
  after_change, apply_to, after_attach, action_of,
}
use xray_vpn_bot.Delivery.Reports.{
  EachRow, IsDelivered, IsReported, EachRow-change, fail-IsReported,
}

-- The account has the profile, and the transaction names it.
abbrev pub IsTaken : Order → ℕ → Db → Type 0
IsTaken order rw_id db =
    (owner_of rw_id db ≡ some order.user_id)
    × EachRow order.transaction_id (λ t. t.target_rw_id ≡ some rw_id) db

IsDelivered-rows :
    (tx : String) (rw_id : ℕ) (ts : List Transaction)
    → All (λ t. is_transaction tx t ≡ true → t.target_rw_id ≡ some rw_id) ts
    → All
        (λ t. is_transaction tx t ≡ true → IsDelivered rw_id t)
        (update_where (is_transaction tx) as_delivered ts)
IsDelivered-rows tx rw_id [] h = tt
IsDelivered-rows tx rw_id (t ∷ ts) h = elim (Bool-cases (is_transaction tx t)) [
  | inl hit ↦ rw (hit, update_where) (λ _. (refl, refl, h.0 hit), IsDelivered-rows tx rw_id ts h.1)
  | inr miss ↦ rw (miss, update_where) (λ e. absurd cc, IsDelivered-rows tx rw_id ts h.1)
]

module _ (order : Order) (rw_id : ℕ) (source now : String) (db : Db) where
  abbrev linked : Result Action × Db
  linked = attach_subscription order.user_id rw_id order.transaction_id source now db

  named_rows :
      (d : Db)
      → EachRow order.transaction_id
          (λ t. t.target_rw_id ≡ some rw_id)
          (change_transactions order.transaction_id (with_target rw_id) d)
  named_rows d =
      EachRow-change order.transaction_id (λ t. t.target_rw_id ≡ some rw_id) (with_target rw_id)
        d.transactions (λ t. refl) (λ t. refl)

  abbrev pub IsAttached : Result Action → Db → Type 0
  IsAttached (err e) d = Unit
  IsAttached (ok a) d = IsTaken order rw_id d

  -- Only a conflict raises; else the account has the profile.
  pub attach_subscription-IsAttached : IsAttached linked.0 linked.1
  unfolding attach_subscription
  attach_subscription-IsAttached =
      elim (Bool-cases (is_other order.user_id (subscription_owner rw_id db))) [
        | inl conflict ↦ rw (conflict, attach_subscription) tt
        | inr own ↦ elim (Option-cases (get_by_rw_id rw_id db)) [
          | inl unlinked ↦
              rw (own, unlinked, attach_subscription)
                (
                  owner_of-linked order.user_id rw_id source now db unlinked,
                  named_rows (link_profile order.user_id rw_id source now db),
                )
          | inr (s, found) ↦
              let mine : s.user_id ≡ order.user_id =
                ground (arith, ==_iff s.user_id order.user_id) in
              let owner : owner_of rw_id db ≡ some order.user_id = ground arith in
              rw (own, found, attach_subscription) (owner, named_rows db)
        ]
      ]

module _ {W : Type 0} (calls : PanelCalls W) (outside : Outside) (job : Job) where
  abbrev Told : Result Report × World W → Type 0
  Told (r, w) = IsReported job.order r w.db

  module _ (p : Profile) (rw_id : ℕ) (username : Text) (action : Action) where
    finish-Told :
        (url : Option String) (w : World W)
        → IsTaken job.order rw_id w.db
        → Told (finish calls outside job p rw_id username action url w)
    finish-Told url w h =
        (h.0, IsDelivered-rows job.order.transaction_id rw_id w.db.transactions h.1)

    verify_failed-Told :
        (e : Failure) (a : Answer (Option Profile)) (w : World W)
        → IsTaken job.order rw_id w.db
        → Told (verify_failed calls outside job p rw_id username action e a w)
    verify_failed-Told e (failed v) w h =
        fail-IsReported job.order (both_messages calls outside job e v) true w
    verify_failed-Told e (answered none) w h = fail-IsReported job.order (message_of e) true w
    verify_failed-Told e (answered (some a)) w h =
        elim (Bool-cases (has_marker (delivery_marker job.order.transaction_id) a)) [
          | inl made ↦ rw made (finish-Told a.subscription_url w h)
          | inr absent ↦ rw absent (fail-IsReported job.order (message_of e) true w)
        ]

    verify_empty-Told :
        (a : Answer (Option Profile)) (w : World W)
        → IsTaken job.order rw_id w.db
        → Told (verify_empty calls outside job p rw_id username action a w)
    verify_empty-Told (failed v) w h =
        fail-IsReported job.order
          (String.◌++◌ "remnawave_apply_returned_none"
            (String.◌++◌ "; verification_failed:" (message_of v)))
          true w
    verify_empty-Told (answered none) w h =
        fail-IsReported job.order "remnawave_apply_returned_none" true w
    verify_empty-Told (answered (some a)) w h =
        elim (Bool-cases (has_marker (delivery_marker job.order.transaction_id) a)) [
          | inl made ↦ rw made (finish-Told a.subscription_url w h)
          | inr absent ↦
              rw absent (fail-IsReported job.order "remnawave_apply_returned_none" true w)
        ]

    after_change-Told :
        (a : Answer (Option Profile)) (w : World W)
        → IsTaken job.order rw_id w.db
        → Told (after_change calls outside job p rw_id username action a w)
    after_change-Told (answered (some r)) w h = finish-Told r.subscription_url w h
    after_change-Told (answered none) w h =
        let again = ask (calls.by_id rw_id) w in verify_empty-Told again.0 again.1 h
    after_change-Told (failed e) w h =
        let again = ask (calls.by_id rw_id) w in verify_failed-Told e again.0 again.1 h

  apply_to-Told :
      (created : Bool) (p : Profile) (rw_id : ℕ) (action : Action) (name : Result Text)
      (w : World W)
      → IsTaken job.order rw_id w.db
      → Told (apply_to calls outside job created p rw_id action name w)
  apply_to-Told created p rw_id action (err e) w h = tt
  apply_to-Told created p rw_id action (ok username) w h =
      let change = change_of calls outside job p rw_id username in
      elim (Bool-cases (is_done calls outside job created p)) [
        | inl done ↦ rw done (finish-Told p rw_id username action p.subscription_url w h)
        | inr todo ↦ elim (Bool-cases (is_extend (paid_scenario p))) [
          | inl more ↦
              rw (todo, more)
                (after_change-Told p rw_id username action (ask (calls.extend change) w).0
                  (ask (calls.extend change) w).1 h)
          | inr anew ↦
              rw (todo, anew)
                (after_change-Told p rw_id username action (ask (calls.update change) w).0
                  (ask (calls.update change) w).1 h)
        ]
      ]

  pub after_attach-Told :
      (created : Bool) (p : Profile) (rw_id ordinal : ℕ) (r : Result Action) (source now : String)
      (w : World W)
      → IsAttached job.order rw_id source now w.db r w.db
      → Told (after_attach calls outside job created p rw_id ordinal r w)
  after_attach-Told created p rw_id ordinal (err e) source now w h =
      fail-IsReported job.order "target_owner_conflict" false w
  after_attach-Told created p rw_id ordinal (ok action) source now w h =
      apply_to-Told created p rw_id (action_of created action) (username_of outside job p ordinal) w
        h
