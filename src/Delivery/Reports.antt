-- ===== src/Delivery/Reports.antt =====
-- The reports of a delivery of delivery.py, and what the database says of the order beside each; the
-- search for a username.
use xray_vpn_bot.Prelude.{
  ℕ, zero, suc, String, ◌≡◌, refl, Bool, true, false, Option, none, some, List, [], ◌∷◌, All, Text,
  update_where, inl, inr, Bool-cases,
}
use xray_vpn_bot.Exec.{Exec, Result, ok, err}
use xray_vpn_bot.Db.{Db, Transaction}
use xray_vpn_bot.Panel.{Profile}
use xray_vpn_bot.Subscription.Owners.{owner_of}
use xray_vpn_bot.Delivery.Names.{build_remnawave_username, provisioning_marker}
use xray_vpn_bot.Delivery.World.{
  Failure, Answer, answered, failed, Order, PanelCalls, Outside, World, ask,
}
use xray_vpn_bot.Delivery.Link.{is_transaction, as_pending, cut_string}
use xray_vpn_bot.Delivery.Allocate.{
  Report, success, pending, Job, Found, stopped, fail, has_marker, after_failed, after_created,
  after_creation, after_lookup, attempt, try_usernames, allocate, new_profile,
}

-- The rows of one transaction.
abbrev pub EachRow : String → (Transaction → Type 0) → Db → Type 0
EachRow tx R db = All (λ t. is_transaction tx t ≡ true → R t) db.transactions

abbrev pub IsPending : Transaction → Type 0
IsPending t = (t.delivery_status ≡ 0) × (t.order_status ≡ "pending")

abbrev pub IsDelivered : ℕ → Transaction → Type 0
IsDelivered rw t =
    (t.delivery_status ≡ 1) × (t.order_status ≡ "confirmed") × (t.target_rw_id ≡ some rw)

-- A success: the account has the profile, and the transaction says so. A report that is pending: the
-- transaction is pending.
abbrev pub IsReported : Order → Result Report → Db → Type 0
IsReported order (err e) db = Unit
IsReported order (ok (pending message retryable)) db = EachRow order.transaction_id IsPending db
IsReported order (ok (success d)) db =
    (owner_of d.rw_id db ≡ some order.user_id)
    × EachRow order.transaction_id (IsDelivered d.rw_id) db

pub EachRow-change :
    (tx : String) (R : Transaction → Type 0) (f : Transaction → Transaction) (ts : List Transaction)
    → ((t : Transaction) → (f t).transaction_id ≡ t.transaction_id)
    → ((t : Transaction) → R (f t))
    → All (λ t. is_transaction tx t ≡ true → R t) (update_where (is_transaction tx) f ts)
EachRow-change tx R f [] same holds = tt
EachRow-change tx R f (t ∷ ts) same holds = elim (Bool-cases (is_transaction tx t)) [
  | inl hit ↦ rw (hit, update_where) (λ _. holds t, EachRow-change tx R f ts same holds)
  | inr miss ↦ rw (miss, update_where) (λ e. absurd cc, EachRow-change tx R f ts same holds)
]

-- A search ends with a profile, or with a report that is true.
abbrev pub IsFound : Order → Result Found → Db → Type 0
IsFound order (ok (stopped report)) db = IsReported order (ok report) db
IsFound order r db = Unit

module _ {W : Type 0} (order : Order) (reason : String) (retryable : Bool) (w : World W) where
  pub fail-IsReported :
      IsReported order
        (fail order.transaction_id reason retryable w).0
        (fail order.transaction_id reason retryable w).1.db
  fail-IsReported =
      EachRow-change order.transaction_id IsPending (as_pending (cut_string 255 reason))
        w.db.transactions (λ t. refl) (λ t. (refl, refl))

module _ {W : Type 0} (calls : PanelCalls W) (outside : Outside) (job : Job) where
  abbrev Told : Result Found × World W → Type 0
  Told (r, w) = IsFound job.order r w.db

  module _ (next : Exec (World W) Found) (go : (w : World W) → Told (next w)) where
    after_failed-Told :
        (ordinal : ℕ) (e : Failure) (a : Answer (Option Profile)) (w : World W)
        → Told (after_failed calls outside job ordinal next e a w)
    after_failed-Told ordinal e (failed v) w = fail-IsReported job.order _ true w
    after_failed-Told ordinal e (answered none) w = fail-IsReported job.order _ true w
    after_failed-Told ordinal e (answered (some p)) w =
        elim (Bool-cases (has_marker (provisioning_marker job.order.transaction_id) p)) [
          | inl marked ↦ rw marked tt
          | inr foreign ↦ rw foreign (go w)
        ]

    after_created-Told :
        (ordinal : ℕ) (result : Option Profile) (a : Answer (Option Profile)) (w : World W)
        → Told (after_created calls outside job ordinal next result a w)
    after_created-Told ordinal (some r) (failed v) w = tt
    after_created-Told ordinal (some r) (answered none) w = tt
    after_created-Told ordinal none (failed v) w =
        fail-IsReported job.order "remnawave_apply_returned_none" true w
    after_created-Told ordinal none (answered none) w =
        fail-IsReported job.order "remnawave_apply_returned_none" true w
    after_created-Told ordinal result (answered (some p)) w =
        elim (Bool-cases (has_marker (provisioning_marker job.order.transaction_id) p)) [
          | inl marked ↦ rw marked tt
          | inr foreign ↦ rw foreign (go w)
        ]

    after_creation-Told :
        (ordinal : ℕ) (candidate : Text) (a : Answer (Option Profile)) (w : World W)
        → Told (after_creation calls outside job ordinal candidate next a w)
    after_creation-Told ordinal candidate (failed e) w =
        let again = ask (calls.by_username candidate) w in
        after_failed-Told ordinal e again.0 again.1
    after_creation-Told ordinal candidate (answered result) w =
        let again = ask (calls.by_username candidate) w in
        after_created-Told ordinal result again.0 again.1

    after_lookup-Told :
        (ordinal : ℕ) (candidate : Text) (a : Answer (Option Profile)) (w : World W)
        → Told (after_lookup calls outside job ordinal candidate next a w)
    after_lookup-Told ordinal candidate (failed e) w = fail-IsReported job.order _ true w
    after_lookup-Told ordinal candidate (answered none) w =
        let made = ask (calls.new_user (new_profile job candidate)) w in
        after_creation-Told ordinal candidate made.0 made.1
    after_lookup-Told ordinal candidate (answered (some p)) w =
        elim (Bool-cases (has_marker (provisioning_marker job.order.transaction_id) p)) [
          | inl marked ↦ rw marked tt
          | inr foreign ↦ rw foreign (go w)
        ]

    attempt-Told :
        (ordinal : ℕ) (name : Result Text) (w : World W)
        → Told (attempt calls outside job ordinal next name w)
    attempt-Told ordinal (err e) w = tt
    attempt-Told ordinal (ok candidate) w =
        let occupied = ask (calls.by_username candidate) w in
        after_lookup-Told ordinal candidate occupied.0 occupied.1

  try_usernames-Told :
      (attempts ordinal : ℕ) (w : World W)
      → Told (try_usernames calls outside job attempts ordinal w)
  try_usernames-Told zero ordinal w =
      fail-IsReported job.order "rw_username_allocation_failed" false w
  try_usernames-Told (suc n) ordinal w =
      attempt-Told (try_usernames calls outside job n (suc ordinal))
        (try_usernames-Told n (suc ordinal)) ordinal
        (build_remnawave_username outside.lower job.tg_username job.order.user_id ordinal) w

  pub allocate-Told :
      (w : World W)
      → IsFound job.order (allocate calls outside job w).0 (allocate calls outside job w).1.db
  unfolding allocate
  allocate-Told w = try_usernames-Told 100 job.subscription_count w
