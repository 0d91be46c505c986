-- ===== src/Delivery/Keeps.antt =====
-- What `deliver_android_paid` of delivery.py writes to the database: transactions, and the link of one
-- profile to the account of the order. A property that both keep is kept by the search for a username.
use xray_vpn_bot.Prelude.{
  ℕ, zero, suc, String, Option, none, some, List, Text, inl, inr, Bool-cases,
}
use xray_vpn_bot.Exec.{Exec, Result, ok, err}
use xray_vpn_bot.Db.{Db, Transaction}
use xray_vpn_bot.Panel.{Profile}
use xray_vpn_bot.Delivery.Names.{build_remnawave_username, provisioning_marker}
use xray_vpn_bot.Delivery.World.{Failure, Answer, answered, failed, PanelCalls, Outside, World, ask}
use xray_vpn_bot.Delivery.Link.{attach_subscription}
use xray_vpn_bot.Delivery.Allocate.{
  Job, Found, has_marker, after_failed, after_created, after_creation, after_lookup, attempt,
  try_usernames, allocate, new_profile,
}

pub record KeepsDelivery (P : Db → Type 0) (user_id : ℕ) : Type 0 where
  pub transactions : (db : Db) (ts : List Transaction) → P db → P (record db { transactions = ts })
  pub links :
      (rw : ℕ) (tx source now : String) (db : Db)
      → P db
      → P (attach_subscription user_id rw tx source now db).1

module _ {W : Type 0} (calls : PanelCalls W) (outside : Outside) (job : Job) (P : Db → Type 0)
    (k : KeepsDelivery P job.order.user_id) where
  abbrev In : World W → Type 0
  In w = P w.db

  module _ (next : Exec (World W) Found) (go : (w : World W) → In w → In (next w).1) where
    after_failed_keeps :
        (ordinal : ℕ) (e : Failure) (a : Answer (Option Profile)) (w : World W)
        → In w
        → In (after_failed calls outside job ordinal next e a w).1
    after_failed_keeps ordinal e (failed v) w h = k.transactions w.db _ h
    after_failed_keeps ordinal e (answered none) w h = k.transactions w.db _ h
    after_failed_keeps ordinal e (answered (some p)) w h =
        elim (Bool-cases (has_marker (provisioning_marker job.order.transaction_id) p)) [
          | inl marked ↦ rw marked h
          | inr foreign ↦ rw foreign (go w h)
        ]

    after_created_keeps :
        (ordinal : ℕ) (result : Option Profile) (a : Answer (Option Profile)) (w : World W)
        → In w
        → In (after_created calls outside job ordinal next result a w).1
    after_created_keeps ordinal (some r) (failed v) w h = h
    after_created_keeps ordinal (some r) (answered none) w h = h
    after_created_keeps ordinal none (failed v) w h = k.transactions w.db _ h
    after_created_keeps ordinal none (answered none) w h = k.transactions w.db _ h
    after_created_keeps ordinal result (answered (some p)) w h =
        elim (Bool-cases (has_marker (provisioning_marker job.order.transaction_id) p)) [
          | inl marked ↦ rw marked h
          | inr foreign ↦ rw foreign (go w h)
        ]

    after_creation_keeps :
        (ordinal : ℕ) (candidate : Text) (a : Answer (Option Profile)) (w : World W)
        → In w
        → In (after_creation calls outside job ordinal candidate next a w).1
    after_creation_keeps ordinal candidate (failed e) w h =
        after_failed_keeps ordinal e (ask (calls.by_username candidate) w).0
          (ask (calls.by_username candidate) w).1 h
    after_creation_keeps ordinal candidate (answered result) w h =
        after_created_keeps ordinal result (ask (calls.by_username candidate) w).0
          (ask (calls.by_username candidate) w).1 h

    after_lookup_keeps :
        (ordinal : ℕ) (candidate : Text) (a : Answer (Option Profile)) (w : World W)
        → In w
        → In (after_lookup calls outside job ordinal candidate next a w).1
    after_lookup_keeps ordinal candidate (failed e) w h = k.transactions w.db _ h
    after_lookup_keeps ordinal candidate (answered none) w h =
        let made = ask (calls.new_user (new_profile job candidate)) w in
        after_creation_keeps ordinal candidate made.0 made.1 h
    after_lookup_keeps ordinal candidate (answered (some p)) w h =
        elim (Bool-cases (has_marker (provisioning_marker job.order.transaction_id) p)) [
          | inl marked ↦ rw marked h
          | inr foreign ↦ rw foreign (go w h)
        ]

    attempt_keeps :
        (ordinal : ℕ) (name : Result Text) (w : World W)
        → In w
        → In (attempt calls outside job ordinal next name w).1
    attempt_keeps ordinal (err e) w h = h
    attempt_keeps ordinal (ok candidate) w h =
        after_lookup_keeps ordinal candidate (ask (calls.by_username candidate) w).0
          (ask (calls.by_username candidate) w).1 h

  try_usernames_keeps :
      (attempts ordinal : ℕ) (w : World W)
      → In w
      → In (try_usernames calls outside job attempts ordinal w).1
  try_usernames_keeps zero ordinal w h = k.transactions w.db _ h
  try_usernames_keeps (suc n) ordinal w h =
      attempt_keeps (try_usernames calls outside job n (suc ordinal))
        (try_usernames_keeps n (suc ordinal)) ordinal
        (build_remnawave_username outside.lower job.tg_username job.order.user_id ordinal) w h

  pub allocate_keeps : (w : World W) → In w → In (allocate calls outside job w).1
  unfolding allocate
  allocate_keeps w h = try_usernames_keeps 100 job.subscription_count w h
