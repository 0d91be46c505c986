-- ===== src/Delivery/Links.antt =====
-- Properties that `_attach_subscription` of delivery.py keeps.
use xray_vpn_bot.Prelude.{
  ℕ, String, ◌≡◌, true, none, some, is_some, List, arith, inl, inr, Bool-cases, Option-cases,
}
use xray_vpn_bot.Db.{Db, Transaction}
use xray_vpn_bot.Wallet.{find_user}
use xray_vpn_bot.Subscription.{get_by_rw_id}
use xray_vpn_bot.Subscription.Frame.{KeepsProfiles}
use xray_vpn_bot.Subscription.Links.{IsLinked, find_user-set_user_rw}
use xray_vpn_bot.Subscription.Owners.{owner_of}
use xray_vpn_bot.Delivery.Link.{attach_subscription, link_profile, subscription_owner, is_other}
use xray_vpn_bot.Delivery.Attached.{owner_of-link, link_profile-keeps, link_profile-IsLinked}
use xray_vpn_bot.Delivery.Keeps.{KeepsDelivery}

module _ (user_id rw_id : ℕ) (tx source now : String) (db : Db) where
  attach_subscription_keeps :
      (P : Db → Type 0)
      → ((d : Db) (ts : List Transaction) → P d → P (record d { transactions = ts }))
      → (get_by_rw_id rw_id db ≡ none → P (link_profile user_id rw_id source now db))
      → P db
      → P (attach_subscription user_id rw_id tx source now db).1
  unfolding attach_subscription
  attach_subscription_keeps P t link h =
      elim (Bool-cases (is_other user_id (subscription_owner rw_id db))) [
        | inl conflict ↦ rw (conflict, attach_subscription) h
        | inr own ↦ elim (Option-cases (get_by_rw_id rw_id db)) [
          | inr (s, linked) ↦ rw (own, linked, attach_subscription) (t db _ h)
          | inl unlinked ↦ rw (own, unlinked, attach_subscription) (t _ _ (link unlinked))
        ]
      ]

-- What holds of links and of transactions holds of what a delivery writes.
pub profiles-KeepsDelivery :
    (P : Db → Type 0) (user_id : ℕ)
    → KeepsProfiles P
    → ((db : Db) (ts : List Transaction) → P db → P (record db { transactions = ts }))
    → KeepsDelivery P user_id
profiles-KeepsDelivery P user_id k t = record {
  transactions = t;
  links = λ rw_id tx source now db h.
      attach_subscription_keeps user_id rw_id tx source now db P t
        (λ unlinked. link_profile-keeps user_id rw_id source now db P k h) h;
}

pub owners-KeepsDelivery : (user_id r o : ℕ) → KeepsDelivery (λ db. owner_of r db ≡ some o) user_id
owners-KeepsDelivery user_id r o = record {
  transactions = λ db ts h. h;
  links = λ rw_id tx source now db h.
      attach_subscription_keeps user_id rw_id tx source now db (λ d. owner_of r d ≡ some o)
        (λ d ts e. e) (λ unlinked. owner_of-link user_id rw_id source now db r o h) h;
}

pub record IsServed (user_id : ℕ) (db : Db) : Type 0 where
  pub links : IsLinked db
  pub known : is_some (find_user user_id db) ≡ true

is_known-KeepsProfiles : (v : ℕ) → KeepsProfiles (λ db. is_some (find_user v db) ≡ true)
is_known-KeepsProfiles v = record {
  profiles = λ db t h. h;
  column = λ user_id rw db h. ground (arith, h, find_user-set_user_rw user_id v rw db);
}

pub IsLinked-transactions :
    (db : Db) (ts : List Transaction) → IsLinked db → IsLinked (record db { transactions = ts })
IsLinked-transactions db ts h = record {
  ids_once = h.ids_once;
  ids_below = h.ids_below;
  profiles_once = h.profiles_once;
  owners = h.owners;
  one_primary = h.one_primary;
  mirrored = h.mirrored;
}

pub IsServed-KeepsDelivery : (user_id : ℕ) → KeepsDelivery (IsServed user_id) user_id
IsServed-KeepsDelivery user_id = record {
  transactions = λ db ts h. record { links = IsLinked-transactions db ts h.links; known = h.known };
  links = λ rw_id tx source now db h. record {
    links = elim (Option-cases (find_user user_id db)) [
      | inl missing ↦ absurd (ground (arith, h.known))
      | inr (u, found) ↦
          attach_subscription_keeps user_id rw_id tx source now db IsLinked IsLinked-transactions
            (λ unlinked. link_profile-IsLinked user_id rw_id source now db u found unlinked h.links)
            h.links
    ];
    known =
        attach_subscription_keeps user_id rw_id tx source now db
          (λ d. is_some (find_user user_id d) ≡ true) (λ d ts e. e)
          (λ unlinked.
            link_profile-keeps user_id rw_id source now db
              (λ d. is_some (find_user user_id d) ≡ true) (is_known-KeepsProfiles user_id) h.known)
          h.known;
  };
}
