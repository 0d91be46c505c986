-- ===== src/Onboarding/Links.antt =====
-- The operations of repo/subscription_onboarding.py and the links between accounts and profiles.
use mathlib.Core.Path.{subst}
use xray_vpn_bot.Prelude.{
  ℕ, String, ◌≡◌, refl, sym, inl, inr, true, false, Option, none, some, arith, ◌==◌, leb, length,
  if◌then◌else◌, Bool-cases, Option-cases, is_some,
}
use xray_vpn_bot.Exec.{pure, modify, ◌>>◌, bind_post}
use xray_vpn_bot.Db.{Db, User, UserSubscription, PendingOnboarding}
use xray_vpn_bot.Db.Tables.{by_key-update}
use xray_vpn_bot.Wallet.{find_user}
use xray_vpn_bot.Subscription.{AttachRequest, attach, list_for_user, get_by_rw_id, is_foreign}
use xray_vpn_bot.Subscription.Links.{IsLinked}
use xray_vpn_bot.Subscription.AttachOutcome.{attach_outcome}
use xray_vpn_bot.Onboarding.{
  clear, get_active, find_pending, verify_email, first_profile, attach_pending, finish_pending,
  finalize_email_verification, attach_first, initial_report, initial_for, attach_initial, attached,
  already_attached,
}

clear-IsLinked : (user_id : ℕ) (db : Db) → IsLinked db → IsLinked (clear user_id db)
clear-IsLinked user_id db h = record {
  ids_once = h.ids_once;
  ids_below = h.ids_below;
  profiles_once = h.profiles_once;
  owners = h.owners;
  one_primary = h.one_primary;
  mirrored = h.mirrored;
}

verify_email-found :
    (user_id v : ℕ) (text : String) (db : Db)
    → find_user v (verify_email user_id text db) ≡ elim (find_user v db) [
      | none ↦ none
      | some u ↦ some (if v == user_id then record u { email_verified_at = some text } else u)
    ]
verify_email-found user_id v text db =
    by_key-update (λ (u : User). u.id) user_id v
      (λ (u : User). record u { email_verified_at = some text }) db.users.rows (λ (u : User). refl)

verify_email-IsLinked :
    (user_id : ℕ) (text : String) (db : Db) → IsLinked db → IsLinked (verify_email user_id text db)
verify_email-IsLinked user_id text db h = record {
  ids_once = h.ids_once;
  ids_below = h.ids_below;
  profiles_once = h.profiles_once;
  owners = λ v e. ground (arith, h.owners v e, verify_email-found user_id v text db);
  one_primary = h.one_primary;
  mirrored = λ v u e. elim (Option-cases (find_user v db)) [
    | inl missing ↦ absurd (ground (arith, verify_email-found user_id v text db))
    | inr (w, e') ↦ ground (arith, verify_email-found user_id v text db, h.mirrored v w e')
  ];
}

attach-IsLinked :
    (req : AttachRequest) (now : String) (db : Db) (u : User)
    → find_user req.user_id db ≡ some u
    → IsLinked db
    → IsLinked (attach req now db).1
attach-IsLinked req now db u known h = elim (attach_outcome req now db u known h) [
  | inl (_, _, same) ↦ subst IsLinked (sym same) h
  | inr (_, _, linked) ↦ linked
]

get_active-IsLinked :
    (user_id now : ℕ) (db : Db) → IsLinked db → IsLinked (get_active user_id now db).1
unfolding get_active
get_active-IsLinked user_id now db h = elim (Option-cases (find_pending user_id db)) [
  | inl missing ↦ rw (missing, get_active) h
  | inr (row, found) ↦ elim (Bool-cases (leb row.expires_at now)) [
    | inl late ↦ rw (found, get_active) (rw late (clear-IsLinked user_id db h))
    | inr early ↦ rw (found, get_active) (rw early h)
  ]
]

-- The state of an onboarding step: the account is there and the links are right.
abbrev Known : ℕ → Db → Type 0
Known user_id db = (is_some (find_user user_id db) ≡ true) × IsLinked db

get_active-users : (user_id now : ℕ) (db : Db) → (get_active user_id now db).1.users ≡ db.users
unfolding get_active
get_active-users user_id now db = ground arith

attach_pending-IsLinked :
    (user_id profile : ℕ) (text : String) (db : Db) (u : User)
    → find_user user_id db ≡ some u
    → IsLinked db
    → IsLinked (attach_pending user_id profile text db).1
unfolding attach_pending
attach_pending-IsLinked user_id profile text db u known h =
    elim (Bool-cases (is_foreign user_id (get_by_rw_id profile db))) [
      | inl foreign ↦ rw foreign (clear-IsLinked user_id db h)
      | inr own ↦ rw own (
          bind_post IsLinked IsLinked
            (attach (first_profile user_id profile "subscription_page_registration") text)
            (λ _.
              modify (clear user_id)
              >> pure (if is_some (get_by_rw_id profile db) then already_attached else attached))
            db
            (attach-IsLinked (first_profile user_id profile "subscription_page_registration") text
              db u known h)
            (λ _ t ht. clear-IsLinked user_id t ht) (λ t ht. ht))
    ]

finish_pending-IsLinked :
    (user_id : ℕ) (text : String) (pending : Option PendingOnboarding) (db : Db)
    → is_some (find_user user_id db) ≡ true
    → IsLinked db
    → IsLinked (finish_pending user_id text pending db).1
finish_pending-IsLinked user_id text none db known h = h
finish_pending-IsLinked user_id text (some pending) db known h =
    elim (Bool-cases (length (list_for_user user_id db) == 0)) [
      | inr several ↦ rw several (clear-IsLinked user_id db h)
      | inl empty ↦ elim (Option-cases pending.rw_id) [
        | inl no_profile ↦ rw (empty, no_profile) h
        | inr (profile, named) ↦ elim (Option-cases (find_user user_id db)) [
          | inl missing ↦ absurd (ground arith)
          | inr (u, found) ↦
              rw (empty, named) (attach_pending-IsLinked user_id profile text db u found h)
        ]
      ]
    ]

-- Proving an e-mail address keeps the links, whatever waits for the account.
pub finalize-IsLinked :
    (user_id now : ℕ) (text : String) (db : Db)
    → IsLinked db
    → IsLinked (finalize_email_verification user_id now text db).1
unfolding finalize_email_verification
finalize-IsLinked user_id now text db h = elim (Option-cases (find_user user_id db)) [
  | inl missing ↦ rw (missing, finalize_email_verification) h
  | inr (u, found) ↦
      let verified = verify_email user_id text db in
      let known : is_some (find_user user_id verified) ≡ true =
        ground (arith, verify_email-found user_id user_id text db) in
      rw (found, finalize_email_verification)
        (bind_post (Known user_id) IsLinked (get_active user_id now) (finish_pending user_id text)
          verified
          (
            rw (get_active-users user_id now verified) known,
            get_active-IsLinked user_id now verified (verify_email-IsLinked user_id text db h),
          )
          (λ pending t ht. finish_pending-IsLinked user_id text pending t ht.0 ht.1) (λ t ht. ht.1))
]

attach_first-IsLinked :
    (user_id profile : ℕ) (text : String) (db : Db) (u : User)
    → find_user user_id db ≡ some u
    → IsLinked db
    → IsLinked (attach_first user_id profile text db).1
unfolding attach_first
attach_first-IsLinked user_id profile text db u known h =
    bind_post IsLinked IsLinked
      (attach (first_profile user_id profile "subscription_page_oauth") text)
      (initial_report user_id) db
      (attach-IsLinked (first_profile user_id profile "subscription_page_oauth") text db u known h)
      (λ _ t ht. clear-IsLinked user_id t ht) (λ t ht. ht)

initial_for-IsLinked :
    (user_id profile : ℕ) (text : String) (owner : Option UserSubscription) (db : Db) (u : User)
    → find_user user_id db ≡ some u
    → IsLinked db
    → IsLinked (initial_for user_id profile text owner db).1
initial_for-IsLinked user_id profile text none db u known h =
    elim (Bool-cases (length (list_for_user user_id db) == 0)) [
      | inl empty ↦ rw empty (attach_first-IsLinked user_id profile text db u known h)
      | inr several ↦ rw several (clear-IsLinked user_id db h)
    ]
initial_for-IsLinked user_id profile text (some owner) db u known h =
    elim (Bool-cases (owner.user_id == user_id)) [
      | inl own ↦ rw own (clear-IsLinked user_id db h)
      | inr foreign ↦ rw foreign h
    ]

-- Offering a first profile to an account keeps the links, whether it is attached or refused.
pub attach_initial-IsLinked :
    (user_id profile : ℕ) (text : String) (db : Db)
    → IsLinked db
    → IsLinked (attach_initial user_id profile text db).1
unfolding attach_initial
attach_initial-IsLinked user_id profile text db h = elim (Option-cases (find_user user_id db)) [
  | inl missing ↦ rw (missing, attach_initial) h
  | inr (u, found) ↦
      rw (found, attach_initial)
        (initial_for-IsLinked user_id profile text (get_by_rw_id profile db) db u found h)
]

-- An account that has profiles keeps the tables of profiles and of users as they are, whatever
-- profile is offered.
pub attach_initial-nonempty :
    (user_id profile : ℕ) (text : String) (db : Db)
    → length (list_for_user user_id db) == 0 ≡ false
    → let db' = (attach_initial user_id profile text db).1 in
      (db'.subscriptions ≡ db.subscriptions) × (db'.users ≡ db.users)
unfolding attach_initial
attach_initial-nonempty user_id profile text db several = ground arith
