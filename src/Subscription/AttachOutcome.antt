-- ===== src/Subscription/AttachOutcome.antt =====
-- The whole of `attach` of repo/subscriptions.py: its results and the links between accounts and
-- profiles.
use mathlib.Core.Path.{subst}
use xray_vpn_bot.Prelude.{
  String, ◌≡◌, refl, sym, ap, ◌∙◌, ◌⊎◌, inl, inr, Bool, true, false, Option, none, some, arith,
  ==_iff, Bool-cases, Option-cases,
}
use xray_vpn_bot.Exec.{Result, ok, err, value_error}
use xray_vpn_bot.Db.{Db, User, UserSubscription}
use xray_vpn_bot.Wallet.{find_user}
use xray_vpn_bot.Subscription.{
  AttachRequest, get_by_rw_id, new_row, refreshed, demote_primary, attach_row, is_foreign,
  makes_primary, attach,
}
use xray_vpn_bot.Subscription.Links.{IsLinked}
use xray_vpn_bot.Subscription.Attach.{cleared-rest, not_first}
use xray_vpn_bot.Subscription.AttachNew.{attach_row-new}
use xray_vpn_bot.Subscription.AttachKnown.{attach_row-known}

-- The profile's row after a call that went through.
abbrev pub row_for : AttachRequest → String → Db → Option UserSubscription → UserSubscription
row_for req now db none = new_row req (makes_primary req db) now db.subscriptions.next
row_for req now db (some s) = refreshed req (makes_primary req db) now s

abbrev pub attached_row : AttachRequest → String → Db → UserSubscription
attached_row req now db = row_for req now db (get_by_rw_id req.rw_id db)

abbrev pub foreign : AttachRequest → Db → Bool
foreign req db = is_foreign req.user_id (get_by_rw_id req.rw_id db)

attach-eq :
    (req : AttachRequest) (now : String) (db : Db) (linked : Option UserSubscription)
    → get_by_rw_id req.rw_id db ≡ linked
    → foreign req db ≡ false
    → let first = makes_primary req db in
      attach req now db ≡ attach_row req first now linked (demote_primary req.user_id first now db)
unfolding attach
attach-eq req now db linked e own = rw (own, e) refl

attach_refuses :
    (req : AttachRequest) (now : String) (db : Db)
    → foreign req db ≡ true
    → attach req now db ≡ (err (value_error "subscription_already_linked"), db)
unfolding attach
attach_refuses req now db e = rw e refl

abbrev Attached : AttachRequest → String → Db → Result UserSubscription × Db → Type 0
Attached req now db (r, db') =
    ((foreign req db ≡ true) × (r ≡ err (value_error "subscription_already_linked")) × (db' ≡ db))
    ⊎ ((foreign req db ≡ false) × (r ≡ ok (attached_row req now db)) × IsLinked db')

Attached-known :
    (req : AttachRequest) (now : String) (db : Db) (u : User) (s : UserSubscription)
    → find_user req.user_id db ≡ some u
    → IsLinked db
    → foreign req db ≡ false
    → get_by_rw_id req.rw_id db ≡ some s
    → Attached req now db (attach req now db)
Attached-known req now db u s known h own linked =
    let first = makes_primary req db in
    let mine : s.user_id ≡ req.user_id = ground (arith, ==_iff s.user_id req.user_id) in
    let done = attach_row-known req first now db u s h known linked mine in
    let row : attached_row req now db ≡ refreshed req first now s =
      ap (row_for req now db) linked in
    subst (Attached req now db) (sym (attach-eq req now db (some s) linked own))
      (inr (own, done.0 ∙ ap ok (sym row), done.1))

Attached-new :
    (req : AttachRequest) (now : String) (db : Db) (u : User)
    → find_user req.user_id db ≡ some u
    → IsLinked db
    → foreign req db ≡ false
    → get_by_rw_id req.rw_id db ≡ none
    → Attached req now db (attach req now db)
Attached-new req now db u known h own unlinked =
    let first = makes_primary req db in
    let done = attach_row-new req first now db u h known unlinked (not_first req db) in
    let next = (cleared-rest req.user_id first now db).1 in
    let row : attached_row req now db ≡ new_row req first now db.subscriptions.next =
      ap (row_for req now db) unlinked in
    subst (Attached req now db) (sym (attach-eq req now db none unlinked own))
      (inr (own, done.0 ∙ ap ok (ap (new_row req first now) next ∙ sym row), done.1))

-- Attaching a profile to a known account succeeds and keeps the links (one primary for each
-- account with subscriptions, named by the account's column, and every profile in one row),
-- unless another account has the profile: then it raises and changes nothing.
pub attach_outcome :
    (req : AttachRequest) (now : String) (db : Db) (u : User)
    → find_user req.user_id db ≡ some u
    → IsLinked db
    → let (r, db') = attach req now db in
      ((foreign req db ≡ true) × (r ≡ err (value_error "subscription_already_linked")) × (db' ≡ db))
      ⊎ ((foreign req db ≡ false) × (r ≡ ok (attached_row req now db)) × IsLinked db')
attach_outcome req now db u known h = elim (Bool-cases (foreign req db)) [
  | inl e ↦ subst (Attached req now db) (sym (attach_refuses req now db e)) (inl (e, refl, refl))
  | inr own ↦ elim (Option-cases (get_by_rw_id req.rw_id db)) [
    | inl unlinked ↦ Attached-new req now db u known h own unlinked
    | inr (s, linked) ↦ Attached-known req now db u s known h own linked
  ]
]
