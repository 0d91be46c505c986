-- ===== src/Delivery/Attached.antt =====
-- The link that `_attach_subscription` of delivery.py inserts, beside the one of `attach` in
-- repo/subscriptions.py.
use Prim.Native.String
use mathlib.Core.Path.{subst}
use xray_vpn_bot.Prelude.{
  ℕ, String, ◌≡◌, refl, sym, ap, ◌∙◌, Bool, true, false, none, some, List, [], ◌∷◌, arith, ◌==◌,
  ==_iff, any, count, find-append, update_where, if◌then◌else◌, inl, inr, Bool-cases,
}
use xray_vpn_bot.Exec.{Result}
use xray_vpn_bot.Db.{Db, User, UserSubscription}
use xray_vpn_bot.Db.Tables.{insert}
use xray_vpn_bot.Wallet.{find_user}
use xray_vpn_bot.Subscription.Attach.{length-list_for_user}
use xray_vpn_bot.Subscription.{
  AttachRequest, attach, makes_primary, attach_row, demote_primary, demoted, primary_of, owned_by,
  get_by_rw_id, count_for_user, set_user_rw,
}
use xray_vpn_bot.Subscription.Frame.{KeepsProfiles}
use xray_vpn_bot.Subscription.Links.{IsLinked}
use xray_vpn_bot.Subscription.AttachNew.{attach_row-new}
use xray_vpn_bot.Subscription.Owners.{owner_of}
use xray_vpn_bot.Delivery.Link.{link_profile, bought_row, cut_string}

module _ (user_id rw_id : ℕ) (source now : String) (db : Db) where
  -- A new row stands behind the others.
  pub owner_of-link :
      (r o : ℕ)
      → owner_of r db ≡ some o
      → owner_of r (link_profile user_id rw_id source now db) ≡ some o
  unfolding link_profile
  owner_of-link r o had =
      let first = count_for_user user_id db == 0 in
      let row = bought_row user_id rw_id source first now db.subscriptions.next in
      ground (
        arith,
        find-append (λ (s : UserSubscription). s.rw_id == r) db.subscriptions.rows (row ∷ []),
      )

  pub owner_of-linked :
      get_by_rw_id rw_id db ≡ none
      → owner_of rw_id (link_profile user_id rw_id source now db) ≡ some user_id
  unfolding link_profile
  owner_of-linked unlinked =
      let first = count_for_user user_id db == 0 in
      let row = bought_row user_id rw_id source first now db.subscriptions.next in
      ground (
        arith,
        find-append (λ (s : UserSubscription). s.rw_id == rw_id) db.subscriptions.rows (row ∷ []),
        ==_iff rw_id rw_id,
      )

  pub link_profile-keeps :
      (P : Db → Type 0) → KeepsProfiles P → P db → P (link_profile user_id rw_id source now db)
  unfolding link_profile
  link_profile-keeps P k h = elim (Bool-cases (count_for_user user_id db == 0)) [
    | inl first ↦ rw (first, link_profile) (k.column user_id (some rw_id) _ (k.profiles db _ h))
    | inr more ↦ rw (more, link_profile) (k.profiles db _ h)
  ]

unmatched :
    (q : UserSubscription → Bool) (f : UserSubscription → UserSubscription) (v : ℕ)
    (xs : List UserSubscription)
    → ((x : UserSubscription) → q x ≡ true → owned_by v x ≡ true)
    → count (owned_by v) xs ≡ 0
    → update_where q f xs ≡ xs
unmatched q f v [] sub none_owned = refl
unmatched q f v (x ∷ xs) sub none_owned = ground (arith, unmatched q f v xs, sub x)

module _ (user_id rw_id : ℕ) (source now : String) (db : Db) where
  abbrev pub request : AttachRequest
  request = record {
    user_id = user_id;
    rw_id = rw_id;
    source = cut_string 30 (String.◌++◌ "purchase_" source);
    product_key = none;
    label = none;
    make_primary = false;
  }

  demoted_none : count_for_user user_id db ≡ 0 → demote_primary user_id true now db ≡ db
  demoted_none none_owned =
      ap (λ rows. record db { subscriptions = record db.subscriptions { rows = rows } })
        (unmatched (primary_of user_id) (demoted now) user_id db.subscriptions.rows
          (λ x e. ground arith) none_owned)

  abbrev linked_as : Bool → Db
  linked_as first =
      let db' = record db {
        subscriptions = insert (bought_row user_id rw_id source first now) db.subscriptions;
      } in
      if first then set_user_rw user_id (some rw_id) db' else db'

  linked_as-attach_row :
      (u : User) (first : Bool)
      → find_user user_id db ≡ some u
      → (first ≡ true → count_for_user user_id db ≡ 0)
      → linked_as first
        ≡ (attach_row request first now none (demote_primary user_id first now db)).1
  linked_as-attach_row u true known had =
      subst (λ b. linked_as true ≡ (attach_row request true now none b).1)
        (sym (demoted_none (had refl))) (rw known refl)
  linked_as-attach_row u false known had = refl

  -- The rows that `attach_row` writes.
  link_profile-attach_row :
      (u : User)
      → find_user user_id db ≡ some u
      → let first = count_for_user user_id db == 0 in
        link_profile user_id rw_id source now db
        ≡ (attach_row request first now none (demote_primary user_id first now db)).1
  unfolding link_profile
  link_profile-attach_row u known =
      linked_as-attach_row u (count_for_user user_id db == 0) known
        (λ first. ground (arith, ==_iff (count_for_user user_id db) 0))

  pub link_profile-IsLinked :
      (u : User)
      → find_user user_id db ≡ some u
      → get_by_rw_id rw_id db ≡ none
      → IsLinked db
      → IsLinked (link_profile user_id rw_id source now db)
  link_profile-IsLinked u known unlinked h =
      subst IsLinked (sym (link_profile-attach_row u known))
        (attach_row-new request (count_for_user user_id db == 0) now db u h known unlinked
          (λ more. some_owned db.subscriptions.rows more)).1
    where
      some_owned :
          (xs : List UserSubscription)
          → (count (owned_by user_id) xs == 0) ≡ false
          → any (owned_by user_id) xs ≡ true
      some_owned [] e = cc
      some_owned (x ∷ xs) e = ground (arith, some_owned xs)

  makes_primary-count : makes_primary request db ≡ (count_for_user user_id db == 0)
  makes_primary-count = ap (λ n. n == 0) (length-list_for_user user_id db)

  -- For a known account and a profile in no row, the rows and the column that a delivery
  -- writes by its own statements are those that attach writes for a purchase.
  pub link_profile-attach :
      (u : User)
      → find_user user_id db ≡ some u
      → get_by_rw_id rw_id db ≡ none
      → link_profile user_id rw_id source now db ≡ (attach request now db).1
  unfolding attach
  link_profile-attach u known unlinked =
      let called : attach request now db
          ≡ attach_row request (makes_primary request db) now none
              (demote_primary user_id (makes_primary request db) now db) =
        rw (unlinked, attach) refl in
      link_profile-attach_row u known
      ∙ ap (λ first. (attach_row request first now none (demote_primary user_id first now db)).1)
          (sym makes_primary-count)
      ∙ ap (λ (r : Result UserSubscription × Db). r.1) (sym called)
