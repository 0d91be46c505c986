-- ===== src/Subscription/Links.antt =====
-- The links between accounts and profiles as an invariant, and `set_primary` of
-- repo/subscriptions.py.
use mathlib.Core.Path.{subst}
use xray_vpn_bot.Prelude.{
  ℕ, ◌≤◌, String, ◌≡◌, refl, sym, ap, ◌∙◌, inl, inr, Bool, true, false, ◌&&◌, Option, none, some,
  is_some, List, arith, ◌==◌, ==_iff, find_holds, any, count, update_where, if◌then◌else◌,
  Bool-cases, Option-cases,
}
use xray_vpn_bot.Exec.{Result, ok}
use xray_vpn_bot.Db.{Db, User, UserSubscription}
use xray_vpn_bot.Db.Tables.{by_key, by_key-update}
use xray_vpn_bot.Db.Updates.{
  find-update_unseen, count-update_unseen, any-update_same, count-update_same, find-update_same,
  count-update_cleared, find_both, any_both, count-update_key, find-update_key, find-update_found,
}
use xray_vpn_bot.Wallet.{find_user}
use xray_vpn_bot.Subscription.{
  owned_by, primary_of, get_for_user, get_primary, change_row, set_user_rw, demoted, promoted,
  set_primary,
}

abbrev pub rw_of : Option UserSubscription → Option ℕ
rw_of none = none
rw_of (some s) = some s.rw_id

abbrev pub has_id : ℕ → UserSubscription → Bool
has_id k s = s.id == k

abbrev pub has_rw : ℕ → UserSubscription → Bool
has_rw r s = s.rw_id == r

-- Ids and profiles are unique (a primary key and a unique column), an owner exists (a foreign key),
-- an account with subscriptions has one primary, and its column is that profile.
pub record IsLinked (db : Db) : Type 0 where
  pub ids_once : (k : ℕ) → count (has_id k) db.subscriptions.rows ≤ 1
  pub ids_below : (k : ℕ) → db.subscriptions.next ≤ k → count (has_id k) db.subscriptions.rows ≡ 0
  pub profiles_once : (r : ℕ) → count (has_rw r) db.subscriptions.rows ≤ 1
  pub owners :
      (v : ℕ) → any (owned_by v) db.subscriptions.rows ≡ true → is_some (find_user v db) ≡ true
  pub one_primary :
      (v : ℕ)
      → count (primary_of v) db.subscriptions.rows
        ≡ (if any (owned_by v) db.subscriptions.rows then 1 else 0)
  pub mirrored : (v : ℕ) (u : User) → find_user v db ≡ some u → u.rw_id ≡ rw_of (get_primary v db)

-- The user's row after the column is set.
pub find_user-set_user_rw :
    (user_id v : ℕ) (rw : Option ℕ) (db : Db)
    → find_user v (set_user_rw user_id rw db) ≡ elim (find_user v db) [
      | none ↦ none
      | some u ↦ some (if v == user_id then record u { rw_id = rw } else u)
    ]
find_user-set_user_rw user_id v rw db =
    by_key-update (λ (u : User). u.id) user_id v (λ (u : User). record u { rw_id = rw })
      db.users.rows (λ (u : User). refl)

-- A column set to what the primary of the account is, while no other account's primary changed.
pub mirrored_after :
    (user_id : ℕ) (rw : Option ℕ) (db db' : Db)
    → IsLinked db
    → db'.users ≡ db.users
    → rw_of (get_primary user_id db') ≡ rw
    → ((v : ℕ) → v == user_id ≡ false → rw_of (get_primary v db') ≡ rw_of (get_primary v db))
    → (v : ℕ) (u : User) → find_user v (set_user_rw user_id rw db') ≡ some u
    → u.rw_id ≡ rw_of (get_primary v db')
mirrored_after user_id rw db db' h same here others v u e =
    let found = find_user-set_user_rw user_id v rw db' in
    let old : find_user v db' ≡ find_user v db =
      ap (λ t. by_key (λ (x : User). x.id) v t.rows) same in
    elim (Option-cases (find_user v db)) [
      | inl missing ↦ absurd (ground (arith, found, old))
      | inr (w, e') ↦ ground (arith, found, old, h.mirrored v w e', others v, ==_iff v user_id)
    ]

abbrev pub key : UserSubscription → ℕ
key s = s.id

module _ (user_id sid : ℕ) (now : String) (db : Db) (target : UserSubscription) where
  abbrev switched : Db
  switched =
      change_row (has_id target.id) (promoted now) (change_row (owned_by user_id) (demoted now) db)

  abbrev demoted_rows : List UserSubscription
  demoted_rows = update_where (owned_by user_id) (demoted now) db.subscriptions.rows

  module _ (h : IsLinked db) (found : get_for_user user_id sid db ≡ some target) where
    target_keys : (target.id ≡ sid) × (target.user_id ≡ user_id)
    target_keys = ground (
      arith,
      find_holds (λ (s : UserSubscription). s.id == sid && s.user_id == user_id)
          db.subscriptions.rows target found,
    )

    target_row : by_key key target.id db.subscriptions.rows ≡ some target
    target_row =
        subst (λ k. by_key key k db.subscriptions.rows ≡ some target) (sym target_keys.0)
          (find_both (owned_by user_id) (has_id sid) db.subscriptions.rows target (h.ids_once sid)
            found)

    demoted_row : by_key key target.id demoted_rows ≡ some (demoted now target)
    demoted_row =
        find-update_same (has_id target.id) (owned_by user_id) (demoted now) db.subscriptions.rows
          (λ s. refl)
        ∙ ground (arith, target_row, target_keys)

    ids_demoted : count (has_id target.id) demoted_rows ≤ 1
    ids_demoted =
        rw
          (count-update_same (has_id target.id) (owned_by user_id) (demoted now)
            db.subscriptions.rows (λ s. refl))
          (h.ids_once target.id)

    none_left : count (primary_of user_id) demoted_rows ≡ 0
    none_left =
        count-update_cleared (primary_of user_id) (owned_by user_id) (demoted now)
          db.subscriptions.rows (λ s e. ground arith) (λ s e. ground arith)

    promote_key : UserSubscription → Bool
    promote_key = has_id target.id

    -- The other accounts keep their primaries.
    others_keep : (v : ℕ) → v == user_id ≡ false → get_primary v switched ≡ get_primary v db
    others_keep v other =
        find-update_key key target.id (primary_of v) (promoted now) demoted_rows
          (demoted now target) demoted_row ids_demoted (ground (arith, target_keys))
          (ground (arith, target_keys))
        ∙ find-update_unseen (primary_of v) (owned_by user_id) (demoted now) db.subscriptions.rows
            (λ s e. ground arith)

    new_primary : get_primary user_id switched ≡ some (promoted now (demoted now target))
    new_primary =
        find-update_found key target.id (primary_of user_id) (promoted now) demoted_rows
          (demoted now target) demoted_row none_left (ground (arith, target_keys))

    owned_same :
        (v : ℕ)
        → any (owned_by v) switched.subscriptions.rows ≡ any (owned_by v) db.subscriptions.rows
    owned_same v =
        any-update_same (owned_by v) (has_id target.id) (promoted now) demoted_rows (λ s. refl)
        ∙ any-update_same (owned_by v) (owned_by user_id) (demoted now) db.subscriptions.rows
            (λ s. refl)

    count_same :
        (q : UserSubscription → Bool)
        → ((s : UserSubscription) → q (demoted now s) ≡ q s)
        → ((s : UserSubscription) → q (promoted now s) ≡ q s)
        → count q switched.subscriptions.rows ≡ count q db.subscriptions.rows
    count_same q d p =
        count-update_same q (has_id target.id) (promoted now) demoted_rows p
        ∙ count-update_same q (owned_by user_id) (demoted now) db.subscriptions.rows d

    owner_has : any (owned_by user_id) db.subscriptions.rows ≡ true
    owner_has = any_both (owned_by user_id) (has_id sid) db.subscriptions.rows target found

    switched_one_primary :
        (v : ℕ)
        → count (primary_of v) switched.subscriptions.rows
          ≡ (if any (owned_by v) switched.subscriptions.rows then 1 else 0)
    switched_one_primary v =
        let step =
          count-update_key key target.id (primary_of v) (promoted now) demoted_rows
            (demoted now target) demoted_row ids_demoted in
        elim (Bool-cases (v == user_id)) [
          | inl same ↦
              ground
                (arith, step, owned_same v, target_keys, none_left, owner_has, ==_iff v user_id)
          | inr other ↦
              let unseen =
                count-update_unseen (primary_of v) (owned_by user_id) (demoted now)
                  db.subscriptions.rows (λ s e. ground arith) in
              ground (arith, step, owned_same v, target_keys, unseen, h.one_primary v)
        ]

    set_primary-eq :
        set_primary user_id sid now db
        ≡ (ok (some (promoted now target)), set_user_rw user_id (some target.rw_id) switched)
    unfolding set_primary
    set_primary-eq = ground (arith, found, h.owners user_id owner_has)

    switched-IsLinked : IsLinked (set_user_rw user_id (some target.rw_id) switched)
    switched-IsLinked = record {
      ids_once = λ k. rw (count_same (has_id k) (λ s. refl) (λ s. refl)) (h.ids_once k);
      ids_below = λ k b. rw (count_same (has_id k) (λ s. refl) (λ s. refl)) (h.ids_below k b);
      profiles_once = λ r. rw (count_same (has_rw r) (λ s. refl) (λ s. refl)) (h.profiles_once r);
      owners = λ v e. ground (
        arith,
        h.owners v,
        owned_same v,
        find_user-set_user_rw user_id v (some target.rw_id) switched,
      );
      one_primary = switched_one_primary;
      mirrored =
          mirrored_after user_id (some target.rw_id) db switched h refl (ap rw_of new_primary)
            (λ v other. ap rw_of (others_keep v other));
    }

-- Choosing a primary, or naming a subscription that the account does not own, keeps the links:
-- one primary for each account with subscriptions, named by the account's column.
pub set_primary-IsLinked :
    (user_id sid : ℕ) (now : String) (db : Db)
    → IsLinked db
    → IsLinked (set_primary user_id sid now db).1
unfolding set_primary
set_primary-IsLinked user_id sid now db h = elim (Option-cases (get_for_user user_id sid db)) [
  | inl missing ↦ rw (missing, set_primary) h
  | inr (target, found) ↦
      subst (λ (r : Result (Option UserSubscription) × Db). IsLinked r.1)
        (sym (set_primary-eq user_id sid now db target h found))
        (switched-IsLinked user_id sid now db target h found)
]
