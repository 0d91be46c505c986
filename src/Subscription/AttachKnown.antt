-- ===== src/Subscription/AttachKnown.antt =====
-- The branch of `attach` of repo/subscriptions.py that refreshes a row the account has already.
use mathlib.Core.Path.{subst}
use xray_vpn_bot.Prelude.{
  ℕ, ◌≤◌, String, ◌≡◌, refl, sym, ap, ◌∙◌, inl, inr, Bool, true, false, ◌&&◌, some, is_some, arith,
  ◌==◌, ==_iff, find_holds, any, count, if◌then◌else◌, Bool-cases,
}
use xray_vpn_bot.Exec.{Result, ok}
use xray_vpn_bot.Db.{Db, User, UserSubscription}
use xray_vpn_bot.Db.Tables.{by_key}
use xray_vpn_bot.Db.Updates.{
  any-update_same, count-update_same, find-update_same, count-update_key, find-update_key,
  find-update_found, find_unique, any-find,
}
use xray_vpn_bot.Wallet.{find_user}
use xray_vpn_bot.Subscription.{
  AttachRequest, owned_by, primary_of, get_by_rw_id, get_primary, change_row, set_user_rw, demoted,
  refreshed, attach_row,
}
use xray_vpn_bot.Subscription.Links.{
  IsLinked, rw_of, has_id, has_rw, find_user-set_user_rw, mirrored_after, key,
}
use xray_vpn_bot.Subscription.Attach.{
  cleared, cleared-rest, cleared-count, cleared-any, cleared-others, cleared-none, mirror_primary,
  mirror_other,
}

module _ (req : AttachRequest) (first : Bool) (now : String) (db : Db) (u : User)
    (s : UserSubscription) where
  abbrev user : ℕ
  user = req.user_id

  abbrev base : Db
  base = cleared user first now db

  abbrev fresh : UserSubscription → UserSubscription
  fresh = refreshed req first now

  abbrev changed : Db
  changed = change_row (has_id s.id) fresh base

  module _ (h : IsLinked db) (known : find_user user db ≡ some u)
      (linked : get_by_rw_id req.rw_id db ≡ some s) (own : s.user_id ≡ user) where
    rw_same : s.rw_id ≡ req.rw_id
    rw_same = ground (
      arith,
      find_holds (has_rw req.rw_id) db.subscriptions.rows s linked,
      ==_iff s.rw_id req.rw_id,
    )

    owner_has : any (owned_by user) db.subscriptions.rows ≡ true
    owner_has =
        any-find (owned_by user) (has_rw req.rw_id) db.subscriptions.rows s linked (ground arith)

    row_at : by_key key s.id db.subscriptions.rows ≡ some s
    row_at =
        find_unique (has_id s.id) (has_rw req.rw_id) db.subscriptions.rows s linked (ground arith)
          (h.ids_once s.id)

    -- The row as the statement before left it.
    abbrev was : UserSubscription
    was = if first && primary_of user s then demoted now s else s

    row_was : by_key key s.id base.subscriptions.rows ≡ some was
    row_was = ground (
      arith,
      row_at,
      find-update_same (has_id s.id) (primary_of user) (demoted now) db.subscriptions.rows
          (λ t. refl),
    )

    ids_base : count (has_id s.id) base.subscriptions.rows ≤ 1
    ids_base = rw (cleared-count user first now db (has_id s.id) (λ t. refl)) (h.ids_once s.id)

    changed-count :
        (q : UserSubscription → Bool)
        → ((t : UserSubscription) → q (demoted now t) ≡ q t)
        → ((t : UserSubscription) → q (fresh t) ≡ q t)
        → count q changed.subscriptions.rows ≡ count q db.subscriptions.rows
    changed-count q d f =
        count-update_same q (has_id s.id) fresh base.subscriptions.rows f
        ∙ cleared-count user first now db q d

    changed-any :
        (v : ℕ)
        → any (owned_by v) changed.subscriptions.rows ≡ any (owned_by v) db.subscriptions.rows
    changed-any v =
        any-update_same (owned_by v) (has_id s.id) fresh base.subscriptions.rows (λ t. refl)
        ∙ cleared-any user first now db (owned_by v) (λ t. refl)

    changed_others : (v : ℕ) → v == user ≡ false → get_primary v changed ≡ get_primary v db
    changed_others v other =
        find-update_key key s.id (primary_of v) fresh base.subscriptions.rows was row_was ids_base
          (ground (arith, own)) (ground (arith, own))
        ∙ (cleared-others user first now db v other).1

    changed_one_primary :
        (v : ℕ)
        → count (primary_of v) changed.subscriptions.rows
          ≡ (if any (owned_by v) changed.subscriptions.rows then 1 else 0)
    changed_one_primary v =
        let step =
          count-update_key key s.id (primary_of v) fresh base.subscriptions.rows was row_was
            ids_base in
        elim (Bool-cases (v == user)) [
          | inl same ↦ ground (
            arith,
            step,
            changed-any v,
            own,
            owner_has,
            h.one_primary v,
            ==_iff v user,
            cleared-none user first now db,
          )
          | inr other ↦ ground (
            arith,
            step,
            changed-any v,
            own,
            h.one_primary v,
            cleared-others user first now db v other,
          )
        ]

    -- What the account's primary is afterwards, when the row is one.
    changed_primary : (fresh s).is_primary ≡ true → rw_of (get_primary user changed) ≡ some s.rw_id
    changed_primary e = elim (Bool-cases first) [
      | inl f ↦
          ap rw_of (
            find-update_found key s.id (primary_of user) fresh base.subscriptions.rows was row_was
              (cleared-none user first now db f) (ground (arith, own)))
          ∙ ground arith
      | inr f ↦
          let was_found =
            find_unique (primary_of user) (has_rw req.rw_id) db.subscriptions.rows s linked
              (ground (arith, own)) (ground (arith, h.one_primary user)) in
          let now_found =
            find-update_same (primary_of user) (has_id s.id) fresh base.subscriptions.rows
              (λ t. ground arith) in
          ground (arith, was_found, now_found)
    ]

    changed_kept :
        (fresh s).is_primary ≡ false
        → rw_of (get_primary user changed) ≡ rw_of (get_primary user db)
    changed_kept e =
        let now_found =
          find-update_same (primary_of user) (has_id s.id) fresh base.subscriptions.rows
            (λ t. ground arith) in
        ground (arith, now_found)

    changed_owners :
        (v : ℕ)
        → any (owned_by v) changed.subscriptions.rows ≡ true
        → is_some (find_user v db) ≡ true
    changed_owners v e = h.owners v (sym (changed-any v) ∙ e)

    changed_ids_below :
        (k : ℕ) → changed.subscriptions.next ≤ k → count (has_id k) changed.subscriptions.rows ≡ 0
    changed_ids_below k b = ground (
      arith,
      changed-count (has_id k) (λ t. refl) (λ t. refl),
      h.ids_below k,
      cleared-rest user first now db,
    )

    IsLinked-primary :
        (fresh s).is_primary ≡ true → IsLinked (set_user_rw user (some s.rw_id) changed)
    IsLinked-primary e = record {
      ids_once = λ k. rw (changed-count (has_id k) (λ t. refl) (λ t. refl)) (h.ids_once k);
      ids_below = changed_ids_below;
      profiles_once =
          λ r. rw (changed-count (has_rw r) (λ t. refl) (λ t. refl)) (h.profiles_once r);
      owners = λ v o. ground (
        arith,
        changed_owners v o,
        find_user-set_user_rw user v (some s.rw_id) changed,
        (cleared-rest user first now db).0,
      );
      one_primary = changed_one_primary;
      mirrored =
          mirrored_after user (some s.rw_id) db changed h (cleared-rest user first now db).0
            (changed_primary e) (λ v other. ap rw_of (changed_others v other));
    }

    IsLinked-other : (fresh s).is_primary ≡ false → IsLinked changed
    IsLinked-other e = record {
      ids_once = λ k. rw (changed-count (has_id k) (λ t. refl) (λ t. refl)) (h.ids_once k);
      ids_below = changed_ids_below;
      profiles_once =
          λ r. rw (changed-count (has_rw r) (λ t. refl) (λ t. refl)) (h.profiles_once r);
      owners = λ v o. rw (cleared-rest user first now db).0 (changed_owners v o);
      one_primary = changed_one_primary;
      mirrored = λ v w f. elim (Bool-cases (v == user)) [
        | inl same ↦ ground (
          arith,
          changed_kept e,
          h.mirrored v w,
          ==_iff v user,
          (cleared-rest user first now db).0,
        )
        | inr other ↦
            ground
              (arith, changed_others v other, h.mirrored v w, (cleared-rest user first now db).0)
      ];
    }

    pub attach_row-known :
        ((attach_row req first now (some s) base).0 ≡ ok (fresh s))
        × IsLinked (attach_row req first now (some s) base).1
    attach_row-known = elim (Bool-cases (fresh s).is_primary) [
      | inl e ↦
          subst (λ (r : Result UserSubscription × Db). (r.0 ≡ ok (fresh s)) × IsLinked r.1)
            (sym (
              mirror_primary user (fresh s) changed u e (
                ap (λ t. by_key (λ (x : User). x.id) user t.rows) (cleared-rest user first now db).0
                ∙ known)))
            (refl, IsLinked-primary e)
      | inr e ↦
          subst (λ (r : Result UserSubscription × Db). (r.0 ≡ ok (fresh s)) × IsLinked r.1)
            (sym (mirror_other user (fresh s) changed e)) (refl, IsLinked-other e)
    ]
