-- ===== src/Subscription/AttachNew.antt =====
-- The branch of `attach` of repo/subscriptions.py that inserts a row.
use mathlib.Core.Path.{subst}
use xray_vpn_bot.Prelude.{
  ℕ, ◌+◌, ◌≤◌, String, ◌≡◌, refl, sym, ap, ◌∙◌, inl, inr, Bool, true, false, ◌||◌, none, some,
  is_some, [], ◌∷◌, arith, ◌==◌, ==_iff, any, any-append, count, count-append, if◌then◌else◌,
  Bool-cases,
}
use xray_vpn_bot.Exec.{Result, ok}
use xray_vpn_bot.Db.{Db, User, UserSubscription}
use xray_vpn_bot.Db.Tables.{by_key, insert}
use xray_vpn_bot.Db.Updates.{count-find-none, find-append_unseen, find-append_first}
use xray_vpn_bot.Wallet.{find_user}
use xray_vpn_bot.Subscription.{
  AttachRequest, owned_by, primary_of, get_by_rw_id, get_primary, set_user_rw, demoted, new_row,
  attach_row,
}
use xray_vpn_bot.Subscription.Links.{
  IsLinked, rw_of, has_id, has_rw, find_user-set_user_rw, mirrored_after,
}
use xray_vpn_bot.Subscription.Attach.{
  cleared, cleared-rest, cleared-count, cleared-any, cleared-others, cleared-none, mirror_primary,
  mirror_other,
}

module _ (req : AttachRequest) (first : Bool) (now : String) (db : Db) (u : User) where
  abbrev user : ℕ
  user = req.user_id

  abbrev base : Db
  base = cleared user first now db

  abbrev row : UserSubscription
  row = new_row req first now base.subscriptions.next

  abbrev added : Db
  added = record base { subscriptions = insert (new_row req first now) base.subscriptions }

  module _ (h : IsLinked db) (known : find_user user db ≡ some u)
      (unlinked : get_by_rw_id req.rw_id db ≡ none)
      (had : first ≡ false → any (owned_by user) db.subscriptions.rows ≡ true) where
    added-count :
        (q : UserSubscription → Bool)
        → ((s : UserSubscription) → q (demoted now s) ≡ q s)
        → count q added.subscriptions.rows
          ≡ count q db.subscriptions.rows + (if q row then 1 else 0)
    added-count q d =
        count-append q base.subscriptions.rows (row ∷ [])
        ∙ ground (arith, cleared-count user first now db q d)

    added-any :
        (v : ℕ)
        → any (owned_by v) added.subscriptions.rows
          ≡ (any (owned_by v) db.subscriptions.rows || user == v)
    added-any v =
        any-append (owned_by v) base.subscriptions.rows (row ∷ [])
        ∙ ground (arith, cleared-any user first now db (owned_by v) (λ s. refl))

    added_ids_once : (k : ℕ) → count (has_id k) added.subscriptions.rows ≤ 1
    added_ids_once k = ground (
      arith,
      added-count (has_id k) (λ s. refl),
      h.ids_once k,
      h.ids_below k,
      cleared-rest user first now db,
      ==_iff base.subscriptions.next k,
    )

    added_ids_below :
        (k : ℕ) → added.subscriptions.next ≤ k → count (has_id k) added.subscriptions.rows ≡ 0
    added_ids_below k b = ground (
      arith,
      added-count (has_id k) (λ s. refl),
      h.ids_below k,
      cleared-rest user first now db,
      ==_iff base.subscriptions.next k,
    )

    added_profiles_once : (r : ℕ) → count (has_rw r) added.subscriptions.rows ≤ 1
    added_profiles_once r = ground (
      arith,
      added-count (has_rw r) (λ s. refl),
      h.profiles_once r,
      count-find-none (has_rw req.rw_id) db.subscriptions.rows unlinked,
      ==_iff req.rw_id r,
    )

    added_owners :
        (v : ℕ) → any (owned_by v) added.subscriptions.rows ≡ true → is_some (find_user v db) ≡ true
    added_owners v e = ground (arith, added-any v, h.owners v, known, ==_iff user v)

    added_one_primary :
        (v : ℕ)
        → count (primary_of v) added.subscriptions.rows
          ≡ (if any (owned_by v) added.subscriptions.rows then 1 else 0)
    added_one_primary v =
        let appended = count-append (primary_of v) base.subscriptions.rows (row ∷ []) in
        ground (
          arith,
          appended,
          added-any v,
          h.one_primary v,
          ==_iff user v,
          ==_iff v user,
          had,
          cleared-none user first now db,
          cleared-others user first now db v,
        )

    added_others : (v : ℕ) → v == user ≡ false → get_primary v added ≡ get_primary v db
    added_others v other =
        find-append_unseen (primary_of v) base.subscriptions.rows row (ground arith)
        ∙ (cleared-others user first now db v other).1

    added_first : first ≡ true → get_primary user added ≡ some row
    added_first e =
        find-append_first (primary_of user) base.subscriptions.rows row
          (cleared-none user first now db e) (ground arith)

    added_second : first ≡ false → get_primary user added ≡ get_primary user db
    added_second e =
        find-append_unseen (primary_of user) base.subscriptions.rows row (ground arith)
        ∙ ground arith

    IsLinked-first : first ≡ true → IsLinked (set_user_rw user (some req.rw_id) added)
    IsLinked-first e = record {
      ids_once = added_ids_once;
      ids_below = added_ids_below;
      profiles_once = added_profiles_once;
      owners = λ v o. ground (
        arith,
        added_owners v o,
        find_user-set_user_rw user v (some req.rw_id) added,
        (cleared-rest user first now db).0,
      );
      one_primary = added_one_primary;
      mirrored =
          mirrored_after user (some req.rw_id) db added h (cleared-rest user first now db).0
            (ap rw_of (added_first e)) (λ v other. ap rw_of (added_others v other));
    }

    IsLinked-second : first ≡ false → IsLinked added
    IsLinked-second e = record {
      ids_once = added_ids_once;
      ids_below = added_ids_below;
      profiles_once = added_profiles_once;
      owners = λ v o. rw (cleared-rest user first now db).0 (added_owners v o);
      one_primary = added_one_primary;
      mirrored = λ v w f. elim (Bool-cases (v == user)) [
        | inl same ↦ ground (
          arith,
          added_second e,
          h.mirrored v w,
          ==_iff v user,
          (cleared-rest user first now db).0,
        )
        | inr other ↦
            ground (arith, added_others v other, h.mirrored v w, (cleared-rest user first now db).0)
      ];
    }

    pub attach_row-new :
        ((attach_row req first now none base).0 ≡ ok row)
        × IsLinked (attach_row req first now none base).1
    attach_row-new = elim (Bool-cases first) [
      | inl e ↦
          subst (λ (r : Result UserSubscription × Db). (r.0 ≡ ok row) × IsLinked r.1)
            (sym (
              mirror_primary user row added u e (
                ap (λ t. by_key (λ (x : User). x.id) user t.rows) (cleared-rest user first now db).0
                ∙ known)))
            (refl, IsLinked-first e)
      | inr e ↦
          subst (λ (r : Result UserSubscription × Db). (r.0 ≡ ok row) × IsLinked r.1)
            (sym (mirror_other user row added e)) (refl, IsLinked-second e)
    ]
