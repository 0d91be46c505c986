-- ===== src/Subscription/Detach.antt =====
-- `detach` of repo/subscriptions.py and the links between accounts and profiles.
use mathlib.Core.Path.{subst}
use xray_vpn_bot.Prelude.{
  ℕ, ◌+◌, ◌≤◌, ◌≡◌, refl, sym, ap, ◌∙◌, inl, inr, Bool, true, false, ◌&&◌, not, Option, none, some,
  is_some, List, [], ◌∷◌, arith, ltb, ◌==◌, ==_iff, find, find_holds, any, count, select,
  if◌then◌else◌, Bool-cases, Option-cases,
}
use xray_vpn_bot.Exec.{Result, ok, err, value_error}
use xray_vpn_bot.Db.{Db, UserSubscription}
use xray_vpn_bot.Db.Tables.{by_key}
use xray_vpn_bot.Db.Updates.{find_both, any_both}
use xray_vpn_bot.Wallet.{find_user}
use xray_vpn_bot.Subscription.{
  owned_by, primary_of, get_for_user, get_primary, count_for_user, set_rows, set_user_rw, detach,
}
use xray_vpn_bot.Subscription.Links.{
  IsLinked, rw_of, has_id, has_rw, find_user-set_user_rw, mirrored_after, key,
}

module _ (q : UserSubscription → Bool) (k : ℕ) where
  abbrev others : UserSubscription → Bool
  others s = not (s.id == k)

  kept_all : (xs : List UserSubscription) → count (has_id k) xs ≡ 0 → select others xs ≡ xs
  kept_all [] h = refl
  kept_all (x ∷ xs) h = ground (arith, kept_all xs)

  -- One row goes: a count falls by what that row counted.
  count-others :
      (xs : List UserSubscription) (r : UserSubscription)
      → by_key key k xs ≡ some r
      → count (has_id k) xs ≤ 1
      → count q (select others xs) + (if q r then 1 else 0) ≡ count q xs
  count-others [] r e h = cc
  count-others (x ∷ xs) r e h = ground (arith, kept_all xs, count-others xs r)

  find-others :
      (xs : List UserSubscription) (r : UserSubscription)
      → by_key key k xs ≡ some r
      → count (has_id k) xs ≤ 1
      → q r ≡ false
      → find q (select others xs) ≡ find q xs
  find-others [] r e h was = cc
  find-others (x ∷ xs) r e h was = ground (arith, kept_all xs, find-others xs r)

any_of_count :
    (q : UserSubscription → Bool) (xs : List UserSubscription) → any q xs ≡ not (count q xs == 0)
any_of_count q [] = refl
any_of_count q (x ∷ xs) = ground (arith, any_of_count q xs)

find_of_none :
    (q : UserSubscription → Bool) (xs : List UserSubscription) → count q xs ≡ 0 → find q xs ≡ none
find_of_none q [] h = refl
find_of_none q (x ∷ xs) h = ground (arith, find_of_none q xs)

primaries_owned :
    (v : ℕ) (xs : List UserSubscription) → count (primary_of v) xs ≤ count (owned_by v) xs
primaries_owned v [] = omega arith
primaries_owned v (x ∷ xs) = ground (arith, primaries_owned v xs)

module _ (user_id sid : ℕ) (db : Db) (target : UserSubscription) where
  abbrev removed : Db
  removed = set_rows (select (λ s. not (s.id == target.id))) db

  module _ (h : IsLinked db) (found : get_for_user user_id sid db ≡ some target) where
    target_keys : (target.id ≡ sid) × (target.user_id ≡ user_id)
    target_keys = ground (
      arith,
      find_holds (λ (s : UserSubscription). s.id == sid && s.user_id == user_id)
          db.subscriptions.rows target found,
    )

    target_row : by_key key target.id db.subscriptions.rows ≡ some target
    target_row =
        subst (λ k. by_key key k db.subscriptions.rows ≡ some target) (sym target_keys.0)
          (find_both (owned_by user_id) (has_id sid) db.subscriptions.rows target (h.ids_once sid)
            found)

    removed-count :
        (q : UserSubscription → Bool)
        → count q removed.subscriptions.rows + (if q target then 1 else 0)
          ≡ count q db.subscriptions.rows
    removed-count q =
        count-others q target.id db.subscriptions.rows target target_row (h.ids_once target.id)

    removed-any :
        (v : ℕ)
        → any (owned_by v) removed.subscriptions.rows ≡ true
        → any (owned_by v) db.subscriptions.rows ≡ true
    removed-any v e = ground (
      arith,
      removed-count (owned_by v),
      any_of_count (owned_by v) removed.subscriptions.rows,
      any_of_count (owned_by v) db.subscriptions.rows,
    )

    -- Where the row may go, the counts of primaries stay right.
    removed_one_primary :
        target.is_primary && ltb 1 (count_for_user user_id db) ≡ false
        → (v : ℕ)
        → count (primary_of v) removed.subscriptions.rows
          ≡ (if any (owned_by v) removed.subscriptions.rows then 1 else 0)
    removed_one_primary allowed v = ground (
      arith,
      removed-count (owned_by v),
      removed-count (primary_of v),
      h.one_primary v,
      any_of_count (owned_by v) removed.subscriptions.rows,
      any_of_count (owned_by v) db.subscriptions.rows,
      target_keys,
      ==_iff user_id v,
      primaries_owned v removed.subscriptions.rows,
    )

    kept_others : (v : ℕ) → primary_of v target ≡ false → get_primary v removed ≡ get_primary v db
    kept_others v e =
        find-others (primary_of v) target.id db.subscriptions.rows target target_row
          (h.ids_once target.id) e

    removed_owners :
        (v : ℕ)
        → any (owned_by v) removed.subscriptions.rows ≡ true
        → is_some (find_user v db) ≡ true
    removed_owners v e = h.owners v (removed-any v e)

    removed_last : count_for_user user_id db ≡ 1 → get_primary user_id removed ≡ none
    removed_last one = find_of_none (primary_of user_id) removed.subscriptions.rows (
        ground (
          arith,
          removed-count (owned_by user_id),
          target_keys,
          primaries_owned user_id removed.subscriptions.rows,
        ))

    removed_ids_once : (k : ℕ) → count (has_id k) removed.subscriptions.rows ≤ 1
    removed_ids_once k = omega (arith, removed-count (has_id k), h.ids_once k)

    removed_ids_below :
        (k : ℕ) → removed.subscriptions.next ≤ k → count (has_id k) removed.subscriptions.rows ≡ 0
    removed_ids_below k b = omega (arith, removed-count (has_id k), h.ids_below k b)

    removed_profiles_once : (r : ℕ) → count (has_rw r) removed.subscriptions.rows ≤ 1
    removed_profiles_once r = omega (arith, removed-count (has_rw r), h.profiles_once r)

    IsLinked-last :
        target.is_primary && ltb 1 (count_for_user user_id db) ≡ false
        → count_for_user user_id db ≡ 1
        → IsLinked (set_user_rw user_id none removed)
    IsLinked-last allowed one = record {
      ids_once = removed_ids_once;
      ids_below = removed_ids_below;
      profiles_once = removed_profiles_once;
      owners =
          λ v o. ground (arith, removed_owners v o, find_user-set_user_rw user_id v none removed);
      one_primary = removed_one_primary allowed;
      mirrored =
          mirrored_after user_id none db removed h refl (ap rw_of (removed_last one)) (λ v other.
            ap rw_of
              (kept_others v (ground (arith, target_keys, ==_iff user_id v, ==_iff v user_id))));
    }

    -- A row that is no account's primary.
    IsLinked-more : target.is_primary ≡ false → IsLinked removed
    IsLinked-more plain = record {
      ids_once = removed_ids_once;
      ids_below = removed_ids_below;
      profiles_once = removed_profiles_once;
      owners = removed_owners;
      one_primary = removed_one_primary (ground arith);
      mirrored = λ v u e. h.mirrored v u e ∙ ap rw_of (sym (kept_others v (ground arith)));
    }

    plain :
        target.is_primary && ltb 1 (count_for_user user_id db) ≡ false
        → count_for_user user_id db == 1 ≡ false
        → target.is_primary ≡ false
    plain allowed more = ground (arith, removed-count (owned_by user_id), target_keys)

    detach-refuses :
        target.is_primary && ltb 1 (count_for_user user_id db) ≡ true
        → detach user_id sid db ≡ (err (value_error "primary_change_required"), db)
    unfolding detach
    detach-refuses e = rw (found, detach) (rw e refl)

    detach-last :
        target.is_primary && ltb 1 (count_for_user user_id db) ≡ false
        → count_for_user user_id db ≡ 1
        → detach user_id sid db ≡ (ok (some target), set_user_rw user_id none removed)
    unfolding detach
    detach-last allowed one = ground (
      arith,
      found,
      h.owners user_id
          (any_both (owned_by user_id) (has_id sid) db.subscriptions.rows target found),
    )

    detach-more :
        target.is_primary && ltb 1 (count_for_user user_id db) ≡ false
        → count_for_user user_id db == 1 ≡ false
        → detach user_id sid db ≡ (ok (some target), removed)
    unfolding detach
    detach-more allowed more = rw (found, detach) (rw (allowed, more) refl)

-- Detaching keeps the links, whether it refuses, removes one of several subscriptions or the
-- last.
pub detach-IsLinked : (user_id sid : ℕ) (db : Db) → IsLinked db → IsLinked (detach user_id sid db).1
unfolding detach
detach-IsLinked user_id sid db h = elim (Option-cases (get_for_user user_id sid db)) [
  | inl missing ↦ rw (missing, detach) h
  | inr (target, found) ↦
      elim (Bool-cases (target.is_primary && ltb 1 (count_for_user user_id db))) [
        | inl e ↦
            subst (λ (r : Result (Option UserSubscription) × Db). IsLinked r.1)
              (sym (detach-refuses user_id sid db target h found e)) h
        | inr allowed ↦ elim (Bool-cases (count_for_user user_id db == 1)) [
          | inl one ↦
              let one' : count_for_user user_id db ≡ 1 = ground arith in
              subst (λ (r : Result (Option UserSubscription) × Db). IsLinked r.1)
                (sym (detach-last user_id sid db target h found allowed one'))
                (IsLinked-last user_id sid db target h found allowed one')
          | inr more ↦
              subst (λ (r : Result (Option UserSubscription) × Db). IsLinked r.1)
                (sym (detach-more user_id sid db target h found allowed more))
                (IsLinked-more user_id sid db target h found
                  (plain user_id sid db target h found allowed more))
        ]
      ]
]
