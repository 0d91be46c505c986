-- ===== src/Merge/Links.antt =====
-- The links between accounts and profiles under `_apply_merge_db` of merge.py.
use mathlib.Core.Path.{subst}
use xray_vpn_bot.Prelude.{
  ℕ, ℤ, ◌≡◌, ◌≢◌, refl, sym, ap, ◌∙◌, ◌⊎◌, inl, inr, true, false, Option, none, some, is_some, List,
  arith, ◌==◌, ==_iff, find, any, count, if◌then◌else◌, Bool-cases, Option-cases,
}
use xray_vpn_bot.Db.{Db, User, UserSubscription}
use xray_vpn_bot.Db.Tables.{by_key}
use xray_vpn_bot.Wallet.{find_user}
use xray_vpn_bot.Subscription.{owned_by, primary_of, get_primary, set_rows}
use xray_vpn_bot.Subscription.Links.{IsLinked, rw_of, has_id, has_rw, key}
use xray_vpn_bot.Merge.Apply.{either_owner, merge_rows, merged_primary, merged_rw, merged}
use xray_vpn_bot.Merge.Rows.{
  merged_primary-row, final-count, final-owned_s, final-owned_l, final-owned_other, final-primary_s,
  final-primary_l, final-primary_other, final-found,
}
use xray_vpn_bot.Merge.Primary.{any_either, merged_primary-none, rows_of-none, rows_of-some}
use xray_vpn_bot.Merge.Users.{survivor_row, find_user-merged}

module _ (s l : User) (tg_id : ℤ) (chosen : Option ℕ) (db : Db) (h : IsLinked db)
    (apart : s.id ≢ l.id) (here : find_user s.id db ≡ some s) where
  abbrev rows : List UserSubscription
  rows = db.subscriptions.rows

  abbrev after : Db
  after = merged s l tg_id chosen db

  after-users :
      (v : ℕ)
      → find_user v after ≡ (
          if v == l.id
          then none
          else if v == s.id
          then some (survivor_row s l tg_id chosen db)
          else find_user v db)
  after-users v = find_user-merged s l tg_id chosen db v here

  owners_after :
      ((v : ℕ)
        → v == s.id ≡ false
        → v == l.id ≡ false
        → any (owned_by v) after.subscriptions.rows ≡ any (owned_by v) rows)
      → any (owned_by l.id) after.subscriptions.rows ≡ false
      → (v : ℕ) → any (owned_by v) after.subscriptions.rows ≡ true
      → is_some (find_user v after) ≡ true
  owners_after same none_l v e = elim (Bool-cases (v == l.id)) [
    | inl eq ↦ absurd (ground (arith, ==_iff v l.id))
    | inr not_l ↦ elim (Bool-cases (v == s.id)) [
      | inl eq ↦ ground (arith, after-users v)
      | inr not_s ↦ ground (arith, after-users v, same v, h.owners v)
    ]
  ]

  module _ (none_here : merged_primary s.id l.id db ≡ none) (free : chosen ≡ none) where
    same_rows : after.subscriptions ≡ db.subscriptions
    same_rows = rows_of-none s l tg_id chosen db none_here

    none-mirrored :
        (v : ℕ) (u : User) → find_user v after ≡ some u → u.rw_id ≡ rw_of (get_primary v after)
    none-mirrored v u e =
        let gone = merged_primary-none s.id l.id db none_here in
        let primary : get_primary v after ≡ get_primary v db =
          ap (λ t. find (primary_of v) t.rows) same_rows in
        elim (Bool-cases (v == l.id)) [
          | inl eq ↦ absurd (ground (arith, after-users v))
          | inr not_l ↦ elim (Bool-cases (v == s.id)) [
            | inl eq ↦
                let row : survivor_row s l tg_id chosen db ≡ u = ground (arith, after-users v) in
                let kept : merged_rw (merged_primary s.id l.id db) chosen s.rw_id ≡ s.rw_id =
                  rw (none_here, free) refl in
                let same : v ≡ s.id = ground (arith, ==_iff v s.id) in
                let here_v : find_user v db ≡ some s = ap (λ k. find_user k db) same ∙ here in
                ap (λ (x : User). x.rw_id) (sym row)
                ∙ kept
                ∙ h.mirrored v s here_v
                ∙ ap rw_of (sym primary)
            | inr not_s ↦ h.mirrored v u (ground (arith, after-users v)) ∙ ap rw_of (sym primary)
          ]
        ]

    none-IsLinked : IsLinked after
    none-IsLinked =
        let gone = merged_primary-none s.id l.id db none_here in
        let rows_same = ap (λ t. t.rows) same_rows in
        let next_same = ap (λ t. t.next) same_rows in
        record {
          ids_once = λ k. rw rows_same (h.ids_once k);
          ids_below = λ k le. rw rows_same (h.ids_below k (omega (arith, le, next_same)));
          profiles_once = λ r. rw rows_same (h.profiles_once r);
          owners =
              owners_after (λ v not_s not_l. ap (any (owned_by v)) rows_same)
                (ap (any (owned_by l.id)) rows_same ∙ gone.1);
          one_primary = λ v. rw rows_same (h.one_primary v);
          mirrored = λ v u e. none-mirrored v u e;
        }

  module _ (p : UserSubscription) (chose : merged_primary s.id l.id db ≡ some p) where
    set_after : after.subscriptions ≡ (set_rows (merge_rows s.id l.id p.id) db).subscriptions
    set_after = rows_of-some s l tg_id chosen db p chose

    rows_after : after.subscriptions.rows ≡ merge_rows s.id l.id p.id rows
    rows_after = ap (λ t. t.rows) set_after

    found : by_key key p.id rows ≡ some p
    found = (merged_primary-row s.id l.id db p h chose).0

    owned : either_owner s.id l.id p ≡ true
    owned = (merged_primary-row s.id l.id db p h chose).1

    some-primary :
        (v : ℕ)
        → count (primary_of v) (merge_rows s.id l.id p.id rows)
          ≡ (if any (owned_by v) (merge_rows s.id l.id p.id rows) then 1 else 0)
    some-primary v = elim (Bool-cases (v == l.id)) [
      | inl eq ↦
          let same : v ≡ l.id = ground (arith, ==_iff v l.id) in
          subst
            (λ k.
              count (primary_of k) (merge_rows s.id l.id p.id rows)
              ≡ (if any (owned_by k) (merge_rows s.id l.id p.id rows) then 1 else 0))
            (sym same)
            (ground (
              arith,
              final-primary_l s.id l.id p rows found owned (h.ids_once p.id) apart,
              final-owned_l s.id l.id p rows found owned (h.ids_once p.id) apart,
            ))
      | inr not_l ↦ elim (Bool-cases (v == s.id)) [
        | inl eq ↦
            let same : v ≡ s.id = ground (arith, ==_iff v s.id) in
            subst
              (λ k.
                count (primary_of k) (merge_rows s.id l.id p.id rows)
                ≡ (if any (owned_by k) (merge_rows s.id l.id p.id rows) then 1 else 0))
              (sym same)
              (ground (
                arith,
                final-primary_s s.id l.id p rows found owned (h.ids_once p.id),
                final-owned_s s.id l.id p rows found owned (h.ids_once p.id),
              ))
        | inr not_s ↦
            rw (final-owned_other s.id l.id p rows found owned (h.ids_once p.id) v not_s not_l) (
              (final-primary_other s.id l.id p rows found owned (h.ids_once p.id) v not_s not_l).0
              ∙ h.one_primary v)
      ]
    ]

    some-mirrored :
        (v : ℕ) (u : User)
        → find_user v after ≡ some u
        → u.rw_id ≡ rw_of (find (primary_of v) (merge_rows s.id l.id p.id rows))
    some-mirrored v u e = elim (Bool-cases (v == l.id)) [
      | inl eq ↦ absurd (ground (arith, after-users v))
      | inr not_l ↦ elim (Bool-cases (v == s.id)) [
        | inl eq ↦
            let row : survivor_row s l tg_id chosen db ≡ u = ground (arith, after-users v) in
            let named : merged_rw (merged_primary s.id l.id db) chosen s.rw_id ≡ some p.rw_id =
              rw chose refl in
            let same : v ≡ s.id = ground (arith, ==_iff v s.id) in
            ap (λ (x : User). x.rw_id) (sym row)
            ∙ named
            ∙ ap rw_of (
                sym (
                  ap (λ k. find (primary_of k) (merge_rows s.id l.id p.id rows)) same
                  ∙ final-found s.id l.id p rows found owned (h.ids_once p.id)))
        | inr not_s ↦
            h.mirrored v u (ground (arith, after-users v))
            ∙ ap rw_of (
                sym
                  (final-primary_other s.id l.id p rows found owned (h.ids_once p.id) v not_s
                    not_l).1)
      ]
    ]

    some-IsLinked : IsLinked after
    some-IsLinked =
        let same = final-count s.id l.id p rows found owned (h.ids_once p.id) in
        record {
          ids_once = λ k.
              rw (rows_after, same (has_id k) (λ x. refl) (λ x. refl) (λ x. refl)) (h.ids_once k);
          ids_below = λ k le.
              rw (rows_after, same (has_id k) (λ x. refl) (λ x. refl) (λ x. refl))
                (h.ids_below k (omega (arith, le, ap (λ t. t.next) set_after)));
          profiles_once = λ r.
              rw (rows_after, same (has_rw r) (λ x. refl) (λ x. refl) (λ x. refl))
                (h.profiles_once r);
          owners =
              owners_after
                (λ v not_s not_l.
                  ap (any (owned_by v)) rows_after
                  ∙ final-owned_other s.id l.id p rows found owned (h.ids_once p.id) v not_s not_l)
                (ap (any (owned_by l.id)) rows_after
                  ∙ final-owned_l s.id l.id p rows found owned (h.ids_once p.id) apart);
          one_primary = λ v. rw rows_after (some-primary v);
          mirrored = λ v u e. rw rows_after (some-mirrored v u e);
        }

  -- Two accounts with a profile between them, or with none chosen for them, are merged into one with
  -- all its links in order.
  pub merged-IsLinked :
      (any (either_owner s.id l.id) rows ≡ true) ⊎ (chosen ≡ none) → IsLinked after
  merged-IsLinked e = elim (Option-cases (merged_primary s.id l.id db)) [
    | inr (p, chose) ↦ some-IsLinked p chose
    | inl none_here ↦
        let gone = merged_primary-none s.id l.id db none_here in
        elim e [
          | inl has ↦ absurd (ground (arith, any_either s.id l.id rows))
          | inr free ↦ none-IsLinked none_here free
        ]
  ]
