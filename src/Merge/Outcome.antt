-- ===== src/Merge/Outcome.antt =====
-- The results of `_apply_merge_db` of merge.py.
use xray_vpn_bot.Prelude.{
  ℕ, ℤ, ◌+ℤ◌, ◌≡◌, ◌≢◌, ◌⊎◌, refl, ap, ◌∙◌, true, false, Option, none, some, List, arith, ◌==◌,
  ==_iff, find, select, update_where, if◌then◌else◌, inl, inr, Bool-cases, Option-cases,
}
use xray_vpn_bot.Exec.{ok, err, integrity_error}
use xray_vpn_bot.Db.{Db, User, UserSubscription}
use xray_vpn_bot.Db.Updates.{find-update_same, any-find}
use xray_vpn_bot.Wallet.{find_user, balance_of}
use xray_vpn_bot.Subscription.{owned_by, get_by_rw_id}
use xray_vpn_bot.Subscription.Links.{IsLinked, has_rw, has_id}
use xray_vpn_bot.Subscription.Owners.{owner_of}
use xray_vpn_bot.Merge.Apply.{
  apply_merge_db, collides, merged, merged_primary, merge_rows, either_owner, unprimary, given_to,
  made_primary,
}
use xray_vpn_bot.Merge.Primary.{merged_primary-none, rows_of-none, rows_of-some}
use xray_vpn_bot.Merge.Rows.{merged_primary-row}
use xray_vpn_bot.Merge.Others.{merge_rows-other}
use xray_vpn_bot.Merge.Users.{find_user-merged}

-- The owner after the merge of an account `l` into `s`.
abbrev pub moved_to : ℕ → ℕ → Option ℕ → Option ℕ
moved_to s l none = none
moved_to s l (some o) = some (if o == l then s else o)

-- What a row says beside its owner and its place among the owner's rows.
abbrev pub content_of : Option UserSubscription → Option UserSubscription
content_of none = none
content_of (some x) = some (record x { user_id = 0; is_primary = false })

module _ (s l r : ℕ) (rows : List UserSubscription) where
  -- The updates move every profile of `l` to `s`, and no other.
  merge_rows-owner :
      (k : ℕ)
      → elim (find (has_rw r) (merge_rows s l k rows)) [ none ↦ none | some x ↦ some x.user_id ]
        ≡ moved_to s l (elim (find (has_rw r) rows) [ none ↦ none | some x ↦ some x.user_id ])
  merge_rows-owner k = ground (
    arith,
    find-update_same (has_rw r) (has_id k) made_primary
        (update_where (owned_by l) (given_to s) (update_where (either_owner s l) unprimary rows))
        (λ x. refl),
    find-update_same (has_rw r) (owned_by l) (given_to s)
        (update_where (either_owner s l) unprimary rows) (λ x. refl),
    find-update_same (has_rw r) (either_owner s l) unprimary rows (λ x. refl),
  )

  merge_rows-content :
      (k : ℕ)
      → content_of (find (has_rw r) (merge_rows s l k rows)) ≡ content_of (find (has_rw r) rows)
  merge_rows-content k = ground (
    arith,
    find-update_same (has_rw r) (has_id k) made_primary
        (update_where (owned_by l) (given_to s) (update_where (either_owner s l) unprimary rows))
        (λ x. refl),
    find-update_same (has_rw r) (owned_by l) (given_to s)
        (update_where (either_owner s l) unprimary rows) (λ x. refl),
    find-update_same (has_rw r) (either_owner s l) unprimary rows (λ x. refl),
  )

module _ (s l : User) (tg_id : ℤ) (chosen : Option ℕ) (db : Db) (apart : s.id ≢ l.id)
    (here : find_user s.id db ≡ some s) where
  merged-owners :
      (h : IsLinked db) (r : ℕ)
      → owner_of r (merged s l tg_id chosen db) ≡ moved_to s.id l.id (owner_of r db)
  merged-owners h r = elim (Option-cases (merged_primary s.id l.id db)) [
    | inr (p, chose) ↦
        ap (λ t. elim (find (has_rw r) t.rows) [ none ↦ none | some x ↦ some x.user_id ])
          (rows_of-some s l tg_id chosen db p chose)
        ∙ merge_rows-owner s.id l.id r db.subscriptions.rows p.id
    | inl none_here ↦
        let same =
          ap (λ t. elim (find (has_rw r) t.rows) [ none ↦ none | some x ↦ some x.user_id ])
            (rows_of-none s l tg_id chosen db none_here) in
        let unowned = (merged_primary-none s.id l.id db none_here).1 in
        elim (Option-cases (get_by_rw_id r db)) [
          | inl missing ↦ same ∙ ground arith
          | inr (x, e) ↦ elim (Bool-cases (x.user_id == l.id)) [
            | inr other ↦ same ∙ ground arith
            | inl mine ↦
                absurd (
                  ground
                    (arith, any-find (owned_by l.id) (has_rw r) db.subscriptions.rows x e mine))
          ]
        ]
  ]

  merged-rows_other :
      (h : IsLinked db) (v : ℕ)
      → v ≢ s.id
      → v ≢ l.id
      → select (owned_by v) (merged s l tg_id chosen db).subscriptions.rows
        ≡ select (owned_by v) db.subscriptions.rows
  merged-rows_other h v not_s not_l = elim (Option-cases (merged_primary s.id l.id db)) [
    | inl none_here ↦
        ap (λ t. select (owned_by v) t.rows) (rows_of-none s l tg_id chosen db none_here)
    | inr (p, chose) ↦
        let (found, owned) = merged_primary-row s.id l.id db p h chose in
        ap (λ t. select (owned_by v) t.rows) (rows_of-some s l tg_id chosen db p chose)
        ∙ merge_rows-other s.id l.id v not_s not_l p db.subscriptions.rows found owned
            (h.ids_once p.id)
  ]

  merged-content :
      (r : ℕ)
      → content_of (get_by_rw_id r (merged s l tg_id chosen db)) ≡ content_of (get_by_rw_id r db)
  merged-content r = elim (Option-cases (merged_primary s.id l.id db)) [
    | inl none_here ↦
        ap (λ t. content_of (find (has_rw r) t.rows)) (rows_of-none s l tg_id chosen db none_here)
    | inr (p, chose) ↦
        ap (λ t. content_of (find (has_rw r) t.rows)) (rows_of-some s l tg_id chosen db p chose)
        ∙ merge_rows-content s.id l.id r db.subscriptions.rows p.id
  ]

  -- Two different accounts, the survivor in its table, are merged while the links hold, or a
  -- constraint stands in the way (both have a pending registration, or the column of a third
  -- account names the profile that would lead): then the merge raises and changes nothing.
  -- After a merge the one account is gone, the other has both balances and the profiles of
  -- both, whose rows differ in owner and primary flag alone; all other accounts are as they
  -- were, and so is every row of a profile that another account has.
  pub apply_merge_outcome :
      IsLinked db
      → let (r, db') = apply_merge_db s l tg_id chosen db in
        ((collides s l chosen db ≡ true) × (r ≡ err integrity_error) × (db' ≡ db))
        ⊎ ((collides s l chosen db ≡ false)
            × (r ≡ ok tt)
            × (find_user l.id db' ≡ none)
            × (balance_of (find_user s.id db') ≡ s.bonus_credits +ℤ l.bonus_credits)
            × ((v : ℕ) → v ≢ s.id → v ≢ l.id → find_user v db' ≡ find_user v db)
            × ((v : ℕ)
                → v ≢ s.id
                → v ≢ l.id
                → select (owned_by v) db'.subscriptions.rows
                  ≡ select (owned_by v) db.subscriptions.rows)
            × ((r : ℕ) → owner_of r db' ≡ moved_to s.id l.id (owner_of r db))
            × ((r : ℕ) → content_of (get_by_rw_id r db') ≡ content_of (get_by_rw_id r db)))
  unfolding apply_merge_db
  apply_merge_outcome h = elim (Bool-cases (collides s l chosen db)) [
    | inl both ↦ rw (both, apply_merge_db) (inl (refl, refl, refl))
    | inr one ↦
        rw (one, apply_merge_db)
          (inr (
            refl,
            refl,
            ground (arith, find_user-merged s l tg_id chosen db l.id here, ==_iff l.id l.id),
            ground (
              arith,
              find_user-merged s l tg_id chosen db s.id here,
              ==_iff s.id l.id,
              ==_iff s.id s.id,
            ),
            (λ v not_s not_l.
                ground (
                  arith,
                  find_user-merged s l tg_id chosen db v here,
                  ==_iff v l.id,
                  ==_iff v s.id,
                )),
            (λ v not_s not_l. merged-rows_other h v not_s not_l),
            (λ r. merged-owners h r),
            (λ r. merged-content r),
          ))
  ]
