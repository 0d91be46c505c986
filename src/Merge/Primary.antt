-- ===== src/Merge/Primary.antt =====
-- The primary that `_apply_merge_db` of merge.py finds, and the rows after the merge by it.
use xray_vpn_bot.Prelude.{
  ℕ, ℤ, ◌≡◌, refl, ap, inl, inr, false, ◌||◌, Option, none, some, List, [], ◌∷◌, arith, find, any,
  Option-cases, is_some-find,
}
use xray_vpn_bot.Db.{Db, User, UserSubscription}
use xray_vpn_bot.Subscription.{owned_by, primary_of, set_rows}
use xray_vpn_bot.Merge.Apply.{either_owner, merge_rows, merge_subscriptions, merged_primary, merged}

pub any_either :
    (s l : ℕ) (rows : List UserSubscription)
    → any (either_owner s l) rows ≡ (any (owned_by s) rows || any (owned_by l) rows)
any_either s l [] = refl
any_either s l (x ∷ xs) = ground (arith, any_either s l xs)

-- No primary is chosen where neither account has a row.
pub merged_primary-none :
    (s l : ℕ) (db : Db)
    → merged_primary s l db ≡ none
    → (any (owned_by s) db.subscriptions.rows ≡ false)
      × (any (owned_by l) db.subscriptions.rows ≡ false)
      × (find (primary_of s) db.subscriptions.rows ≡ none)
unfolding merged_primary
merged_primary-none s l db e =
    let rows = db.subscriptions.rows in
    elim (Option-cases (find (primary_of s) rows)) [
      | inr (q, found) ↦ absurd (ground arith)
      | inl none_s ↦ elim (Option-cases (find (primary_of l) rows)) [
        | inr (q, found) ↦ absurd (ground arith)
        | inl none_l ↦
            let gone : find (either_owner s l) rows ≡ none = ground arith in
            let unseen = is_some-find (either_owner s l) rows in
            (ground (arith, any_either s l rows), ground (arith, any_either s l rows), none_s)
      ]
    ]

merge_subscriptions-none :
    (s l : ℕ) (db : Db) → merged_primary s l db ≡ none → merge_subscriptions s l db ≡ db
unfolding merge_subscriptions
merge_subscriptions-none s l db e = rw (e, merge_subscriptions) refl

merge_subscriptions-some :
    (s l : ℕ) (db : Db) (p : UserSubscription)
    → merged_primary s l db ≡ some p
    → merge_subscriptions s l db ≡ set_rows (merge_rows s l p.id) db
unfolding merge_subscriptions
merge_subscriptions-some s l db p e = rw (e, merge_subscriptions) refl

-- The rows after a merge, by the primary that it found.
pub rows_of-none :
    (s l : User) (tg_id : ℤ) (chosen : Option ℕ) (db : Db)
    → merged_primary s.id l.id db ≡ none
    → (merged s l tg_id chosen db).subscriptions ≡ db.subscriptions
unfolding merged
rows_of-none s l tg_id chosen db e =
    ap (λ t. t.subscriptions) (merge_subscriptions-none s.id l.id db e)

pub rows_of-some :
    (s l : User) (tg_id : ℤ) (chosen : Option ℕ) (db : Db) (p : UserSubscription)
    → merged_primary s.id l.id db ≡ some p
    → (merged s l tg_id chosen db).subscriptions
      ≡ (set_rows (merge_rows s.id l.id p.id) db).subscriptions
unfolding merged
rows_of-some s l tg_id chosen db p e =
    ap (λ t. t.subscriptions) (merge_subscriptions-some s.id l.id db p e)
