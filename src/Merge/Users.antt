-- ===== src/Merge/Users.antt =====
-- The users after a merge of merge.py: the survivor's row, and the balances in sum.
use xray_vpn_bot.Prelude.{
  ℕ, ◌≤◌, ℤ, int_laws, parts_of_eq, ◌≡◌, ◌≢◌, sym, ap, ◌∙◌, Bool, not, Option, none, some, arith,
  ◌==◌, ==_iff, count, select, if◌then◌else◌, update_where,
}
use mathlib.Core.Path.{subst}
use xray_vpn_bot.Db.{Db, User}
use xray_vpn_bot.Db.Tables.{by_key}
use xray_vpn_bot.Db.Sums.{
  sum_of, sum_of-update_key, sum_of-delete_key, by_key-delete, by_key-replace, count-replace,
  count-delete,
}
use xray_vpn_bot.Wallet.{find_user}
use xray_vpn_bot.Merge.Apply.{
  merged_user, merged_primary, merge_subscriptions, merged_rw, merged, own_ledger,
}

abbrev pub id_of : User → ℕ
id_of u = u.id

abbrev pub has_user_id : ℕ → User → Bool
has_user_id k u = u.id == k

abbrev pub credits_of : User → ℤ
credits_of u = u.bonus_credits

-- The survivor's row after the merge.
abbrev pub survivor_row : User → User → ℤ → Option ℕ → Db → User
survivor_row s l tg_id chosen db =
    merged_user s l tg_id (merged_rw (merged_primary s.id l.id db) chosen s.rw_id)

merge_subscriptions-users : (s l : ℕ) (db : Db) → (merge_subscriptions s l db).users ≡ db.users
unfolding merge_subscriptions
merge_subscriptions-users s l db = ground arith

merge_subscriptions-ledger : (s l : ℕ) (db : Db) → (merge_subscriptions s l db).ledger ≡ db.ledger
unfolding merge_subscriptions
merge_subscriptions-ledger s l db = ground arith

module _ (s l : User) (tg_id : ℤ) (chosen : Option ℕ) (db : Db) where
  abbrev row : User
  row = survivor_row s l tg_id chosen db

  -- The rows of the users.
  pub merged-users :
      (merged s l tg_id chosen db).users.rows
      ≡ select (λ u. not (u.id == l.id)) (update_where (λ x. x.id == s.id) (λ x. row) db.users.rows)
  unfolding merged
  merged-users =
      ap
        (λ t.
          select (λ (u : User). not (u.id == l.id))
            (update_where (λ x. x.id == s.id) (λ x. row) t.rows))
        (merge_subscriptions-users s.id l.id db)

  pub merged-ledger : (merged s l tg_id chosen db).ledger.rows ≡ own_ledger s.id l.id db.ledger.rows
  unfolding merged
  merged-ledger = ap (λ t. own_ledger s.id l.id t.rows) (merge_subscriptions-ledger s.id l.id db)

  -- A merge leaves one row of the two, and touches no other.
  pub find_user-merged :
      (v : ℕ)
      → find_user s.id db ≡ some s
      → find_user v (merged s l tg_id chosen db)
        ≡ (if v == l.id then none else if v == s.id then some row else find_user v db)
  find_user-merged v found =
      ap (by_key id_of v) merged-users
      ∙ by_key-delete id_of l.id v (update_where (λ x. x.id == s.id) (λ x. row) db.users.rows)
      ∙ ground (arith, by_key-replace id_of row v db.users.rows, ==_iff v s.id)

  module _ (apart : s.id ≢ l.id) (here : find_user s.id db ≡ some s)
      (there : find_user l.id db ≡ some l)
      (once : (k : ℕ) → count (has_user_id k) db.users.rows ≤ 1) where
    -- What both had is in the survivor's balance: the sum of all balances stays.
    pub merged-sum :
        sum_of credits_of (merged s l tg_id chosen db).users.rows ≡ sum_of credits_of db.users.rows
    merged-sum =
        let replaced = update_where (has_user_id s.id) (λ x. row) db.users.rows in
        let put =
          sum_of-update_key credits_of id_of s.id (λ x. row) db.users.rows s here (once s.id) in
        let there' : by_key id_of l.id replaced ≡ some l =
          ground (arith, by_key-replace id_of row l.id db.users.rows, ==_iff l.id s.id) in
        let once' : count (has_user_id l.id) replaced ≤ 1 =
          rw (count-replace id_of row l.id db.users.rows) (once l.id) in
        let gone = sum_of-delete_key credits_of id_of l.id replaced l there' once' in
        ap (sum_of credits_of) merged-users
        ∙ omega (int_laws, parts_of_eq _ _ put, parts_of_eq _ _ gone)

    pub merged-once : (k : ℕ) → count (has_user_id k) (merged s l tg_id chosen db).users.rows ≤ 1
    merged-once k =
        let replaced = update_where (has_user_id s.id) (λ x. row) db.users.rows in
        subst (λ rows. count (has_user_id k) rows ≤ 1) (sym merged-users)
          (omega (
            arith,
            count-delete id_of (λ u. not (u.id == l.id)) (has_user_id k) replaced,
            count-replace id_of row k db.users.rows,
            once k,
          ))
