-- ===== src/Merge/Others.antt =====
-- The rows of other accounts under the updates of `_apply_merge_db` in merge.py.
use xray_vpn_bot.Prelude.{
  ℕ, ◌≤◌, ◌≡◌, ◌≢◌, ◌∙◌, true, some, List, arith, ==_iff, count, select, update_where,
}
use xray_vpn_bot.Db.{UserSubscription}
use xray_vpn_bot.Db.Tables.{by_key}
use xray_vpn_bot.Db.Updates.{select-update_unseen, select-update_key}
use xray_vpn_bot.Subscription.{owned_by}
use xray_vpn_bot.Subscription.Links.{has_id, key}
use xray_vpn_bot.Merge.Apply.{either_owner, unprimary, given_to, made_primary, merge_rows}
use xray_vpn_bot.Merge.Rows.{pooled, pooled-row, once-pooled, taken}

module _ (s l v : ℕ) (not_s : v ≢ s) (not_l : v ≢ l) where
  pooled-rows_other :
      (rows : List UserSubscription)
      → select (owned_by v) (pooled s l rows) ≡ select (owned_by v) rows
  pooled-rows_other rows =
      select-update_unseen (owned_by v) (owned_by l) (given_to s)
        (update_where (either_owner s l) unprimary rows)
        (λ x e. ground (arith, ==_iff x.user_id l, ==_iff x.user_id v, ==_iff s v))
      ∙ select-update_unseen (owned_by v) (either_owner s l) unprimary rows
          (λ x e. ground (arith, ==_iff x.user_id l, ==_iff x.user_id s, ==_iff x.user_id v))

  -- Each row of a third account is as it was, and they stand in the same order.
  pub merge_rows-other :
      (p : UserSubscription) (rows : List UserSubscription)
      → by_key key p.id rows ≡ some p
      → either_owner s l p ≡ true
      → count (has_id p.id) rows ≤ 1
      → select (owned_by v) (merge_rows s l p.id rows) ≡ select (owned_by v) rows
  merge_rows-other p rows found owned once =
      select-update_key key p.id (owned_by v) made_primary (pooled s l rows) (taken s l p)
        (pooled-row s l p rows found owned) (once-pooled s l p rows found owned once)
        (ground (arith, ==_iff s v)) (ground (arith, ==_iff s v))
      ∙ pooled-rows_other rows
