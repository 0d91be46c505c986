-- ===== src/Purchase/Outcome.antt =====
-- The results and the writes of `purchase_with_credits` of repo/credits_pay.py.
use xray_vpn_bot.Prelude.{
  ℕ, ℤ, pos, ◌-ℤ◌, ◌≤ℤ◌, ◌<ℤ◌, String, ◌≡◌, ◌⊎◌, refl, Option, none, some, [], ◌∷◌, ◌++◌, arith,
  ◌==◌, if◌then◌else◌, inl, inr, ℤ-cases,
}
use xray_vpn_bot.Exec.{Result, ok, err, value_error}
use xray_vpn_bot.Db.{Db, User, CreditLedger}
use xray_vpn_bot.Wallet.{
  balance_of, find_user, debit_if_sufficient, get_balance, source_payment, post,
}
use xray_vpn_bot.Wallet.Audit.{find_user-post}
use xray_vpn_bot.Purchase.{
  CreditPurchaseResult, PurchaseRequest, credit_transaction, purchase_with_credits,
}

-- The ledger row of a purchase.
abbrev pub payment_row : PurchaseRequest → String → String → ℤ → ℕ → CreditLedger
payment_row req transaction_id now balance_after id = record {
  id = id;
  user_id = req.user_id;
  amount = pos 0 -ℤ req.points_cost;
  source = source_payment;
  reference = some transaction_id;
  balance_after = balance_after;
  created_at = now;
}

-- What a purchase leaves behind when it goes through: the new balance in the result and the row,
-- one transaction, and one ledger row that names the transaction.
pub record IsPurchased (req : PurchaseRequest) (transaction_id now now_utc : String) (db db' : Db)
    (u : User) (r : Result (Option CreditPurchaseResult)) : Type 0 where
  pub result :
      r
      ≡ ok (
          some (record {
            transaction_id = transaction_id;
            days = req.days;
            tariff_slug = req.tariff_slug;
            points_spent = req.points_cost;
            balance_after = u.bonus_credits -ℤ req.points_cost;
          }))
  pub balances :
      (v : ℕ)
      → balance_of (find_user v db') ≡ (
          if v == req.user_id
          then u.bonus_credits -ℤ req.points_cost
          else balance_of (find_user v db))
  pub recorded :
      db'.transactions ≡ db.transactions ++ credit_transaction req transaction_id now_utc ∷ []
  pub ledgered :
      db'.ledger.rows
      ≡ db.ledger.rows
        ++ payment_row req transaction_id now (u.bonus_credits -ℤ req.points_cost) db.ledger.next
          ∷ []

module _ (req : PurchaseRequest) (transaction_id now now_utc : String) (db : Db) where
  -- The database after a purchase that went through.
  purchased : User → Db
  purchased u =
      let left = u.bonus_credits -ℤ req.points_cost in
      record (post req.user_id (pos 0 -ℤ req.points_cost) left source_payment (some transaction_id)
        now db) {
          transactions = db.transactions ++ credit_transaction req transaction_id now_utc ∷ [];
        }

  purchase_short :
      (u : User)
      → pos 0 <ℤ req.points_cost
      → pos 0 <ℤ req.days
      → find_user req.user_id db ≡ some u
      → u.bonus_credits <ℤ req.points_cost
      → purchase_with_credits req transaction_id now now_utc db ≡ (ok none, db)
  unfolding purchase_with_credits debit_if_sufficient
  purchase_short u cost days found short = ground arith

  purchase_covered :
      (u : User)
      → pos 0 <ℤ req.points_cost
      → pos 0 <ℤ req.days
      → find_user req.user_id db ≡ some u
      → req.points_cost ≤ℤ u.bonus_credits
      → purchase_with_credits req transaction_id now now_utc db ≡ (
        ok (
            some (record {
              transaction_id = transaction_id;
              days = req.days;
              tariff_slug = req.tariff_slug;
              points_spent = req.points_cost;
              balance_after = u.bonus_credits -ℤ req.points_cost;
            })),
        purchased u,
      )
  unfolding purchase_with_credits debit_if_sufficient get_balance purchased
  purchase_covered u cost days found covered = ground (
    arith,
    find_user-post req.user_id (pos 0 -ℤ req.points_cost) (u.bonus_credits -ℤ req.points_cost)
        source_payment (some transaction_id) now req.user_id db u found,
  )

  -- A purchase of positive cost and days by a known user goes through exactly when the balance
  -- covers the cost, with one debit, one transaction and one ledger row that names it;
  -- otherwise it returns None and the database is as it was.
  pub purchase_all_or_nothing :
      (u : User)
      → pos 0 <ℤ req.points_cost
      → pos 0 <ℤ req.days
      → find_user req.user_id db ≡ some u
      → let (r, db') = purchase_with_credits req transaction_id now now_utc db in
        ((req.points_cost ≤ℤ u.bonus_credits)
          × IsPurchased req transaction_id now now_utc db db' u r)
        ⊎ ((u.bonus_credits <ℤ req.points_cost) × (r ≡ ok none) × (db' ≡ db))
  unfolding purchased
  purchase_all_or_nothing u cost days found = elim (ℤ-cases req.points_cost u.bonus_credits) [
    | inl covered ↦ rw (purchase_covered u cost days found covered) (
        inl (
          covered,
          record {
            result = refl;
            balances = λ v.
                find_user-post req.user_id (pos 0 -ℤ req.points_cost)
                  (u.bonus_credits -ℤ req.points_cost) source_payment (some transaction_id) now v db
                  u found;
            recorded = refl;
            ledgered = refl;
          },
        ))
    | inr short ↦ rw (purchase_short u cost days found short) (inr (short, refl, refl))
  ]

  -- A cost or a number of days that is not positive raises ValueError and changes nothing.
  pub purchase_rejects :
      (req.points_cost ≤ℤ pos 0) ⊎ (req.days ≤ℤ pos 0)
      → (purchase_with_credits req transaction_id now now_utc db
          ≡ (err (value_error "points_cost must be positive"), db))
        ⊎ (purchase_with_credits req transaction_id now now_utc db
            ≡ (err (value_error "days must be positive"), db))
  unfolding purchase_with_credits
  purchase_rejects h = ground arith
