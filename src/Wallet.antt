-- ===== src/Wallet.antt =====
-- packages/common_db/common_db/repo/balance.py: the bonus balance of a user and its ledger.
-- The clock's text and Python's integers are arguments; a user is found and locked by primary key.
pub mod Audit
pub mod Runs
use xray_vpn_bot.Prelude.{
  ℕ, ◌+◌, ◌*◌, ◌/◌, ℤ, pos, ◌+ℤ◌, ◌-ℤ◌, ltb_ℤ, leb_ℤ, String, Bool, true, false, Option, none, some,
  ◌==◌, if◌then◌else◌,
}
use xray_vpn_bot.Exec.{Exec, ok, err, value_error, gets}
use xray_vpn_bot.Db.{Db, User, CreditLedger}
use xray_vpn_bot.Db.Tables.{insert, update, by_key}

-- models/credit_ledger.py
abbrev pub source_promo : String
source_promo = "promo"

abbrev pub source_payment : String
source_payment = "payment"

abbrev pub payment_method_bonus_credits : String
payment_method_bonus_credits = "BONUS_CREDITS"

-- math.ceil(discount_percent / 10 * 5). In doubles the product is the exact discount_percent / 2 for
-- every percentage below two million, so the ceiling is taken of that.
unfoldable pub discount_percent_to_credits : ℕ → ℕ
discount_percent_to_credits discount_percent = (discount_percent + 1) / 2

unfoldable pub discount_percent_to_points : ℕ → ℕ
unfolding discount_percent_to_credits
discount_percent_to_points discount_percent = discount_percent_to_credits discount_percent * 10

-- SELECT ... FOR UPDATE by primary key
abbrev pub find_user : ℕ → Db → Option User
find_user user_id db = by_key (λ u. u.id) user_id db.users.rows

-- The balance column of a user's row, 0 for no row.
abbrev pub balance_of : Option User → ℤ
balance_of none = pos 0
balance_of (some u) = u.bonus_credits

unfoldable pub get_balance : ℕ → Exec Db ℤ
get_balance user_id = gets (λ db. balance_of (find_user user_id db))

-- The part of `credit` and `debit_if_sufficient` after the checks: the balance is assigned to the
-- locked row, and a ledger row with the signed amount and the new balance is flushed.
abbrev pub post : ℕ → ℤ → ℤ → String → Option String → String → Db → Db
post user_id amount new_balance source reference now db = record db {
  users = update (λ u. u.id == user_id) (λ u. record u { bonus_credits = new_balance }) db.users;
  ledger =
      insert
        (λ id. record {
          id = id;
          user_id = user_id;
          amount = amount;
          source = source;
          reference = reference;
          balance_after = new_balance;
          created_at = now;
        })
        db.ledger;
}

unfoldable pub credit : ℕ → ℤ → String → Option String → String → Exec Db ℤ
credit user_id amount source reference now db =
    if leb_ℤ amount (pos 0)
    then (err (value_error "credit amount must be positive"), db)
    else elim (find_user user_id db) [
      | none ↦ (err (value_error "user not found"), db)
      | some user ↦
          let new_balance = user.bonus_credits +ℤ amount in
          (ok new_balance, post user_id amount new_balance source reference now db)
    ]

unfoldable pub debit_if_sufficient : ℕ → ℤ → String → Option String → String → Exec Db Bool
debit_if_sufficient user_id amount source reference now db =
    if leb_ℤ amount (pos 0)
    then (err (value_error "debit amount must be positive"), db)
    else elim (find_user user_id db) [
      | none ↦ (ok false, db)
      | some user ↦ if ltb_ℤ user.bonus_credits amount then (ok false, db) else (
        ok true,
        post user_id (pos 0 -ℤ amount) (user.bonus_credits -ℤ amount) source reference now db,
      )
    ]
