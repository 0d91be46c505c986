-- ===== src/Purchase.antt =====
-- packages/common_db/common_db/repo/credits_pay.py: a tariff paid from the bonus balance, in full.
-- The new transaction id (uuid4) and the texts of the two clocks are arguments.
pub mod Outcome
pub mod Slug
use xray_vpn_bot.Prelude.{
  ℕ, zero, suc, ℤ, pos, leb_ℤ, String, Bool, true, false, Option, none, some, List, [], ◌∷◌, ◌++◌,
  Text, codes, text_eq, starts_with, split, if◌then◌else◌,
}
use xray_vpn_bot.Exec.{Exec, Result, ok, err, value_error, pure, raise_if, modify, ◌>>=◌, ◌>>◌}
use xray_vpn_bot.Db.{Db, Transaction}
use xray_vpn_bot.Wallet.{
  debit_if_sufficient, get_balance, source_payment, payment_method_bonus_credits,
}

pub record CreditPurchaseResult : Type 0 where
  pub transaction_id : String
  pub days : ℤ
  pub tariff_slug : Text
  pub points_spent : ℤ
  pub balance_after : ℤ

-- The keyword arguments of `purchase_with_credits`.
pub record PurchaseRequest : Type 0 where
  pub user_id : ℕ
  pub username : String
  pub points_cost : ℤ
  pub days : ℤ
  pub tariff_slug : Text
  pub android_user_id : Option ℕ
  pub target_rw_id : Option ℕ
  pub purchase_source : String

-- `_, squad_id, marker, external_squad_id = ...`: any other number of parts is the ValueError.
abbrev pub squads_of_parts : List Text → Option Text × Option Text
squads_of_parts (_ ∷ squad_id ∷ marker ∷ external_squad_id ∷ []) =
    if text_eq marker (codes "esid") then (some squad_id, some external_squad_id) else (none, none)
squads_of_parts _ = (none, none)

-- The squads that a slug "sid:<squad>:esid:<external>" names.
unfoldable pub parse_squads : Text → Option Text × Option Text
parse_squads tariff_slug =
    if starts_with tariff_slug (codes "sid:")
    then squads_of_parts (split b':' 3 tariff_slug)
    else (none, none)

-- The row that a purchase adds.
unfoldable pub credit_transaction : PurchaseRequest → String → String → Transaction
unfolding parse_squads
credit_transaction req transaction_id now_utc = record {
  transaction_id = transaction_id;
  vless_uuid = "None";
  username = some req.username;
  order_status = "confirmed";
  delivery_status = 0;
  payment_method = some payment_method_bonus_credits;
  amount = some 0;
  created_at = some now_utc;
  days_ordered = req.days;
  expire_date = none;
  squad_id = (parse_squads req.tariff_slug).0;
  external_squad_id = (parse_squads req.tariff_slug).1;
  provider_invoice_id = none;
  purchase_source = req.purchase_source;
  delivery_error = none;
  user_id = req.user_id;
  android_user_id = req.android_user_id;
  target_rw_id = req.target_rw_id;
}

-- What follows a debit that went through.
abbrev pub record_purchase :
    PurchaseRequest → String → String → Exec Db (Option CreditPurchaseResult)
record_purchase req transaction_id now_utc = do
  balance_after ← get_balance req.user_id
  modify (λ db. record db {
    transactions = db.transactions ++ credit_transaction req transaction_id now_utc ∷ [];
  })
  pure (
      some (record {
        transaction_id = transaction_id;
        days = req.days;
        tariff_slug = req.tariff_slug;
        points_spent = req.points_cost;
        balance_after = balance_after;
      }))

unfoldable pub purchase_with_credits :
    PurchaseRequest → String → String → String → Exec Db (Option CreditPurchaseResult)
purchase_with_credits req transaction_id now now_utc = do
  raise_if (leb_ℤ req.points_cost (pos 0)) (value_error "points_cost must be positive")
  raise_if (leb_ℤ req.days (pos 0)) (value_error "days must be positive")
  debited ← debit_if_sufficient req.user_id req.points_cost source_payment (some transaction_id) now
  if debited then record_purchase req transaction_id now_utc else pure none
