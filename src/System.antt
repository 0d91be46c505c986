-- ===== src/System.antt =====
-- The operations that move bonus points, in one step relation: services call them in any order, and
-- each holds the row of the balance locked until it commits.
pub mod Money
pub mod Conserved
pub mod Changes
use xray_vpn_bot.Prelude.{ℕ, ℤ, String, Option, List}
use xray_vpn_bot.Db.{Db}
use xray_vpn_bot.Wallet.{credit, debit_if_sufficient}
use xray_vpn_bot.Purchase.{PurchaseRequest, purchase_with_credits}
use xray_vpn_bot.Giveaway.Tickets.{Env}
use xray_vpn_bot.Promo.Redeem.{redeem_promo}
use xray_vpn_bot.Referral.{record_purchase_and_compute_reward}

pub data Step : Db → Db → Type 0 where
  credits :
      {db : Db} (user_id : ℕ) (amount : ℤ) (source : String) (ref : Option String) (now : String)
      → Step db (credit user_id amount source ref now db).1
  debits :
      {db : Db} (user_id : ℕ) (amount : ℤ) (source : String) (ref : Option String) (now : String)
      → Step db (debit_if_sufficient user_id amount source ref now db).1
  purchases :
      {db : Db} (req : PurchaseRequest) (transaction_id now now_utc : String)
      → Step db (purchase_with_credits req transaction_id now now_utc db).1
  redeems :
      {db : Db} (env : Env) (tg : ℤ) (code : String) (draws : List String) (now : String)
      → Step db (redeem_promo env tg code draws now db).1
  rewards :
      {db : Db} (env : Env) (buyer days : ℤ) (now : String)
      → Step db (record_purchase_and_compute_reward env buyer days now db).1

-- Any number of steps.
pub data Reaches : Db → Db → Type 0 where
  done : {db : Db} → Reaches db db
  more : {a b c : Db} → Step a b → Reaches b c → Reaches a c
