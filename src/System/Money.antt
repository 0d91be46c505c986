-- ===== src/System/Money.antt =====
-- The wallets under sequences of the operations that move bonus points.
use Prim.Native.String
use xray_vpn_bot.Prelude.{
  ℕ, ℤ, pos, ◌+ℤ◌, leb_ℤ, ltb_ℤ, String, inl, inr, Option, none, some, List, Bool-cases,
  Option-cases, if◌then◌else◌,
}
use xray_vpn_bot.Exec.{pure, ◌>>◌, bind_post}
use xray_vpn_bot.Db.{Db, User, Promo, PromoSettings, Transaction, invitee_purchase}
use xray_vpn_bot.Wallet.{credit, debit_if_sufficient, get_balance, source_payment, source_promo}
use xray_vpn_bot.Wallet.Audit.{IsAudited, debit_if_sufficient-IsAudited}
use xray_vpn_bot.Wallet.Runs.{IsSolvent, debit_if_sufficient-IsSolvent}
use xray_vpn_bot.Purchase.{PurchaseRequest, purchase_with_credits, record_purchase}
use xray_vpn_bot.Giveaway.Tickets.{Env}
use xray_vpn_bot.Promo.Keeps.{Keeps, redeem_promo_keeps}
use xray_vpn_bot.Promo.Invariants.{IsAudited-keeps, IsSolvent-keeps}
use xray_vpn_bot.Promo.Lookup.{get_promo_settings, settings_or_default}
use xray_vpn_bot.Referral.{
  reward_points, add_days, add_points, pay_reward, reward_info, purchase_ticket, settle,
  reward_owner, referral_of, record_purchase_and_compute_reward,
}
use xray_vpn_bot.System.{Step, credits, debits, purchases, redeems, rewards, Reaches, done, more}

-- The writes of all the steps.
pub record KeepsAll (P : Db → Type 0) : Type 0 where
  pub writes : Keeps P
  pub transactions : (db : Db) (ts : List Transaction) → P db → P (record db { transactions = ts })
  pub debit :
      (user_id : ℕ) (amount : ℤ) (source : String) (ref : Option String) (now : String) (db : Db)
      → P db
      → P (debit_if_sufficient user_id amount source ref now db).1

module _ (P : Db → Type 0) (k : KeepsAll P) where
  record_purchase_keeps :
      (req : PurchaseRequest) (id now_utc : String) (db : Db)
      → P db
      → P (record_purchase req id now_utc db).1
  unfolding get_balance
  record_purchase_keeps req id now_utc db h = k.transactions db _ h

  purchase_keeps :
      (req : PurchaseRequest) (id now now_utc : String) (db : Db)
      → P db
      → P (purchase_with_credits req id now now_utc db).1
  unfolding purchase_with_credits
  purchase_keeps req id now now_utc db h = elim (Bool-cases (leb_ℤ req.points_cost (pos 0))) [
    | inl bad ↦ rw bad h
    | inr cost ↦ elim (Bool-cases (leb_ℤ req.days (pos 0))) [
      | inl bad ↦ rw (cost, bad) h
      | inr days ↦
          rw (cost, days)
            (bind_post P P
              (debit_if_sufficient req.user_id req.points_cost source_payment (some id) now)
              (λ debited. if debited then record_purchase req id now_utc else pure none) db
              (k.debit req.user_id req.points_cost source_payment (some id) now db h)
              (λ debited t ht. elim (Bool-cases debited) [
                | inl paid ↦ rw paid (record_purchase_keeps req id now_utc t ht)
                | inr short ↦ rw short ht
              ])
              (λ t ht. ht))
    ]
  ]

  pay_reward_keeps :
      (promo : Promo) (owner : User) (points : ℤ) (now : String) (db : Db)
      → P db
      → P (pay_reward promo owner points now db).1
  unfolding pay_reward
  pay_reward_keeps promo owner points now db h =
      let reference = some (String.◌++◌ "referral:" promo.promo_code) in
      elim (Bool-cases (ltb_ℤ (pos 0) points)) [
        | inl earned ↦ rw earned (
            bind_post P P (credit owner.id points source_promo reference now) (λ _. pure tt)
              (add_points promo points db)
              (k.writes.grant owner.id points source_promo reference now
                (add_points promo points db) (k.writes.promos db _ h))
              (λ _ t ht. ht) (λ t ht. ht))
        | inr none_earned ↦ rw none_earned h
      ]

  purchase_ticket_keeps :
      (env : Env) (buyer : ℤ) (promo : Promo) (db : Db)
      → P db
      → P (purchase_ticket env buyer promo db).1
  unfolding purchase_ticket
  purchase_ticket_keeps env buyer promo db h =
      k.writes.ticket env promo.tg_id buyer invitee_purchase db h

  settle_keeps :
      (env : Env) (buyer days : ℤ) (now : String) (promo : Promo) (owner : User)
      (settings : PromoSettings) (db : Db)
      → P db
      → P (settle env buyer days now promo owner settings db).1
  settle_keeps env buyer days now promo owner settings db h =
      let total = promo.days_purchased +ℤ days in
      let points = reward_points settings total promo.points_rewarded in
      bind_post P P (pay_reward promo owner points now)
        (λ _. purchase_ticket env buyer promo >> pure (reward_info promo owner total points)) db
        (pay_reward_keeps promo owner points now db h)
        (λ _ t ht.
          bind_post P P (purchase_ticket env buyer promo)
            (λ _. pure (reward_info promo owner total points)) t
            (purchase_ticket_keeps env buyer promo t ht) (λ _ v hv. hv) (λ v hv. hv))
        (λ t ht. ht)

  reward_owner_keeps :
      (env : Env) (buyer days : ℤ) (now : String) (promo : Promo) (owner : User) (db : Db)
      → P db
      → P (reward_owner env buyer days now promo owner db).1
  unfolding reward_owner get_promo_settings
  reward_owner_keeps env buyer days now promo owner db h =
      settle_keeps env buyer days now promo owner (settings_or_default db.settings) _
        (k.writes.settings (add_days promo days db) _ (k.writes.promos db _ h))

  reward_keeps :
      (env : Env) (buyer days : ℤ) (now : String) (db : Db)
      → P db
      → P (record_purchase_and_compute_reward env buyer days now db).1
  unfolding record_purchase_and_compute_reward
  reward_keeps env buyer days now db h = elim (Option-cases (referral_of buyer db)) [
    | inl nobody ↦ rw (nobody, record_purchase_and_compute_reward) h
    | inr ((promo, owner), found) ↦
        rw (found, record_purchase_and_compute_reward)
          (reward_owner_keeps env buyer days now promo owner db h)
  ]

  pub step_keeps : {a b : Db} → Step a b → P a → P b
  step_keeps (credits {db} user_id amount source ref now) h =
      k.writes.grant user_id amount source ref now db h
  step_keeps (debits {db} user_id amount source ref now) h =
      k.debit user_id amount source ref now db h
  step_keeps (purchases {db} req id now now_utc) h = purchase_keeps req id now now_utc db h
  step_keeps (redeems {db} env tg code draws now) h =
      redeem_promo_keeps P k.writes env tg code draws now db h
  step_keeps (rewards {db} env buyer days now) h = reward_keeps env buyer days now db h

  reaches_keeps : {a b : Db} → Reaches a b → P a → P b
  reaches_keeps done h = h
  reaches_keeps (more step rest) h = reaches_keeps rest (step_keeps step h)

IsAudited-all : (v : ℕ) (opening : ℤ) → KeepsAll (IsAudited v opening)
IsAudited-all v o = record {
  writes = IsAudited-keeps v o;
  transactions = λ db ts h. record { chained = h.chained; closes = h.closes };
  debit = λ user_id amount source ref now db h.
      debit_if_sufficient-IsAudited v o user_id amount source ref now db h;
}

pub IsSolvent-all : KeepsAll IsSolvent
IsSolvent-all = record {
  writes = IsSolvent-keeps;
  transactions = λ db ts h. h;
  debit = λ user_id amount source ref now db h.
      debit_if_sufficient-IsSolvent user_id amount source ref now db h;
}

-- Whatever sequence of credits, debits, purchases, redemptions and rewards is run, the ledger of
-- every user still explains the balance, if it did before.
pub Reaches-IsAudited :
    (v : ℕ) (opening : ℤ) (db db' : Db)
    → Reaches db db'
    → IsAudited v opening db
    → IsAudited v opening db'
Reaches-IsAudited v o db db' path h = reaches_keeps (IsAudited v o) (IsAudited-all v o) path h
