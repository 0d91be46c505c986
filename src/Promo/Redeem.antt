-- ===== src/Promo/Redeem.antt =====
-- `can_redeem` and `redeem_promo` of packages/common_db/common_db/repo/promos.py.
use xray_vpn_bot.Prelude.{
  ℕ, ℤ, pos, eqb_ℤ, ltb_ℤ, String, ◌⊎◌, inl, inr, Bool, true, false, Option, none, some, List,
  is_some, if◌then◌else◌,
}
use xray_vpn_bot.Exec.{Exec, ok, pure, modify, ◌>>=◌, ◌>>◌}
use xray_vpn_bot.Db.{Db, User, Promo, PromoType, invitee_ref_activation}
use xray_vpn_bot.Db.Tables.{insert}
use xray_vpn_bot.Wallet.{credit, get_balance, source_promo}
use xray_vpn_bot.Giveaway.Tickets.{Env, try_grant_invitee_ticket}
use xray_vpn_bot.Promo.Lookup.{
  get_promo_by_code, get_or_create_referral_code, get_redemption_for_code, is_referral,
  has_referral_redemption, user_has_any_transaction, resolve_user_for_redeem, get_promo_settings,
}

pub data Reason : Type 0 where
  accepted invalid own_code already_used referral_not_new referral_only_one no_user : Reason

pub record RedeemResult : Type 0 where
  pub success : Bool
  pub reason : Reason
  pub promo_code : Option String
  pub promo_type : Option PromoType
  pub credit_grant : Option ℤ
  pub new_balance : Option ℤ

abbrev pub refused : Reason → RedeemResult
refused why = record {
  success = false;
  reason = why;
  promo_code = none;
  promo_type = none;
  credit_grant = none;
  new_balance = none;
}

abbrev pub passed : Promo → ℤ → Option ℤ → RedeemResult
passed promo grant balance = record {
  success = true;
  reason = accepted;
  promo_code = some promo.promo_code;
  promo_type = some promo.promo_type;
  credit_grant = some grant;
  new_balance = balance;
}

-- The rules for a code that exists.
unfoldable pub refusal : ℤ → String → Promo → Db → Option Reason
unfolding get_redemption_for_code has_referral_redemption user_has_any_transaction
refusal tg code promo db =
    if eqb_ℤ promo.tg_id tg
    then some own_code
    else if is_some (get_redemption_for_code tg code db)
    then some already_used
    else if is_referral promo.promo_type
    then (if has_referral_redemption tg db
        then some referral_only_one
        else if user_has_any_transaction tg db
        then some referral_not_new
        else none)
    else none

unfoldable pub resolve_credit_grant : Promo → Exec Db ℤ
unfolding get_promo_settings
resolve_credit_grant promo db = elim promo.credit_grant [
  | some grant ↦ (ok grant, db)
  | none ↦ (do settings ← get_promo_settings; pure settings.default_credit_grant) db
]

-- The promo that may be redeemed, or the refusal: the part of `can_redeem` before the grant.
unfoldable pub promo_to_redeem : ℤ → String → Db → Reason ⊎ Promo
unfolding get_promo_by_code refusal
promo_to_redeem tg code db = elim (get_promo_by_code code db) [
  | none ↦ inl invalid
  | some promo ↦ elim (refusal tg code promo db) [ some why ↦ inl why | none ↦ inr promo ]
]

unfoldable pub can_redeem : ℤ → String → Exec Db RedeemResult
unfolding promo_to_redeem resolve_credit_grant
can_redeem tg code db = elim (promo_to_redeem tg code db) [
  | inl why ↦ (ok (refused why), db)
  | inr promo ↦ (do grant ← resolve_credit_grant promo; pure (passed promo grant none)) db
]

abbrev pub add_redemption : ℤ → Promo → String → Db → Db
add_redemption tg promo now db = record db {
  redemptions =
      insert
        (λ id. record {
          id = id;
          tg_id = tg;
          promo_code = promo.promo_code;
          promo_type = promo.promo_type;
          created_at = now;
        })
        db.redemptions;
}

-- A grant that is not positive only reads the balance.
unfoldable pub pay_grant : ℕ → ℤ → String → String → Exec Db ℤ
unfolding credit get_balance
pay_grant user_id grant code now =
    if ltb_ℤ (pos 0) grant
    then credit user_id grant source_promo (some code) now
    else get_balance user_id

unfoldable pub invitee_ticket : Env → ℤ → Promo → Exec Db (Unit {0})
unfolding try_grant_invitee_ticket get_promo_by_code
invitee_ticket env tg promo db =
    if is_referral promo.promo_type
    then elim (get_promo_by_code promo.promo_code db) [
      | none ↦ (ok tt, db)
      | some p ↦ (ok tt, (try_grant_invitee_ticket env p.tg_id tg invitee_ref_activation db).1)
    ]
    else (ok tt, db)

abbrev pub finish_redeem : Env → ℤ → Promo → ℤ → ℤ → Exec Db RedeemResult
finish_redeem env tg promo grant new_balance = do
  invitee_ticket env tg promo
  pure (passed promo grant (some new_balance))

abbrev pub record_redeem : Env → ℤ → Promo → ℤ → String → User → Exec Db RedeemResult
record_redeem env tg promo grant now user = do
  modify (add_redemption tg promo now)
  new_balance ← pay_grant user.id grant promo.promo_code now
  finish_redeem env tg promo grant new_balance

-- What `redeem_promo` does for a user and a code that passed the checks.
unfoldable pub redeem_for : Env → ℤ → Promo → ℤ → List String → String → User → Exec Db RedeemResult
unfolding get_or_create_referral_code pay_grant invitee_ticket
redeem_for env tg promo grant draws now user = do
  get_or_create_referral_code tg draws
  record_redeem env tg promo grant now user

unfoldable pub redeem_user : Env → ℤ → Promo → List String → String → ℤ → Exec Db RedeemResult
unfolding redeem_for resolve_user_for_redeem
redeem_user env tg promo draws now grant db = elim (resolve_user_for_redeem tg db) [
  | none ↦ (ok (refused no_user), db)
  | some u ↦ redeem_for env tg promo grant draws now u db
]

unfoldable pub redeem_promo : Env → ℤ → String → List String → String → Exec Db RedeemResult
unfolding promo_to_redeem resolve_credit_grant redeem_user
redeem_promo env tg code draws now db = elim (promo_to_redeem tg code db) [
  | inl why ↦ (ok (refused why), db)
  | inr promo ↦ (do grant ← resolve_credit_grant promo; redeem_user env tg promo draws now grant) db
]
