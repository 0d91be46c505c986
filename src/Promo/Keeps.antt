-- ===== src/Promo/Keeps.antt =====
-- A rule for invariants of `redeem_promo` of repo/promos.py, from its table writes.
use xray_vpn_bot.Prelude.{
  ℕ, ℤ, pos, ltb_ℤ, String, ◌≡◌, sym, inl, inr, Bool-cases, Option-cases, Sum-cases, Option, some,
  List, arith,
}
use mathlib.Core.Path.{subst}
use xray_vpn_bot.Exec.{pure, bind_post}
use xray_vpn_bot.Db.{
  Db, User, Promo, PromoRedemption, PromoSettings, TicketSource, invitee_ref_activation,
}
use xray_vpn_bot.Db.Tables.{Table}
use xray_vpn_bot.Wallet.{credit, source_promo}
use xray_vpn_bot.Giveaway.Tickets.{Env, try_grant_invitee_ticket}
use xray_vpn_bot.Promo.Lookup.{
  get_or_create_referral_code, get_promo_by_code, is_referral, resolve_user_for_redeem,
}
use xray_vpn_bot.Promo.Redeem.{
  passed, resolve_credit_grant, promo_to_redeem, add_redemption, finish_redeem, record_redeem,
  redeem_user, pay_grant, invitee_ticket, redeem_for, redeem_promo,
}

pub get_or_create_frame :
    (tg : ℤ) (draws : List String) (db : Db)
    → let db' = (get_or_create_referral_code tg draws db).1 in
      db' ≡ record db { promos = db'.promos }
unfolding get_or_create_referral_code
get_or_create_frame tg draws db = ground arith

pub resolve_credit_grant_frame :
    (promo : Promo) (db : Db)
    → let db' = (resolve_credit_grant promo db).1 in db' ≡ record db { settings = db'.settings }
unfolding resolve_credit_grant
resolve_credit_grant_frame promo db = ground arith

-- The writes of a redemption.
pub record Keeps (P : Db → Type 0) : Type 0 where
  pub settings : (db : Db) (s : Option PromoSettings) → P db → P (record db { settings = s })
  pub promos : (db : Db) (ps : Table Promo) → P db → P (record db { promos = ps })
  pub redemptions :
      (db : Db) (rs : Table PromoRedemption) → P db → P (record db { redemptions = rs })
  pub grant :
      (user_id : ℕ) (amount : ℤ) (source : String) (ref : Option String) (now : String) (db : Db)
      → P db
      → P (credit user_id amount source ref now db).1
  pub ticket :
      (env : Env) (referrer invitee : ℤ) (source : TicketSource) (db : Db)
      → P db
      → P (try_grant_invitee_ticket env referrer invitee source db).1

module _ (P : Db → Type 0) (k : Keeps P) where
  pay_grant_keeps :
      (user_id : ℕ) (grant : ℤ) (code now : String) (db : Db)
      → P db
      → P (pay_grant user_id grant code now db).1
  unfolding pay_grant
  pay_grant_keeps user_id grant code now db h = elim (Bool-cases (ltb_ℤ (pos 0) grant)) [
    | inl more ↦ rw more (k.grant user_id grant source_promo (some code) now db h)
    | inr none_given ↦ rw none_given h
  ]

  invitee_ticket_keeps :
      (env : Env) (tg : ℤ) (promo : Promo) (db : Db) → P db → P (invitee_ticket env tg promo db).1
  unfolding invitee_ticket
  invitee_ticket_keeps env tg promo db h = elim (Bool-cases (is_referral promo.promo_type)) [
    | inr no_referral ↦ rw no_referral h
    | inl yes_referral ↦ elim (Option-cases (get_promo_by_code promo.promo_code db)) [
      | inl missing ↦ rw (yes_referral, missing) h
      | inr (p, found) ↦
          rw (yes_referral, found) (k.ticket env p.tg_id tg invitee_ref_activation db h)
    ]
  ]

  redeem_for_keeps :
      (env : Env) (tg : ℤ) (promo : Promo) (grant : ℤ) (draws : List String) (now : String)
      (user : User) (db : Db)
      → P db
      → P (redeem_for env tg promo grant draws now user db).1
  unfolding redeem_for
  redeem_for_keeps env tg promo grant draws now user db h =
      bind_post P P (get_or_create_referral_code tg draws)
        (λ _. record_redeem env tg promo grant now user) db
        (subst P (sym (get_or_create_frame tg draws db)) (k.promos db _ h))
        (λ _ t ht.
          bind_post P P (pay_grant user.id grant promo.promo_code now)
            (finish_redeem env tg promo grant) (add_redemption tg promo now t)
            (pay_grant_keeps user.id grant promo.promo_code now (add_redemption tg promo now t)
              (k.redemptions t _ ht))
            (λ b u hu.
              bind_post P P (invitee_ticket env tg promo) (λ _. pure (passed promo grant (some b)))
                u (invitee_ticket_keeps env tg promo u hu) (λ _ v hv. hv) (λ v hv. hv))
            (λ u hu. hu))
        (λ t ht. ht)

  redeem_user_keeps :
      (env : Env) (tg : ℤ) (promo : Promo) (draws : List String) (now : String) (grant : ℤ)
      (db : Db)
      → P db
      → P (redeem_user env tg promo draws now grant db).1
  unfolding redeem_user
  redeem_user_keeps env tg promo draws now grant db h =
      elim (Option-cases (resolve_user_for_redeem tg db)) [
        | inl missing ↦ rw (missing, redeem_user) h
        | inr (u, found) ↦
            rw (found, redeem_user) (redeem_for_keeps env tg promo grant draws now u db h)
      ]

  pub redeem_promo_keeps :
      (env : Env) (tg : ℤ) (code : String) (draws : List String) (now : String) (db : Db)
      → P db
      → P (redeem_promo env tg code draws now db).1
  unfolding redeem_promo
  redeem_promo_keeps env tg code draws now db h = elim (Sum-cases (promo_to_redeem tg code db)) [
    | inl (why, e) ↦ rw (e, redeem_promo) h
    | inr (promo, e) ↦
        rw (e, redeem_promo)
          (bind_post P P (resolve_credit_grant promo) (redeem_user env tg promo draws now) db
            (subst P (sym (resolve_credit_grant_frame promo db)) (k.settings db _ h))
            (λ grant t ht. redeem_user_keeps env tg promo draws now grant t ht) (λ t ht. ht))
  ]
