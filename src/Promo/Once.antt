-- ===== src/Promo/Once.antt =====
-- The audit rows that `redeem_promo` of repo/promos.py writes. They name the Telegram id that the
-- caller passes, and the web service passes the negated user id for an account without one.
use text.Mathlib.Text.{◌==◌ as str_eq}
use xray_vpn_bot.Prelude.{
  ℕ, ◌≤◌, ℤ, eqb_ℤ, eqb_ℤ_iff, String, eq_iff, ◌≡◌, refl, ap, ◌∙◌, inl, inr, true, false, ◌&&◌,
  Bool-cases, Option-cases, Sum-cases, none, some, List, arith, ◌⊎◌, find_holds, any, count,
  count-append, count_none, is_some-find,
}
use xray_vpn_bot.Exec.{pure, bind_post}
use xray_vpn_bot.Db.{Db, User, Promo, invitee_ref_activation}
use xray_vpn_bot.Giveaway.Tickets.{Env}
use xray_vpn_bot.Giveaway.Frame.{try_grant_frame}
use xray_vpn_bot.Promo.Lookup.{
  get_or_create_referral_code, get_promo_by_code, is_referral, resolve_user_for_redeem, redeemed,
  by_referral,
}
use xray_vpn_bot.Promo.Redeem.{
  refusal, passed, resolve_credit_grant, promo_to_redeem, add_redemption, pay_grant, invitee_ticket,
  redeem_for, redeem_promo, finish_redeem, record_redeem, redeem_user,
}
use xray_vpn_bot.Promo.Keeps.{get_or_create_frame, resolve_credit_grant_frame}

pay_grant-redemptions :
    (user_id : ℕ) (grant : ℤ) (code now : String) (db : Db)
    → (pay_grant user_id grant code now db).1.redemptions ≡ db.redemptions
unfolding pay_grant
pay_grant-redemptions user_id grant code now db = ground arith

invitee_ticket-redemptions :
    (env : Env) (tg : ℤ) (promo : Promo) (db : Db)
    → (invitee_ticket env tg promo db).1.redemptions ≡ db.redemptions
unfolding invitee_ticket
invitee_ticket-redemptions env tg promo db = elim (Bool-cases (is_referral promo.promo_type)) [
  | inr no_referral ↦ rw no_referral
  | inl yes_referral ↦ elim (Option-cases (get_promo_by_code promo.promo_code db)) [
    | inl missing ↦ rw (yes_referral, missing)
    | inr (p, found) ↦
        rw (yes_referral, found)
          (ap (λ (d : Db). d.redemptions)
            (try_grant_frame env p.tg_id tg invitee_ref_activation db))
  ]
]

-- What one call does to the audit rows: nothing, or one row for a code that passed the checks.
module _ (env : Env) (tg : ℤ) (code : String) (draws : List String) (now : String) (db : Db) where
  abbrev Same : Db → Type 0
  Same t = t.redemptions ≡ db.redemptions

  abbrev Wrote : Promo → Db → Type 0
  Wrote promo t = Same t ⊎ (t.redemptions ≡ (add_redemption tg promo now db).redemptions)

  redeem_for_writes :
      (promo : Promo) (grant : ℤ) (user : User) (s : Db)
      → Same s
      → Wrote promo (redeem_for env tg promo grant draws now user s).1
  unfolding redeem_for
  redeem_for_writes promo grant user s h =
      bind_post Same (Wrote promo) (get_or_create_referral_code tg draws)
        (λ _. record_redeem env tg promo grant now user) s
        (ap (λ (d : Db). d.redemptions) (get_or_create_frame tg draws s) ∙ h)
        (λ _ t ht.
          let row =
            ap (λ r. (add_redemption tg promo now (record t { redemptions = r })).redemptions) ht in
          bind_post (Wrote promo) (Wrote promo) (pay_grant user.id grant promo.promo_code now)
            (finish_redeem env tg promo grant) (add_redemption tg promo now t)
            (inr (
              pay_grant-redemptions user.id grant promo.promo_code now
                (add_redemption tg promo now t)
              ∙ row))
            (λ b u hu.
              bind_post (Wrote promo) (Wrote promo) (invitee_ticket env tg promo)
                (λ _. pure (passed promo grant (some b))) u (rw invitee_ticket-redemptions hu)
                (λ _ v hv. hv) (λ v hv. hv))
            (λ u hu. hu))
        (λ t ht. inl ht)

  redeem_user_writes :
      (promo : Promo) (grant : ℤ) (s : Db)
      → Same s
      → Wrote promo (redeem_user env tg promo draws now grant s).1
  unfolding redeem_user
  redeem_user_writes promo grant s h = elim (Option-cases (resolve_user_for_redeem tg s)) [
    | inl missing ↦ rw (missing, redeem_user) (inl h)
    | inr (u, found) ↦ rw (found, redeem_user) (redeem_for_writes promo grant u s h)
  ]

  redeem_promo_writes :
      (Same (redeem_promo env tg code draws now db).1)
      ⊎ ((promo : Promo) × (promo_to_redeem tg code db ≡ inr promo)
          × Wrote promo (redeem_promo env tg code draws now db).1)
  unfolding redeem_promo
  redeem_promo_writes = elim (Sum-cases (promo_to_redeem tg code db)) [
    | inl (why, e) ↦ rw (e, redeem_promo) (inl refl)
    | inr (promo, e) ↦ inr (
      promo,
      e,
      rw (e, redeem_promo)
          (bind_post Same (Wrote promo) (resolve_credit_grant promo)
            (redeem_user env tg promo draws now) db
            (ap (λ (d : Db). d.redemptions) (resolve_credit_grant_frame promo db))
            (λ grant t ht. redeem_user_writes promo grant t ht) (λ t ht. inl ht)),
    )
  ]

-- Each key (the Telegram id that a caller passes) has at most one redemption of each code, and at
-- most one of a referral code.
pub record IsOnce (db : Db) : Type 0 where
  pub codes : (tg : ℤ) (code : String) → count (redeemed tg code) db.redemptions.rows ≤ 1
  pub referrals : (tg : ℤ) → count (by_referral tg) db.redemptions.rows ≤ 1

refusal-none :
    (tg : ℤ) (code : String) (promo : Promo) (db : Db)
    → refusal tg code promo db ≡ none
    → (any (redeemed tg code) db.redemptions.rows ≡ false)
      × (is_referral promo.promo_type ≡ true → any (by_referral tg) db.redemptions.rows ≡ false)
unfolding refusal
refusal-none tg code promo db e =
    ground (arith, is_some-find (redeemed tg code) db.redemptions.rows)

pub get_promo_by_code-eq :
    (code : String) (db : Db) (promo : Promo)
    → get_promo_by_code code db ≡ some promo
    → promo.promo_code ≡ code
unfolding get_promo_by_code
get_promo_by_code-eq code db promo e = ground (
  arith,
  find_holds (λ (p : Promo). str_eq p.promo_code code) db.promos.rows promo,
  eq_iff promo.promo_code code,
)

-- What the checks have established when they let a code through.
checked :
    (tg : ℤ) (code : String) (db : Db) (promo : Promo)
    → promo_to_redeem tg code db ≡ inr promo
    → (get_promo_by_code code db ≡ some promo) × (refusal tg code promo db ≡ none)
unfolding promo_to_redeem
checked tg code db promo e = ground arith

module _ (tg : ℤ) (promo : Promo) (now : String) (db : Db) where
  codes_after :
      (tg' : ℤ) (code' : String)
      → any (redeemed tg promo.promo_code) db.redemptions.rows ≡ false
      → count (redeemed tg' code') db.redemptions.rows ≤ 1
      → count (redeemed tg' code') (add_redemption tg promo now db).redemptions.rows ≤ 1
  codes_after tg' code' new h = elim (Bool-cases (eqb_ℤ tg tg' && str_eq promo.promo_code code')) [
    | inr miss ↦ rw (count-append (redeemed tg' code') db.redemptions.rows) (rw miss (omega arith))
    | inl hit ↦
        let same : (tg ≡ tg') × (promo.promo_code ≡ code') =
          ground (arith, eqb_ℤ_iff tg tg', eq_iff promo.promo_code code') in
        let zero_there : count (redeemed tg' code') db.redemptions.rows ≡ 0 =
          rw (← same.0, ← same.1)
            (count_none (redeemed tg promo.promo_code) db.redemptions.rows new) in
        rw (count-append (redeemed tg' code') db.redemptions.rows)
          (rw hit (omega (arith, zero_there)))
  ]

  referrals_after :
      (tg' : ℤ)
      → (is_referral promo.promo_type ≡ true → any (by_referral tg) db.redemptions.rows ≡ false)
      → count (by_referral tg') db.redemptions.rows ≤ 1
      → count (by_referral tg') (add_redemption tg promo now db).redemptions.rows ≤ 1
  referrals_after tg' new h = elim (Bool-cases (eqb_ℤ tg tg' && is_referral promo.promo_type)) [
    | inr miss ↦ rw (count-append (by_referral tg') db.redemptions.rows) (rw miss (omega arith))
    | inl hit ↦
        let same : (tg ≡ tg') × (is_referral promo.promo_type ≡ true) =
          ground (arith, eqb_ℤ_iff tg tg') in
        let zero_there : count (by_referral tg') db.redemptions.rows ≡ 0 =
          rw (← same.0) (count_none (by_referral tg) db.redemptions.rows (new same.1)) in
        rw (count-append (by_referral tg') db.redemptions.rows) (rw hit (omega (arith, zero_there)))
  ]

IsOnce-same : (db db' : Db) → db'.redemptions ≡ db.redemptions → IsOnce db → IsOnce db'
IsOnce-same db db' e h = record {
  codes = λ tg code. rw e (h.codes tg code);
  referrals = λ tg. rw e (h.referrals tg);
}

IsOnce-wrote :
    (tg : ℤ) (code now : String) (promo : Promo) (db db' : Db)
    → promo_to_redeem tg code db ≡ inr promo
    → db'.redemptions ≡ (add_redemption tg promo now db).redemptions
    → IsOnce db
    → IsOnce db'
IsOnce-wrote tg code now promo db db' let_through e h =
    let (found, none_refused) = checked tg code db promo let_through in
    let (fresh, no_referral) = refusal-none tg code promo db none_refused in
    let fresh' : any (redeemed tg promo.promo_code) db.redemptions.rows ≡ false =
      rw (get_promo_by_code-eq code db promo found) fresh in
    IsOnce-same (add_redemption tg promo now db) db' e (record {
      codes = λ tg' code'. codes_after tg promo now db tg' code' fresh' (h.codes tg' code');
      referrals = λ tg'. referrals_after tg promo now db tg' no_referral (h.referrals tg');
    })

-- A call of redeem_promo, accepted or refused or raising, keeps it true that every key (the
-- Telegram id that a caller passes) has at most one redemption of each code and at most one
-- redemption of a referral code. One user who is passed under two keys may redeem under each.
pub redeem_promo-IsOnce :
    (env : Env) (tg : ℤ) (code : String) (draws : List String) (now : String) (db : Db)
    → IsOnce db
    → IsOnce (redeem_promo env tg code draws now db).1
redeem_promo-IsOnce env tg code draws now db h =
    let db' = (redeem_promo env tg code draws now db).1 in
    elim (redeem_promo_writes env tg code draws now db) [
      | inl same ↦ IsOnce-same db db' same h
      | inr (promo, let_through, inl same) ↦ IsOnce-same db db' same h
      | inr (promo, let_through, inr wrote) ↦
          IsOnce-wrote tg code now promo db db' let_through wrote h
    ]
