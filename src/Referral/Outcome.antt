-- ===== src/Referral/Outcome.antt =====
-- `record_purchase_and_compute_reward` of repo/referral_rewards.py: its result and its writes.
use xray_vpn_bot.Prelude.{
  ℕ, ℤ, pos, ◌+ℤ◌, ◌≤ℤ◌, int_laws, ltb_ℤ, max_ℤ_bounds, min_ℤ, ◌-ℤ◌, ◌*ℤ◌, floor_div, String, ◌≡◌,
  refl, ap, ◌∙◌, inl, inr, Option, some, arith, ◌==◌, ==_iff, if◌then◌else◌, Bool-cases,
}
use xray_vpn_bot.Exec.{ok}
use xray_vpn_bot.Db.{Db, User, Promo, PromoSettings, invitee_purchase}
use xray_vpn_bot.Db.Tables.{by_key, by_key-update}
use xray_vpn_bot.Wallet.{balance_of, find_user, credit, source_promo}
use xray_vpn_bot.Wallet.Runs.{credit_outcome}
use Prim.Native.String
use xray_vpn_bot.Giveaway.Tickets.{Env}
use xray_vpn_bot.Giveaway.Frame.{try_grant_frame}
use xray_vpn_bot.Promo.Lookup.{settings_or_default, get_promo_settings}
use xray_vpn_bot.Referral.{
  reward_points, add_days, add_points, pay_reward, reward_info, purchase_ticket, reward_owner,
  referral_of, record_purchase_and_compute_reward,
}

abbrev pub promo_at : ℕ → Db → Option Promo
promo_at j db = by_key (λ p. p.id) j db.promos.rows

pub reward_points_nonneg :
    (settings : PromoSettings) (total already : ℤ) → pos 0 ≤ℤ reward_points settings total already
unfolding reward_points
reward_points_nonneg settings total already = omega (
  arith,
  max_ℤ_bounds (pos 0) (
      min_ℤ (floor_div total 30 *ℤ settings.points_reward_per_30 -ℤ already)
        (settings.reward_cap_points -ℤ already)),
)

module _ (promo : Promo) (owner : User) (points : ℤ) (now : String) (db : Db) where
  pay_reward-result :
      find_user owner.id db ≡ some owner → (pay_reward promo owner points now db).0 ≡ ok tt
  unfolding pay_reward credit
  pay_reward-result found = ground arith

  pay_reward-balance :
      (v : ℕ)
      → find_user owner.id db ≡ some owner
      → pos 0 ≤ℤ points
      → balance_of (find_user v (pay_reward promo owner points now db).1)
        ≡ (if v == owner.id then owner.bonus_credits +ℤ points else balance_of (find_user v db))
  unfolding pay_reward
  pay_reward-balance v found nonneg = elim (Bool-cases (ltb_ℤ (pos 0) points)) [
    | inl more ↦
        let reference = some (String.◌++◌ "referral:" promo.promo_code) in
        let credited =
          credit_outcome owner.id v points source_promo reference now (add_points promo points db)
            owner (ground arith) found in
        ground (arith, credited.0, credited.1)
    | inr none_earned ↦
        let none_more : points ≤ℤ pos 0 = ground arith in
        let zero : owner.bonus_credits +ℤ points ≡ owner.bonus_credits = omega int_laws in
        rw none_earned (rw zero (ground (arith, ==_iff v owner.id)))
  ]

  pay_reward-promos :
      find_user owner.id db ≡ some owner
      → (pay_reward promo owner points now db).1.promos
        ≡ (if ltb_ℤ (pos 0) points then (add_points promo points db).promos else db.promos)
  unfolding pay_reward credit
  pay_reward-promos found = ground arith

-- The row of the code after a purchase.
abbrev pub rewarded : Promo → ℤ → ℤ → Promo
rewarded promo days points = record promo {
  days_purchased = promo.days_purchased +ℤ days;
  points_rewarded = promo.points_rewarded +ℤ points;
}

-- The points that a purchase of `days` earns the owner.
abbrev pub points_due : Promo → ℤ → Db → ℤ
points_due promo days db =
    reward_points (settings_or_default db.settings) (promo.days_purchased +ℤ days)
      promo.points_rewarded

module _ (env : Env) (buyer days : ℤ) (now : String) (promo : Promo) (owner : User) (db : Db) where
  abbrev due : ℤ
  due = points_due promo days db

  -- After the days and the settings are written.
  abbrev noted : Db
  noted = record (add_days promo days db) { settings = some (settings_or_default db.settings) }

  abbrev paid : Db
  paid = (pay_reward promo owner due now noted).1

  ticketed-same :
      (t : Db)
      → let t' = (purchase_ticket env buyer promo t).1 in
        (t'.promos ≡ t.promos) × (t'.users ≡ t.users)
  unfolding purchase_ticket
  ticketed-same t =
      let same = try_grant_frame env promo.tg_id buyer invitee_purchase t in
      (ap (λ (d : Db). d.promos) same, ap (λ (d : Db). d.users) same)

  reward_owner-eq :
      find_user owner.id db ≡ some owner
      → reward_owner env buyer days now promo owner db ≡ (
        ok (reward_info promo owner (promo.days_purchased +ℤ days) due),
        (purchase_ticket env buyer promo paid).1,
      )
  unfolding reward_owner get_promo_settings
  reward_owner-eq found =
      let done = pay_reward-result promo owner due now noted found in ground (arith, done)

  noted-promo :
      (j : ℕ)
      → promo_at promo.id db ≡ some promo
      → promo_at j noted ≡ (
          if j == promo.id
          then some (record promo { days_purchased = promo.days_purchased +ℤ days })
          else promo_at j db)
  noted-promo j row =
      by_key-update (λ (p : Promo). p.id) promo.id j
        (λ p. record p { days_purchased = promo.days_purchased +ℤ days }) db.promos.rows (λ p. refl)
      ∙ ground (arith, ==_iff j promo.id)

  pointed-promo :
      (j : ℕ)
      → promo_at promo.id db ≡ some promo
      → promo_at j (add_points promo due noted)
        ≡ (if j == promo.id then some (rewarded promo days due) else promo_at j db)
  pointed-promo j row =
      by_key-update (λ (p : Promo). p.id) promo.id j
        (λ p. record p { points_rewarded = promo.points_rewarded +ℤ due }) noted.promos.rows
        (λ p. refl)
      ∙ ground (arith, noted-promo j row)

  promo_at-paid :
      (j : ℕ)
      → find_user owner.id db ≡ some owner
      → promo_at promo.id db ≡ some promo
      → promo_at j paid ≡ (if j == promo.id then some (rewarded promo days due) else promo_at j db)
  promo_at-paid j found row =
      let written = pay_reward-promos promo owner due now noted found in
      elim (Bool-cases (ltb_ℤ (pos 0) due)) [
        | inl more ↦ rw (written, more) (pointed-promo j row)
        | inr none_earned ↦
            let positive =
              reward_points_nonneg (settings_or_default db.settings) (promo.days_purchased +ℤ days)
                promo.points_rewarded in
            let none_more : due ≤ℤ pos 0 = ground arith in
            let zero : promo.points_rewarded +ℤ due ≡ promo.points_rewarded = omega int_laws in
            rw (written, none_earned) (rw zero (noted-promo j row))
      ]

  -- When a buyer with a referral pays for some days, and the code and its owner stand in their
  -- tables under their keys: the code's row, and no other, gets the days and the points due on
  -- its total; the owner's balance, and no other, gets those points; and the call reports
  -- them, or None when there are none.
  pub record_purchase_and_compute_reward_lem :
      (j v : ℕ)
      → referral_of buyer db ≡ some (promo, owner)
      → find_user owner.id db ≡ some owner
      → promo_at promo.id db ≡ some promo
      → let (r, db') = record_purchase_and_compute_reward env buyer days now db in
        (r ≡ ok (reward_info promo owner (promo.days_purchased +ℤ days) due))
        × (promo_at j db'
            ≡ (if j == promo.id then some (rewarded promo days due) else promo_at j db))
        × (balance_of (find_user v db')
            ≡ (if v == owner.id then owner.bonus_credits +ℤ due else balance_of (find_user v db)))
  unfolding record_purchase_and_compute_reward
  record_purchase_and_compute_reward_lem j v referred found row =
      let same = ticketed-same paid in
      let positive =
        reward_points_nonneg (settings_or_default db.settings) (promo.days_purchased +ℤ days)
          promo.points_rewarded in
      rw (referred, record_purchase_and_compute_reward)
        (rw (reward_owner-eq found) (
          refl,
          rw same.0 (promo_at-paid j found row),
          rw same.1 (pay_reward-balance promo owner due now noted v found positive),
        ))
