-- ===== src/Tests/WalletRuns.antt =====
-- The wallet on two users.
use xray_vpn_bot.Prelude.{
  pos, ◌+ℤ◌, ◌-ℤ◌, ◌≤ℤ◌, ◌<ℤ◌, ◌≡◌, ◌⊎◌, refl, true, false, none, some, List, [], ◌∷◌, arith, ◌==◌,
  if◌then◌else◌,
}
use xray_vpn_bot.Exec.{ok}
use xray_vpn_bot.Wallet.{
  balance_of, find_user, credit, debit_if_sufficient, discount_percent_to_credits,
  discount_percent_to_points, source_promo, source_payment,
}
use xray_vpn_bot.Wallet.Audit.{IsAudited}
use xray_vpn_bot.Wallet.Runs.{
  WalletCall, credit_call, debit_call, IsSolvent, debit_outcome, credit_outcome,
}
use xray_vpn_bot.Tests.Samples.{two_users, alice, bob}

-- The comments of the source: 20% is ten credits, 15% is eight.
credits_20 : discount_percent_to_credits 20 ≡ 10
unfolding discount_percent_to_credits
credits_20 = refl

points_15 : discount_percent_to_points 15 ≡ 80
unfolding discount_percent_to_points
points_15 = refl

-- A credit, a debit that is covered and one that is not.
abbrev calls : List WalletCall
calls =
    credit_call 2 (pos 30) source_promo none "t1"
    ∷ debit_call 1 (pos 60) source_payment none "t2"
    ∷ debit_call 1 (pos 60) source_payment none "t3"
    ∷ []

audited : IsAudited 1 (pos 100) two_users
audited = record { chained = tt; closes = refl }

pub solvent : IsSolvent two_users
solvent v = ground arith

debit_outcome_example :
    let (r, db') = debit_if_sufficient 1 (pos 60) source_payment none "t" two_users in
    ((pos 60 ≤ℤ pos 100)
      × (r ≡ ok true)
      × (balance_of (find_user 2 db')
          ≡ (if 2 == 1 then pos 100 -ℤ pos 60 else balance_of (find_user 2 two_users))))
    ⊎ ((pos 100 <ℤ pos 60) × (r ≡ ok false) × (db' ≡ two_users))
debit_outcome_example =
    debit_outcome 1 2 (pos 60) source_payment none "t" two_users alice (omega arith) refl

credit_outcome_example :
    let (r, db') = credit 2 (pos 30) source_promo (some "CODE") "t" two_users in
    (r ≡ ok (pos 0 +ℤ pos 30))
    × (balance_of (find_user 2 db')
        ≡ (if 2 == 2 then pos 0 +ℤ pos 30 else balance_of (find_user 2 two_users)))
credit_outcome_example =
    credit_outcome 2 2 (pos 30) source_promo (some "CODE") "t" two_users bob (omega arith) refl
