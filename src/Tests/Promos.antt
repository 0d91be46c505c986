-- ===== src/Tests/Promos.antt =====
-- A redemption of a referral code, and purchases that follow it.
use xray_vpn_bot.Prelude.{
  String, List, any, not, is_some, true, pos, negsuc, ◌+ℤ◌, max_ℤ, ◌≡◌, refl, none, some, [], ◌∷◌,
  arith, ◌==◌, if◌then◌else◌,
}
use xray_vpn_bot.Exec.{ok}
use xray_vpn_bot.Db.{Db}
use xray_vpn_bot.Wallet.{balance_of, find_user}
use xray_vpn_bot.Wallet.Runs.{IsSolvent}
use xray_vpn_bot.Giveaway.Tickets.{Env}
use xray_vpn_bot.Promo.Lookup.{
  default_settings, get_promo_by_code, generate_unique_code, get_or_create_referral_code,
}
use xray_vpn_bot.Promo.Codes.{IsCoded, generate_unique_code-returns, get_or_create-IsCoded}
use xray_vpn_bot.Promo.Redeem.{redeem_promo}
use xray_vpn_bot.Promo.Once.{IsOnce, redeem_promo-IsOnce}
use xray_vpn_bot.Referral.{reward_info, referral_of, record_purchase_and_compute_reward}
use xray_vpn_bot.Referral.Total.{rewarded_after, rewarded_after_lem, worth, sum_ℤ}
use xray_vpn_bot.Referral.Outcome.{
  promo_at, points_due, rewarded, record_purchase_and_compute_reward_lem,
}
use xray_vpn_bot.Tests.Samples.{with_code, referred, alice_code, alice}

abbrev pub env : Env
env = record {
  loads = λ s. none;
  dumps = λ c. "{}";
  window_dt = λ s. none;
  now = 5;
  now_iso = "2026-01-01T00:00:05";
}

abbrev redeemed_db : Db
redeemed_db = (redeem_promo env (pos 502) "ALICE" ("CODE1234" ∷ []) "t" with_code).1

-- Nothing is redeemed yet.
once : IsOnce with_code
once = record { codes = λ tg code. omega arith; referrals = λ tg. omega arith }

redeem_promo-IsOnce_example : IsOnce redeemed_db
redeem_promo-IsOnce_example =
    redeem_promo-IsOnce env (pos 502) "ALICE" ("CODE1234" ∷ []) "t" with_code once

-- The invitee of the sample gets the default grant.
granted : balance_of (find_user 2 redeemed_db) ≡ pos 100
unfolding redeem_promo ◌+ℤ◌
granted = refl

-- The one user under two keys, with a Telegram id and as the web service calls without one: each key
-- redeems once, so the code is paid for twice.
under_two_keys :
    balance_of
      (find_user 2 (redeem_promo env (negsuc 1) "ALICE" ("CODE5678" ∷ []) "t2" redeemed_db).1)
    ≡ pos 200
unfolding redeem_promo ◌+ℤ◌
under_two_keys = refl

IsSolvent-with_code : IsSolvent with_code
IsSolvent-with_code v = ground arith

-- Alice's code has 40 days and 30 points; the purchases bring it to 105 days, and 90 points.
rewarded_after_lem_example :
    rewarded_after default_settings (pos 40) (pos 30) (pos 30 ∷ pos 35 ∷ [])
    ≡ max_ℤ (pos 30) (worth default_settings (pos 40 +ℤ sum_ℤ (pos 30 ∷ pos 35 ∷ [])))
rewarded_after_lem_example =
    rewarded_after_lem default_settings (pos 40) (pos 30) (pos 30) (pos 35 ∷ []) (omega arith)
      (omega arith, tt)

is_referred : referral_of (pos 502) referred ≡ some (alice_code, alice)
unfolding referral_of
is_referred = refl

record_purchase_and_compute_reward_lem_example :
    let (r, db') = record_purchase_and_compute_reward env (pos 502) (pos 30) "t" referred in
    let due = points_due alice_code (pos 30) referred in
    (r ≡ ok (reward_info alice_code alice (pos 40 +ℤ pos 30) due))
    × (promo_at 1 db'
        ≡ (if 1 == 1 then some (rewarded alice_code (pos 30) due) else promo_at 1 referred))
    × (balance_of (find_user 1 db')
        ≡ (if 1 == 1 then pos 100 +ℤ due else balance_of (find_user 1 referred)))
record_purchase_and_compute_reward_lem_example =
    record_purchase_and_compute_reward_lem env (pos 502) (pos 30) "t" alice_code alice referred 1 1
      is_referred refl refl

-- "ALICE" is taken, so the second draw is the code.
abbrev draws : List String
draws = "ALICE" ∷ "BOB12345" ∷ []

first_taken : any (λ code. not (is_some (get_promo_by_code code with_code))) draws ≡ true
unfolding get_promo_by_code
first_taken = refl

generate_unique_code-returns_example :
    (code : String) × (generate_unique_code draws with_code ≡ ok code)
    × (get_promo_by_code code with_code ≡ none)
generate_unique_code-returns_example = generate_unique_code-returns draws with_code first_taken

IsCoded-with_code : IsCoded with_code
IsCoded-with_code code = ground arith

get_or_create-IsCoded_example : IsCoded (get_or_create_referral_code (pos 502) draws with_code).1
get_or_create-IsCoded_example =
    get_or_create-IsCoded (pos 502) draws with_code (refl, (refl, tt)) IsCoded-with_code
