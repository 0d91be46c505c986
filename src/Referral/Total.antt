-- ===== src/Referral/Total.antt =====
-- The points of a code over several purchases: the formula of repo/referral_rewards.py,
-- iterated.
use xray_vpn_bot.Prelude.{
  ℤ, pos, *ℤ_mono, ◌+ℤ◌, ◌-ℤ◌, ◌*ℤ◌, ◌≤ℤ◌, int_laws, floor_div, min_ℤ, max_ℤ, ◌≡◌, List, [], ◌∷◌,
  arith, All, min_ℤ_bounds, max_ℤ_bounds, ◌∙◌, ap,
}
use xray_vpn_bot.Db.{PromoSettings}
use xray_vpn_bot.Referral.{reward_points}

-- The points that a number of days is worth in all.
abbrev pub worth : PromoSettings → ℤ → ℤ
worth settings total =
    min_ℤ settings.reward_cap_points (floor_div total 30 *ℤ settings.points_reward_per_30)

top_up : (a e c : ℤ) → a +ℤ max_ℤ (pos 0) (min_ℤ (e -ℤ a) (c -ℤ a)) ≡ max_ℤ a (min_ℤ c e)
top_up a e c = omega (
  int_laws,
  min_ℤ_bounds (e -ℤ a) (c -ℤ a),
  min_ℤ_bounds c e,
  max_ℤ_bounds (pos 0) (min_ℤ (e -ℤ a) (c -ℤ a)),
  max_ℤ_bounds a (min_ℤ c e),
)

-- One call brings the points given up to the worth of the days, and never takes any back.
pub reward_points_closed :
    (settings : PromoSettings) (total already : ℤ)
    → already +ℤ reward_points settings total already ≡ max_ℤ already (worth settings total)
unfolding reward_points
reward_points_closed settings total already =
    top_up already (floor_div total 30 *ℤ settings.points_reward_per_30) settings.reward_cap_points

-- The points given after purchases of `days` each, from a code with `total` days and `already`
-- points, while the settings stay.
abbrev pub rewarded_after : PromoSettings → ℤ → ℤ → List ℤ → ℤ
rewarded_after settings total already [] = already
rewarded_after settings total already (days ∷ rest) =
    rewarded_after settings (total +ℤ days)
      (already +ℤ reward_points settings (total +ℤ days) already) rest

abbrev pub sum_ℤ : List ℤ → ℤ
sum_ℤ [] = pos 0
sum_ℤ (d ∷ ds) = d +ℤ sum_ℤ ds

floor_div_mono : (a b : ℤ) → a ≤ℤ b → floor_div a 30 ≤ℤ floor_div b 30
floor_div_mono a b h = ground arith

worth_mono :
    (settings : PromoSettings) (a b : ℤ)
    → pos 0 ≤ℤ settings.points_reward_per_30
    → a ≤ℤ b
    → worth settings a ≤ℤ worth settings b
worth_mono settings a b nonneg h =
    let cap = settings.reward_cap_points in
    let per = settings.points_reward_per_30 in
    omega (
      int_laws,
      *ℤ_mono (floor_div a 30) (floor_div b 30) per nonneg (floor_div_mono a b h),
      min_ℤ_bounds cap (floor_div a 30 *ℤ per),
      min_ℤ_bounds cap (floor_div b 30 *ℤ per),
    )

-- A code with no points and no days on it: the split into purchases does not matter.
step_up :
    (settings : PromoSettings) (total already days rest : ℤ)
    → pos 0 ≤ℤ settings.points_reward_per_30
    → pos 0 ≤ℤ rest
    → max_ℤ
        (max_ℤ already (worth settings (total +ℤ days)))
        (worth settings (total +ℤ days +ℤ rest))
      ≡ max_ℤ already (worth settings (total +ℤ (days +ℤ rest)))
step_up settings total already days rest nonneg later =
    let same : total +ℤ days +ℤ rest ≡ total +ℤ (days +ℤ rest) = omega int_laws in
    let grows =
      worth_mono settings (total +ℤ days) (total +ℤ days +ℤ rest) nonneg (omega int_laws) in
    let one = worth settings (total +ℤ days) in
    let all = worth settings (total +ℤ days +ℤ rest) in
    rw (← same) (
      omega (
        int_laws,
        grows,
        max_ℤ_bounds already one,
        max_ℤ_bounds (max_ℤ already one) all,
        max_ℤ_bounds already all,
      ))

sum_nonneg : (ds : List ℤ) → All (λ d. pos 0 ≤ℤ d) ds → pos 0 ≤ℤ sum_ℤ ds
sum_nonneg [] h = omega arith
sum_nonneg (d ∷ ds) h = omega (int_laws, h.0, sum_nonneg ds h.1)

-- However days are split into purchases, none of them negative, the points given in the end are
-- those given before or the worth of all the days, whichever is more, if the rate is not
-- negative.
pub rewarded_after_lem :
    (settings : PromoSettings) (total already d : ℤ) (ds : List ℤ)
    → pos 0 ≤ℤ settings.points_reward_per_30
    → All (λ d. pos 0 ≤ℤ d) ds
    → rewarded_after settings total already (d ∷ ds)
      ≡ max_ℤ already (worth settings (total +ℤ sum_ℤ (d ∷ ds)))
rewarded_after_lem settings total already d [] nonneg h =
    reward_points_closed settings (total +ℤ d) already
    ∙ ap (λ t. max_ℤ already (worth settings t)) (omega int_laws)
rewarded_after_lem settings total already d (e ∷ ds) nonneg h =
    let next = already +ℤ reward_points settings (total +ℤ d) already in
    rewarded_after_lem settings (total +ℤ d) next e ds nonneg h.1
    ∙ ap (λ a. max_ℤ a (worth settings (total +ℤ d +ℤ sum_ℤ (e ∷ ds))))
        (reward_points_closed settings (total +ℤ d) already)
    ∙ step_up settings total already d (sum_ℤ (e ∷ ds)) nonneg (sum_nonneg (e ∷ ds) h)
