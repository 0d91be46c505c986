-- ===== src/Panel.antt =====
-- The Remnawave panel as the packages see it: the normalized user that packages/remnawave_client
-- returns (`_normalize_user` of client.py), and the scenario that it calls for (scenarios.py).
use text.Mathlib.Text.{◌==◌ as str_eq}
use xray_vpn_bot.Prelude.{
  ℕ, ℤ, String, Text, Bool, false, ◌&&◌, not, Option, none, some, if◌then◌else◌, is_some, eqb_ℤ,
  pos,
}

-- The keys of the normalized dict that are read.
pub record Profile : Type 0 where
  pub rw_id : Option ℕ
  pub username : Option Text
  pub status : Option String
  pub data_limit : Option ℕ
  pub expire : Option ℤ
  pub email : Option String
  pub telegram_id : Option ℤ
  pub description : Option Text
  pub subscription_url : Option String

abbrev pub status_is : String → Profile → Bool
status_is s p = elim p.status [ none ↦ false | some t ↦ str_eq t s ]

-- status == "active" and data_limit is None
abbrev pub is_paid : Profile → Bool
is_paid p = status_is "active" p && not (is_some p.data_limit)

pub data SubscriptionType : Type 0 where
  free paid : SubscriptionType

pub data Scenario : Type 0 where
  new_user extend update already_active limited : Scenario

abbrev pub expire_is_zero : Profile → Bool
expire_is_zero p = elim p.expire [ none ↦ false | some t ↦ eqb_ℤ t (pos 0) ]

abbrev pub free_scenario : Profile → Scenario
free_scenario p =
    if status_is "limited" p
    then limited
    else if expire_is_zero p
    then update
    else if not (status_is "active" p)
    then update
    else already_active

unfoldable pub resolve_scenario : Option Profile → SubscriptionType → Scenario
resolve_scenario none kind = new_user
resolve_scenario (some p) free = free_scenario p
resolve_scenario (some p) paid = if is_paid p then extend else update
