-- ===== src/Delivery/Intake.antt =====
-- What `deliver_android_paid` of delivery.py makes of an order before it asks the panel: the squads, and
-- what the account adds.
use text.Mathlib.Text.{◌==◌ as str_eq}
use xray_vpn_bot.Prelude.{ℕ, String, Option, none, some, List, [], ◌∷◌, Text, codes, if◌then◌else◌}
use xray_vpn_bot.Db.{User}
use xray_vpn_bot.Delivery.Names.{parse_squad_slug, Squad, text_of}
use xray_vpn_bot.Delivery.World.{Order, Squads, Outside}
use xray_vpn_bot.Delivery.Allocate.{Job, target_of}

abbrev pub text_opt : Option String → Option Text
text_opt none = none
text_opt (some s) = some (codes s)

abbrev pub text_or_else {ℓ} : {A : Type ℓ} → Option A → Option A → Option A
text_or_else none other = other
text_or_else (some a) other = some a

-- `email or local.get("email")`
abbrev pub email_or : Option String → Option String → Option String
email_or none other = other
email_or (some s) other = if str_eq s "" then other else some s

-- The slug's own squads, or those that the resolver knows for a slug that is not empty.
abbrev pub squad_for : Outside → Order → Option Squad
squad_for outside order = elim (parse_squad_slug order.tariff_slug) [
  | some s ↦ some s
  | none ↦ elim (text_of order.tariff_slug) [ [] ↦ none | c ∷ s ↦ outside.resolve_slug (c ∷ s) ]
]

abbrev pub internal_of : List Text → Option Squad → List Text
internal_of (s ∷ ss) squad = s ∷ ss
internal_of [] none = []
internal_of [] (some squad) = squad.squad_id ∷ []

abbrev pub external_of : Option Text → Option Squad → Text
external_of (some (c ∷ s)) squad = c ∷ s
external_of (some []) none = []
external_of none none = []
external_of (some []) (some squad) = squad.external_squad_id
external_of none (some squad) = squad.external_squad_id

abbrev pub checked_squads : List Text → Text → Option Squads
checked_squads [] external = none
checked_squads (s ∷ ss) [] = none
checked_squads (s ∷ ss) (c ∷ e) = some (record { internal_ids = s ∷ ss; external_id = c ∷ e })

-- Both kinds of squads, from the target or the slug.
unfoldable pub squads_of : Outside → Order → Option Squads
unfolding parse_squad_slug
squads_of outside order =
    let squad = squad_for outside order in
    let target = target_of order in
    checked_squads (internal_of target.internal_squad_ids squad)
      (external_of target.external_squad_id squad)

-- What the account adds to the order.
abbrev pub job_of : Order → User → ℕ → Squads → Job
job_of order u n squads = record {
  order = order;
  tg_id = text_or_else order.tg_id u.tg_id;
  tg_username = text_or_else order.tg_username (text_opt u.username);
  email = email_or order.email u.email;
  squads = squads;
  subscription_count = n;
}
