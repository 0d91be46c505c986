-- ===== src/Delivery/World.antt =====
-- What a delivery works on: the database and the panel. An answer of the panel is a value, since
-- every call of it is caught; the text of an exception comes with it.
use xray_vpn_bot.Prelude.{ℕ, ℤ, String, Bool, true, false, Option, List, Text}
use xray_vpn_bot.Db.{Db}
use xray_vpn_bot.Panel.{Profile}
use xray_vpn_bot.Delivery.Names.{Squad}

-- RemnawaveOperationError; TimeoutError, ConnectionError and OSError; any other exception.
pub data Failure : Type 0 where
  operation_failed : Bool → String → Failure
  unreachable : String → Failure
  other_failure : String → Failure

pub data Answer {ℓ} (A : Type ℓ) : Type ℓ where
  answered : A → Answer A
  failed : Failure → Answer A

abbrev pub is_retryable : Failure → Bool
is_retryable (operation_failed retryable message) = retryable
is_retryable (unreachable message) = true
is_retryable (other_failure message) = false

-- str(exc)
abbrev pub message_of : Failure → String
message_of (operation_failed retryable message) = message
message_of (unreachable message) = message
message_of (other_failure message) = message

-- The delivery target of a tariff; a missing list is the empty list.
pub record Target : Type 0 where
  pub internal_squad_ids : List Text
  pub external_squad_id : Option Text
  pub remnawave_description : Option Text
  pub traffic_limit_bytes : Option ℕ
  pub traffic_limit_strategy : Option String
  pub remnawave_tag : Option String

-- The keyword arguments of `deliver_android_paid`.
pub record Order : Type 0 where
  pub transaction_id : String
  pub user_id : ℕ
  pub email : Option String
  pub days : ℤ
  pub tariff_slug : Option Text
  pub delivery_target : Option Target
  pub target_rw_id : Option ℕ
  pub tg_id : Option ℤ
  pub tg_username : Option Text
  pub purchase_source : String

-- The squads of an order, resolved.
pub record Squads : Type 0 where
  pub internal_ids : List Text
  pub external_id : Text

-- The arguments of apply_new_user.
pub record NewProfile : Type 0 where
  pub username : Text
  pub telegram_id : ℤ
  pub days : ℤ
  pub email : Option String
  pub squads : Squads
  pub traffic_limit_bytes : Option ℕ
  pub traffic_limit_strategy : Option String
  pub tag : Option String
  pub description : Text

-- The arguments of apply_extend and apply_update; only the first reads `current_days_left`.
pub record ProfileChange : Type 0 where
  pub rw_id : ℕ
  pub username : Text
  pub days : ℤ
  pub current_days_left : ℤ
  pub squads : Squads
  pub traffic_limit_bytes : Option ℕ
  pub traffic_limit_strategy : Option String
  pub tag : Option String
  pub description : Text

-- The calls of remnawave_client, with strict=True.
pub record PanelCalls (W : Type 0) : Type 0 where
  pub by_id : ℕ → W → Answer (Option Profile) × W
  pub by_username : Text → W → Answer (Option Profile) × W
  pub new_user : NewProfile → W → Answer (Option Profile) × W
  pub extend : ProfileChange → W → Answer (Option Profile) × W
  pub update : ProfileChange → W → Answer (Option Profile) × W

-- The standard library and what the caller injects: the case mapping, the resolver of slugs, the text
-- of a slug in an error, and the days from the clock to a moment, rounded.
pub record Outside : Type 0 where
  pub lower : Text → Text
  pub resolve_slug : Text → Option Squad
  pub shown : Option Text → String
  pub days_until : ℤ → ℤ
  pub now : String

pub record World (W : Type 0) : Type 0 where
  pub db : Db
  pub panel : W

module _ {W A : Type 0} where
  -- A call of the panel.
  abbrev pub ask : (W → Answer A × W) → World W → Answer A × World W
  ask f w = ((f w.panel).0, record w { panel = (f w.panel).1 })
