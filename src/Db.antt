-- ===== src/Db.antt =====
-- The rows and the tables of packages/common_db/common_db/models. A column that the source
-- declares nullable is an `Option`; a timestamp is the text that the clock gave. Amounts of money
-- in `transactions` are in hundredths.
pub mod Tables
pub mod Updates
pub mod Sums
use xray_vpn_bot.Prelude.{ℕ, ℤ, String, Bool, Option, List}
use xray_vpn_bot.Prelude.Texts.{Text}
use Tables.{Table}

-- users
pub record User : Type 0 where
  pub id : ℕ
  pub tg_id : Option ℤ
  pub username : Option String
  pub vless_uuid : Option String
  pub rw_id : Option ℕ
  pub api_provider : Option String
  pub email : Option String
  pub is_banned : Option Bool
  pub language : Option String
  pub miniapp_onboarding_version : ℕ
  pub vip : Option ℕ
  pub bonus_credits : ℤ
  pub password_hash : Option String
  pub password_updated_at : Option String
  pub email_verified_at : Option String

-- user_subscriptions
pub record UserSubscription : Type 0 where
  pub id : ℕ
  pub user_id : ℕ
  pub rw_id : ℕ
  pub product_key : Option String
  pub label : Option String
  pub source : String
  pub is_primary : Bool
  pub created_at : String
  pub updated_at : String

-- credit_ledger
pub record CreditLedger : Type 0 where
  pub id : ℕ
  pub user_id : ℕ
  pub amount : ℤ
  pub source : String
  pub reference : Option String
  pub balance_after : ℤ
  pub created_at : String

-- transactions
pub record Transaction : Type 0 where
  pub transaction_id : String
  pub vless_uuid : String
  pub username : Option String
  pub order_status : String
  pub delivery_status : ℕ
  pub payment_method : Option String
  pub amount : Option ℕ
  pub created_at : Option String
  pub days_ordered : ℤ
  pub expire_date : Option String
  pub squad_id : Option Text
  pub external_squad_id : Option Text
  pub provider_invoice_id : Option String
  pub purchase_source : String
  pub delivery_error : Option String
  pub user_id : ℕ
  pub android_user_id : Option ℕ
  pub target_rw_id : Option ℕ

pub data PromoType : Type 0 where
  referral promotional : PromoType

-- promos
pub record Promo : Type 0 where
  pub id : ℕ
  pub tg_id : ℤ
  pub promo_code : String
  pub promo_type : PromoType
  pub days_purchased : ℤ
  pub points_rewarded : ℤ
  pub credit_grant : Option ℤ

-- promo_redemptions
pub record PromoRedemption : Type 0 where
  pub id : ℕ
  pub tg_id : ℤ
  pub promo_code : String
  pub promo_type : PromoType
  pub created_at : String

-- promo_settings: one row at id 1
pub record PromoSettings : Type 0 where
  pub default_credit_grant : ℤ
  pub default_discount_percent : ℤ
  pub points_reward_per_30 : ℤ
  pub reward_cap_points : ℤ

pub data GiveawayStatus : Type 0 where
  draft active closed drawn : GiveawayStatus

pub data EntryCondition : Type 0 where
  click_only channel_sub : EntryCondition

pub data ChanceMode : Type 0 where
  static dynamic : ChanceMode

pub data WinnerSelection : Type 0 where
  random most_tickets : WinnerSelection

pub data TicketSource : Type 0 where
  join invitee_ref_activation invitee_purchase : TicketSource

-- What `normalize_config(parse_config(config_json))` reads from the stored JSON.
pub record GiveawayConfig : Type 0 where
  pub distribution : List String
  pub entry_condition : EntryCondition
  pub ticket_sources : List TicketSource
  pub chance_mode : ChanceMode
  pub winner_selection : WinnerSelection

-- giveaways
pub record Giveaway : Type 0 where
  pub id : ℕ
  pub title : String
  pub channel_text : String
  pub status : GiveawayStatus
  pub config_json : String
  pub winner_count : ℕ
  pub starts_at : Option String
  pub ends_at : Option String
  pub drawn_at : Option String
  pub created_at : String
  pub created_by : String

-- giveaway_participants
pub record GiveawayParticipant : Type 0 where
  pub id : ℕ
  pub giveaway_id : ℕ
  pub tg_id : ℤ
  pub joined_at : String

-- giveaway_tickets
pub record GiveawayTicket : Type 0 where
  pub id : ℕ
  pub giveaway_id : ℕ
  pub participant_tg_id : ℤ
  pub source : TicketSource
  pub source_tg_id : Option ℤ
  pub created_at : String

-- giveaway_winners
pub record GiveawayWinner : Type 0 where
  pub id : ℕ
  pub giveaway_id : ℕ
  pub tg_id : ℤ
  pub rank : ℕ
  pub tickets : ℕ
  pub winning_ticket_id : Option ℕ

-- pending_subscription_onboardings
pub record PendingOnboarding : Type 0 where
  pub user_id : ℕ
  pub rw_id : Option ℕ
  pub created_at : ℕ
  pub expires_at : ℕ

pub record Db : Type 0 where
  pub users : Table User
  pub subscriptions : Table UserSubscription
  pub ledger : Table CreditLedger
  pub transactions : List Transaction
  pub promos : Table Promo
  pub redemptions : Table PromoRedemption
  pub settings : Option PromoSettings
  pub giveaways : Table Giveaway
  pub participants : Table GiveawayParticipant
  pub tickets : Table GiveawayTicket
  pub winners : Table GiveawayWinner
  pub pending : List PendingOnboarding
