-- ===== src/Tests/Samples.antt =====
-- Concrete rows and databases.
use xray_vpn_bot.Prelude.{ℕ, ℤ, pos, String, Bool, true, false, none, some, [], ◌∷◌}
use xray_vpn_bot.Db.{
  Db, User, UserSubscription, Promo, PromoType, referral, PromoRedemption, Giveaway, active,
}
use xray_vpn_bot.Db.Tables.{Table}

abbrev pub no_rows : {A : Type 0} → Table A
no_rows = record { rows = []; next = 1 }

abbrev pub user : ℕ → ℤ → ℤ → User
user id tg credits = record {
  id = id;
  tg_id = some tg;
  username = some "user";
  vless_uuid = none;
  rw_id = none;
  api_provider = none;
  email = none;
  is_banned = some false;
  language = none;
  miniapp_onboarding_version = 0;
  vip = none;
  bonus_credits = credits;
  password_hash = none;
  password_updated_at = none;
  email_verified_at = none;
}

abbrev pub empty_db : Db
empty_db = record {
  users = no_rows;
  subscriptions = no_rows;
  ledger = no_rows;
  transactions = [];
  promos = no_rows;
  redemptions = no_rows;
  settings = none;
  giveaways = no_rows;
  participants = no_rows;
  tickets = no_rows;
  winners = no_rows;
  pending = [];
}

abbrev pub alice : User
alice = user 1 (pos 501) (pos 100)

abbrev pub bob : User
bob = user 2 (pos 502) (pos 0)

-- Two users, the first with a balance of 100.
abbrev pub two_users : Db
two_users = record empty_db { users = record { rows = alice ∷ bob ∷ []; next = 3 } }

abbrev pub code_of : ℕ → ℤ → String → PromoType → Promo
code_of id tg code type = record {
  id = id;
  tg_id = tg;
  promo_code = code;
  promo_type = type;
  days_purchased = pos 40;
  points_rewarded = pos 30;
  credit_grant = none;
}

abbrev pub alice_code : Promo
alice_code = code_of 1 (pos 501) "ALICE" referral

abbrev pub bob_used : PromoRedemption
bob_used = record {
  id = 1;
  tg_id = pos 502;
  promo_code = "ALICE";
  promo_type = referral;
  created_at = "2026-01-01T00:00:00";
}

-- Alice has a referral code.
abbrev pub with_code : Db
with_code = record two_users { promos = record { rows = alice_code ∷ []; next = 2 } }

-- Bob has redeemed it.
abbrev pub referred : Db
referred = record with_code { redemptions = record { rows = bob_used ∷ []; next = 2 } }

abbrev pub raffle : Giveaway
raffle = record {
  id = 1;
  title = "raffle";
  channel_text = "";
  status = active;
  config_json = "{}";
  winner_count = 1;
  starts_at = none;
  ends_at = none;
  drawn_at = none;
  created_at = "2026-01-01T00:00:00";
  created_by = "admin";
}

abbrev pub with_raffle : Db
with_raffle = record referred {
  giveaways = record { rows = raffle ∷ []; next = 2 };
  participants = record {
    rows =
        record { id = 1; giveaway_id = 1; tg_id = pos 501; joined_at = "2026-01-01T00:00:00" } ∷ [];
    next = 2;
  };
}

abbrev pub subscription : ℕ → ℕ → ℕ → Bool → UserSubscription
subscription id user_id rw primary = record {
  id = id;
  user_id = user_id;
  rw_id = rw;
  product_key = none;
  label = none;
  source = "bot";
  is_primary = primary;
  created_at = "2026-01-01T00:00:00";
  updated_at = "2026-01-01T00:00:00";
}

-- Alice has two profiles, and the first is her primary.
abbrev pub subscribed : Db
subscribed = record two_users {
  users = record { rows = record alice { rw_id = some 70 } ∷ bob ∷ []; next = 3 };
  subscriptions = record {
    rows = subscription 1 1 70 true ∷ subscription 2 1 80 false ∷ [];
    next = 3;
  };
}
