-- ===== src/Tests/Giveaways.antt =====
-- A raffle: joining it, and an invitee's action reported twice.
use xray_vpn_bot.Prelude.{pos, ◌≡◌, refl, true, none, some, [], ◌∷◌, arith}
use xray_vpn_bot.Exec.{ok}
use xray_vpn_bot.Db.{invitee_purchase}
use xray_vpn_bot.Giveaway.Config.{
  RawConfig, absent, one, many, normalize_config, normalize_config_idem, raw_of,
}
use xray_vpn_bot.Giveaway.Normal.{IsNormal, sent_by, normalize_config-IsNormal}
use xray_vpn_bot.Giveaway.Tickets.{Env, join_participant, try_grant_invitee_ticket}
use xray_vpn_bot.Giveaway.Unique.{IsUnique, join_participant-IsUnique, try_grant-IsUnique}
use xray_vpn_bot.Giveaway.Retry.{try_grant_again}
use xray_vpn_bot.Tests.Samples.{with_raffle}

-- A configuration with dynamic chances, one known source and one that is dropped.
abbrev dynamic_config : RawConfig
dynamic_config = record {
  distribution = absent;
  entry_condition = one "anyone";
  ticket_sources = many ("invitee_purchase" ∷ "lottery" ∷ []);
  chance_mode = one "dynamic";
  winner_selection = one "most_tickets";
}

normalize_config-IsNormal_example :
    IsNormal (sent_by (some dynamic_config)) (normalize_config (some dynamic_config))
normalize_config-IsNormal_example = normalize_config-IsNormal (some dynamic_config)

normalize_config_idem_example :
    normalize_config (some (raw_of (normalize_config (some dynamic_config))))
    ≡ normalize_config (some dynamic_config)
normalize_config_idem_example = normalize_config_idem (some dynamic_config)

abbrev pub raffle_env : Env
raffle_env = record {
  loads = λ s. some dynamic_config;
  dumps = λ c. "{}";
  window_dt = λ s. none;
  now = 5;
  now_iso = "2026-01-01T00:00:05";
}

unique : IsUnique with_raffle
unique = record {
  tickets_once = λ g tg s by. omega arith;
  participants_once = λ g tg. ground arith;
}

join_participant-IsUnique_example :
    IsUnique (join_participant raffle_env 1 (pos 502) true with_raffle).1
join_participant-IsUnique_example =
    join_participant-IsUnique raffle_env 1 (pos 502) true with_raffle unique

try_grant-IsUnique_example :
    IsUnique
      (try_grant_invitee_ticket raffle_env (pos 501) (pos 502) invitee_purchase with_raffle).1
try_grant-IsUnique_example =
    try_grant-IsUnique raffle_env (pos 501) (pos 502) invitee_purchase with_raffle unique

-- The first report grants one ticket.
first_grant :
    (try_grant_invitee_ticket raffle_env (pos 501) (pos 502) invitee_purchase with_raffle).0 ≡ ok 1
unfolding try_grant_invitee_ticket normalize_config
first_grant = refl

try_grant_again_example :
    let db' =
      (try_grant_invitee_ticket raffle_env (pos 501) (pos 502) invitee_purchase with_raffle).1 in
    try_grant_invitee_ticket raffle_env (pos 501) (pos 502) invitee_purchase db' ≡ (ok 0, db')
try_grant_again_example =
    try_grant_again raffle_env (pos 501) (pos 502) invitee_purchase with_raffle
