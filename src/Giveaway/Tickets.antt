-- ===== src/Giveaway/Tickets.antt =====
-- Participants and tickets: `_is_in_window`, `list_active_giveaways`, `is_participant`,
-- `count_tickets`, `_grant_ticket`, `join_participant` and `try_grant_invitee_ticket`.
use text.Mathlib.Text.{◌==◌ as str_eq}
use xray_vpn_bot.Prelude.{
  ℕ, ◌+◌, ℤ, pos, leb_ℤ, eqb_ℤ, String, Bool, true, false, ◌&&◌, ◌||◌, not, Option, none, some,
  List, [], ◌∷◌, ltb, ◌==◌, any, select, count, if◌then◌else◌,
}
use xray_vpn_bot.Exec.{Exec, Result, ok, pure, gets, ◌>>=◌, ◌>>◌}
use xray_vpn_bot.Db.{
  Db, Giveaway, GiveawayParticipant, GiveawayTicket, GiveawayStatus, active, EntryCondition,
  click_only, channel_sub, ChanceMode, static, dynamic, TicketSource, join, invitee_ref_activation,
  invitee_purchase, GiveawayConfig,
}
use xray_vpn_bot.Db.Tables.{insert, by_key}
use xray_vpn_bot.Giveaway.Config.{RawConfig, normalize_config}

-- What the standard library reads from stored texts, and the clock of the call.
pub record Env : Type 0 where
  pub loads : String → Option RawConfig  -- parse_config: json.loads, none for {} or bad JSON
  pub dumps : GiveawayConfig → String  -- json.dumps
  pub window_dt : String → Option ℕ  -- _parse_window_dt, none for ValueError
  pub now : ℕ  -- _now_naive_utc
  pub now_iso : String  -- _now_iso

unfoldable pub config_of : Env → Giveaway → GiveawayConfig
config_of env g = normalize_config (env.loads g.config_json)

-- A bound that is absent, empty or cannot be parsed does not restrict.
abbrev pub bound_of : Env → Option String → Option ℕ
bound_of env none = none
bound_of env (some raw) = if str_eq raw "" then none else env.window_dt raw

abbrev pub before : ℕ → Option ℕ → Bool
before now none = false
before now (some t) = ltb now t

abbrev pub after : ℕ → Option ℕ → Bool
after now none = false
after now (some t) = ltb t now

unfoldable pub is_in_window : Env → Giveaway → Bool
is_in_window env g =
    if before env.now (bound_of env g.starts_at)
    then false
    else if after env.now (bound_of env g.ends_at)
    then false
    else true

abbrev pub is_active : GiveawayStatus → Bool
is_active active = true
is_active _ = false

abbrev pub is_channel_sub : EntryCondition → Bool
is_channel_sub channel_sub = true
is_channel_sub click_only = false

abbrev pub is_dynamic : ChanceMode → Bool
is_dynamic dynamic = true
is_dynamic static = false

abbrev pub source_eq : TicketSource → TicketSource → Bool
source_eq join join = true
source_eq invitee_ref_activation invitee_ref_activation = true
source_eq invitee_purchase invitee_purchase = true
source_eq _ _ = false

-- `=` against a value, IS NULL against none
abbrev pub source_tg_eq : Option ℤ → Option ℤ → Bool
source_tg_eq none none = true
source_tg_eq (some a) (some b) = eqb_ℤ a b
source_tg_eq _ _ = false

unfoldable pub list_active_giveaways : Env → Db → List Giveaway
unfolding is_in_window
list_active_giveaways env db =
    select (λ g. is_active g.status && is_in_window env g) db.giveaways.rows

abbrev pub same_participation : ℕ → ℤ → GiveawayParticipant → Bool
same_participation giveaway_id tg_id p = p.giveaway_id == giveaway_id && eqb_ℤ p.tg_id tg_id

unfoldable pub is_participant : ℕ → ℤ → Db → Bool
is_participant giveaway_id tg_id db =
    any (same_participation giveaway_id tg_id) db.participants.rows

unfoldable pub count_tickets : ℕ → ℤ → Db → ℕ
count_tickets giveaway_id tg_id db =
    count (λ t. t.giveaway_id == giveaway_id && eqb_ℤ t.participant_tg_id tg_id) db.tickets.rows

-- The four columns of `uq_giveaway_ticket`.
abbrev pub same_grant : ℕ → ℤ → TicketSource → Option ℤ → GiveawayTicket → Bool
same_grant giveaway_id tg_id source source_tg_id t =
    (t.giveaway_id == giveaway_id)
    && (eqb_ℤ t.participant_tg_id tg_id
        && (source_eq t.source source && source_tg_eq t.source_tg_id source_tg_id))

abbrev pub add_ticket : Env → ℕ → ℤ → TicketSource → Option ℤ → Db → Db
add_ticket env giveaway_id tg_id source source_tg_id db = record db {
  tickets =
      insert
        (λ id. record {
          id = id;
          giveaway_id = giveaway_id;
          participant_tg_id = tg_id;
          source = source;
          source_tg_id = source_tg_id;
          created_at = env.now_iso;
        })
        db.tickets;
}

unfoldable pub grant_ticket : Env → ℕ → ℤ → TicketSource → Option ℤ → Exec Db Bool
grant_ticket env giveaway_id tg_id source source_tg_id db =
    if any (same_grant giveaway_id tg_id source source_tg_id) db.tickets.rows
    then (ok false, db)
    else (ok true, add_ticket env giveaway_id tg_id source source_tg_id db)

pub data JoinReason : Type 0 where
  invalid_user not_found not_active outside_window channel_sub_required already_joined joined :
      JoinReason

pub record JoinResult : Type 0 where
  pub success : Bool
  pub reason : JoinReason
  pub already : Bool
  pub tickets : ℕ

abbrev refused : JoinReason → JoinResult
refused why = record { success = false; reason = why; already = false; tickets = 0 }

abbrev pub add_participant : Env → ℕ → ℤ → Db → Db
add_participant env giveaway_id tg_id db = record db {
  participants =
      insert
        (λ id. record {
          id = id;
          giveaway_id = giveaway_id;
          tg_id = tg_id;
          joined_at = env.now_iso;
        })
        db.participants;
}

-- The checks of `join_participant` before it looks at the participants.
unfoldable pub join_check : Env → Option Giveaway → ℤ → Bool → Option JoinReason
unfolding is_in_window config_of
join_check env giveaway tg_id channel_sub_ok =
    if leb_ℤ tg_id (pos 0) then some invalid_user else elim giveaway [
      | none ↦ some not_found
      | some g ↦
          if not (is_active g.status)
          then some not_active
          else if not (is_in_window env g)
          then some outside_window
          else if is_channel_sub (config_of env g).entry_condition && not channel_sub_ok
          then some channel_sub_required
          else none
    ]

-- The count that a new participant is told.
abbrev pub join_report : ℕ → ℤ → Exec Db JoinResult
join_report giveaway_id tg_id = do
  tickets ← gets (count_tickets giveaway_id tg_id)
  pure (record { success = true; reason = joined; already = false; tickets = tickets })

-- The entry ticket of a new participant, in both chance modes.
unfoldable pub join_new : Env → ℕ → ℤ → Exec Db JoinResult
unfolding count_tickets grant_ticket
join_new env giveaway_id tg_id = do
  grant_ticket env giveaway_id tg_id join none
  join_report giveaway_id tg_id

-- The handler of a failed flush is left out: the row is new by the test above it, so within one
-- transaction the flush cannot meet the unique constraint.
unfoldable pub join_participant : Env → ℕ → ℤ → Bool → Exec Db JoinResult
unfolding is_participant count_tickets join_new
join_participant env giveaway_id tg_id channel_sub_ok db =
    elim (join_check env (by_key (λ g. g.id) giveaway_id db.giveaways.rows) tg_id channel_sub_ok) [
      | some why ↦ (ok (refused why), db)
      | none ↦
          if is_participant giveaway_id tg_id db
          then (
            ok (record {
              success = true;
              reason = already_joined;
              already = true;
              tickets = count_tickets giveaway_id tg_id db;
            }),
            db,
          )
          else join_new env giveaway_id tg_id (add_participant env giveaway_id tg_id db)
    ]

-- Whether a giveaway rewards the referrer of an invitee's action.
abbrev pub rewards : Env → TicketSource → ℤ → Db → Giveaway → Bool
rewards env source referrer db g =
    is_dynamic (config_of env g).chance_mode
    && (any (source_eq source) (config_of env g).ticket_sources && is_participant g.id referrer db)

abbrev pub is_invitee_source : TicketSource → Bool
is_invitee_source join = false
is_invitee_source _ = true

-- `if await _grant_ticket(...): granted += 1`
abbrev pub counted : Result Bool → ℕ → ℕ
counted (ok true) granted = granted + 1
counted _ granted = granted

-- The loop over the active giveaways, with the tickets granted so far.
unfoldable pub grant_each : Env → ℤ → ℤ → TicketSource → ℕ → List Giveaway → Exec Db ℕ
unfolding is_participant config_of grant_ticket
grant_each env referrer invitee source granted [] db = (ok granted, db)
grant_each env referrer invitee source granted (g ∷ gs) db =
    let skip = grant_each env referrer invitee source granted gs db in
    let r = grant_ticket env g.id referrer source (some invitee) db in
    let next = grant_each env referrer invitee source (counted r.0 granted) gs r.1 in
    if rewards env source referrer db g then next else skip

unfoldable pub try_grant_invitee_ticket : Env → ℤ → ℤ → TicketSource → Exec Db ℕ
unfolding grant_each list_active_giveaways
try_grant_invitee_ticket env referrer invitee source db =
    if leb_ℤ referrer (pos 0) || leb_ℤ invitee (pos 0)
    then (ok 0, db)
    else if not (is_invitee_source source)
    then (ok 0, db)
    else grant_each env referrer invitee source 0 (list_active_giveaways env db) db
