-- ===== src/Giveaway/Lifecycle.antt =====
-- The life of a giveaway: `create_giveaway`, `update_giveaway`, `activate_giveaway` and
-- `close_giveaway`. A loaded row is passed in, and what is assigned to it is written by its id.
use text.Mathlib.Text.{◌==◌ as str_eq}
use xray_vpn_bot.Prelude.{
  ℕ, max, ℤ, pos, negsuc, String, Bool, true, false, ◌&&◌, ◌||◌, not, Option, none, some, ◌==◌,
  is_some, if◌then◌else◌,
}
use xray_vpn_bot.Prelude.Strip.{strip}
use xray_vpn_bot.Exec.{Exec, ok, err, value_error}
use xray_vpn_bot.Db.{Db, Giveaway, GiveawayStatus, draft, active, closed}
use xray_vpn_bot.Db.Tables.{insert, update}
use xray_vpn_bot.Giveaway.Config.{RawConfig, normalize_config}
use xray_vpn_bot.Giveaway.Tickets.{Env, is_active}

-- max(1, winner_count)
abbrev pub at_least_one : ℤ → ℕ
at_least_one (pos n) = max 1 n
at_least_one (negsuc n) = 1

-- The keyword arguments of `create_giveaway`.
pub record NewGiveaway : Type 0 where
  pub title : String
  pub channel_text : String
  pub config : RawConfig
  pub winner_count : ℤ
  pub starts_at : Option String
  pub ends_at : Option String
  pub created_by : String

abbrev pub new_giveaway : Env → NewGiveaway → ℕ → Giveaway
new_giveaway env new id = record {
  id = id;
  title = strip new.title;
  channel_text = new.channel_text;
  status = draft;
  config_json = env.dumps (normalize_config (some new.config));
  winner_count = at_least_one new.winner_count;
  starts_at = new.starts_at;
  ends_at = new.ends_at;
  drawn_at = none;
  created_at = env.now_iso;
  created_by = new.created_by;
}

unfoldable pub create_giveaway : Env → NewGiveaway → Exec Db Giveaway
unfolding strip normalize_config
create_giveaway env new db = (
  ok (new_giveaway env new db.giveaways.next),
  record db { giveaways = insert (new_giveaway env new) db.giveaways },
)

-- The keyword arguments of `update_giveaway`; none stands for an argument left out.
pub record GiveawayPatch : Type 0 where
  pub title : Option String
  pub channel_text : Option String
  pub config : Option RawConfig
  pub winner_count : Option ℤ
  pub starts_at : Option String
  pub ends_at : Option String
  pub clear_starts_at : Bool
  pub clear_ends_at : Bool

abbrev pub given {ℓ} : {A B : Type ℓ} → Option A → (A → B) → B → B
given none f old = old
given (some new) f old = f new

-- `elif bound is not None: ... = bound or None`
abbrev pub new_bound : Bool → Option String → Option String → Option String
new_bound true new old = none
new_bound false none old = old
new_bound false (some raw) old = if str_eq raw "" then none else some raw

abbrev pub is_draft : GiveawayStatus → Bool
is_draft draft = true
is_draft _ = false

-- Whether anything but the window is to change.
abbrev pub edits_content : GiveawayPatch → Bool
edits_content patch =
    is_some patch.title
    || (is_some patch.channel_text || (is_some patch.config || is_some patch.winner_count))

abbrev pub edited : Env → GiveawayPatch → Giveaway → Giveaway
edited env patch g =
    if is_draft g.status
    then record g {
      title = given patch.title strip g.title;
      channel_text = given patch.channel_text (λ t. t) g.channel_text;
      config_json = given patch.config (λ c. env.dumps (normalize_config (some c))) g.config_json;
      winner_count = given patch.winner_count at_least_one g.winner_count;
    }
    else g

abbrev pub rescheduled : GiveawayPatch → Giveaway → Giveaway
rescheduled patch g = record g {
  starts_at = new_bound patch.clear_starts_at patch.starts_at g.starts_at;
  ends_at = new_bound patch.clear_ends_at patch.ends_at g.ends_at;
}

abbrev pub save : Giveaway → Db → Db
save g db = record db { giveaways = update (λ x. x.id == g.id) (λ x. g) db.giveaways }

unfoldable pub update_giveaway : Env → GiveawayPatch → Giveaway → Exec Db Giveaway
unfolding strip normalize_config
update_giveaway env patch g db =
    if not (is_draft g.status) && not (is_active g.status)
    then (err (value_error "only draft or active giveaways can be edited"), db)
    else if not (is_draft g.status) && edits_content patch
    then (err (value_error "active giveaways can only change starts_at/ends_at"), db)
    else (
      ok (rescheduled patch (edited env patch g)),
      save (rescheduled patch (edited env patch g)) db,
    )

unfoldable pub activate_giveaway : Giveaway → Exec Db Giveaway
activate_giveaway g db =
    if is_draft g.status
    then (ok (record g { status = active }), save (record g { status = active }) db)
    else (err (value_error "giveaway is not draft"), db)

unfoldable pub close_giveaway : Giveaway → Exec Db Giveaway
close_giveaway g db =
    if is_active g.status
    then (ok (record g { status = closed }), save (record g { status = closed }) db)
    else (err (value_error "giveaway is not active"), db)
