-- ===== src/Giveaway/Config.antt =====
-- The configuration of a giveaway: `default_config` and `normalize_config`. The values of the JSON
-- object that the program stores or an administrator sends are absent, a text or a list of texts.
use text.Mathlib.Text.{◌==◌}
use xray_vpn_bot.Prelude.{
  ◌≡◌, refl, String, Option, none, some, List, [], ◌∷◌, arith, if◌then◌else◌, Bool-cases, inl, inr,
  ap, sym,
}
use xray_vpn_bot.Db.{
  EntryCondition, click_only, channel_sub, ChanceMode, static, dynamic, WinnerSelection, random,
  most_tickets, TicketSource, join, invitee_ref_activation, invitee_purchase, GiveawayConfig,
}

pub data ConfigValue : Type 0 where
  absent : ConfigValue
  one : String → ConfigValue
  many : List String → ConfigValue

-- The dict that `json.loads` gives, by the keys that are read.
pub record RawConfig : Type 0 where
  pub distribution : ConfigValue
  pub entry_condition : ConfigValue
  pub ticket_sources : ConfigValue
  pub chance_mode : ConfigValue
  pub winner_selection : ConfigValue

unfoldable pub default_config : GiveawayConfig
default_config = record {
  distribution = "bot" ∷ [];
  entry_condition = click_only;
  ticket_sources = [];
  chance_mode = static;
  winner_selection = random;
}

-- `value or default`, and then a lone text as a list of one
abbrev pub texts_or : List String → ConfigValue → List String
texts_or default absent = default
texts_or default (one s) = if s == "" then default else s ∷ []
texts_or default (many []) = default
texts_or default (many (s ∷ ss)) = s ∷ ss

-- `value not in (...)` falls back to the first.
abbrev pub entry_of : ConfigValue → EntryCondition
entry_of (one s) = if s == "channel_sub" then channel_sub else click_only
entry_of v = click_only

abbrev pub chance_of : ConfigValue → ChanceMode
chance_of (one s) = if s == "dynamic" then dynamic else static
chance_of v = static

abbrev pub winner_of : ConfigValue → WinnerSelection
winner_of (one s) = if s == "most_tickets" then most_tickets else random
winner_of v = random

-- The two ticket sources that a configuration may name; others are dropped.
abbrev pub known_sources : List String → List TicketSource
known_sources [] = []
known_sources (s ∷ ss) =
    let rest = known_sources ss in
    if s == "invitee_ref_activation"
    then invitee_ref_activation ∷ rest
    else if s == "invitee_purchase"
    then invitee_purchase ∷ rest
    else rest

abbrev pub sources_for : ChanceMode → List TicketSource → List TicketSource
sources_for static sources = []
sources_for dynamic sources = sources

unfoldable pub normalize_config : Option RawConfig → GiveawayConfig
unfolding default_config
normalize_config none = default_config
normalize_config (some raw) =
    let chance = chance_of raw.chance_mode in
    record {
      distribution = texts_or default_config.distribution raw.distribution;
      entry_condition = entry_of raw.entry_condition;
      ticket_sources = sources_for chance (known_sources (texts_or [] raw.ticket_sources));
      chance_mode = chance;
      winner_selection = winner_of raw.winner_selection;
    }

abbrev pub entry_text : EntryCondition → String
entry_text click_only = "click_only"
entry_text channel_sub = "channel_sub"

abbrev pub chance_text : ChanceMode → String
chance_text static = "static"
chance_text dynamic = "dynamic"

abbrev pub winner_text : WinnerSelection → String
winner_text random = "random"
winner_text most_tickets = "most_tickets"

abbrev pub source_text : TicketSource → String
source_text join = "join"
source_text invitee_ref_activation = "invitee_ref_activation"
source_text invitee_purchase = "invitee_purchase"

abbrev pub source_texts : List TicketSource → List String
source_texts [] = []
source_texts (s ∷ ss) = source_text s ∷ source_texts ss

-- The dict that `normalize_config` returns, as it is handed to `json.dumps`.
unfoldable pub raw_of : GiveawayConfig → RawConfig
raw_of c = record {
  distribution = many c.distribution;
  entry_condition = one (entry_text c.entry_condition);
  ticket_sources = many (source_texts c.ticket_sources);
  chance_mode = one (chance_text c.chance_mode);
  winner_selection = one (winner_text c.winner_selection);
}

-- What normalizing again leaves as it is.
record IsFixed (c : GiveawayConfig) : Type 0 where
  pub distribution_kept : texts_or ("bot" ∷ []) (many c.distribution) ≡ c.distribution
  pub sources_kept : known_sources (source_texts c.ticket_sources) ≡ c.ticket_sources
  pub static_has_none : c.chance_mode ≡ static → c.ticket_sources ≡ []

known_sources-fixed :
    (ss : List String) → known_sources (source_texts (known_sources ss)) ≡ known_sources ss
known_sources-fixed [] = refl
known_sources-fixed (s ∷ ss) = elim (Bool-cases (s == "invitee_ref_activation")) [
  | inl a ↦ rw a (ap (λ l. invitee_ref_activation ∷ l) (known_sources-fixed ss))
  | inr a ↦ elim (Bool-cases (s == "invitee_purchase")) [
    | inl b ↦ rw (a, b) (ap (λ l. invitee_purchase ∷ l) (known_sources-fixed ss))
    | inr b ↦ rw (a, b) (known_sources-fixed ss)
  ]
]

texts_or-fixed :
    (v : ConfigValue)
    → texts_or ("bot" ∷ []) (many (texts_or ("bot" ∷ []) v)) ≡ texts_or ("bot" ∷ []) v
texts_or-fixed absent = refl
texts_or-fixed (one s) = ground arith
texts_or-fixed (many []) = refl
texts_or-fixed (many (s ∷ ss)) = refl

sources_for-fixed :
    (m : ChanceMode) (ss : List String)
    → known_sources (source_texts (sources_for m (known_sources ss)))
      ≡ sources_for m (known_sources ss)
sources_for-fixed static ss = refl
sources_for-fixed dynamic ss = known_sources-fixed ss

normalize_config-IsFixed : (raw : Option RawConfig) → IsFixed (normalize_config raw)
unfolding normalize_config default_config
normalize_config-IsFixed none = record {
  distribution_kept = refl;
  sources_kept = refl;
  static_has_none = λ e. refl;
}
normalize_config-IsFixed (some raw) = record {
  distribution_kept = texts_or-fixed raw.distribution;
  sources_kept = sources_for-fixed (chance_of raw.chance_mode) (texts_or [] raw.ticket_sources);
  static_has_none = λ e. rw e;
}

stored_chance : (m : ChanceMode) → chance_of (one (chance_text m)) ≡ m
stored_chance static = refl
stored_chance dynamic = refl

stored_entry : (e : EntryCondition) → entry_of (one (entry_text e)) ≡ e
stored_entry click_only = refl
stored_entry channel_sub = refl

stored_winner : (w : WinnerSelection) → winner_of (one (winner_text w)) ≡ w
stored_winner random = refl
stored_winner most_tickets = refl

stored_sources :
    (m : ChanceMode) (ss : List TicketSource)
    → (m ≡ static → ss ≡ [])
    → known_sources (source_texts ss) ≡ ss
    → sources_for m (known_sources (texts_or [] (many (source_texts ss)))) ≡ ss
stored_sources static ss none_given known = sym (none_given refl)
stored_sources dynamic [] none_given known = refl
stored_sources dynamic (s ∷ ss) none_given known = known

stored : (c : GiveawayConfig) → IsFixed c → normalize_config (some (raw_of c)) ≡ c
unfolding normalize_config raw_of default_config
stored c h =
    let kept : sources_for (chance_of (one (chance_text c.chance_mode)))
          (known_sources (texts_or [] (many (source_texts c.ticket_sources))))
        ≡ c.ticket_sources =
      rw (stored_chance c.chance_mode)
        (stored_sources c.chance_mode c.ticket_sources h.static_has_none h.sources_kept) in
    λ i. record {
      distribution = h.distribution_kept i;
      entry_condition = stored_entry c.entry_condition i;
      ticket_sources = kept i;
      chance_mode = stored_chance c.chance_mode i;
      winner_selection = stored_winner c.winner_selection i;
    }

-- Writing a configuration and reading it back changes nothing: normalize_config is idempotent
-- through the stored form.
pub normalize_config_idem :
    (raw : Option RawConfig)
    → normalize_config (some (raw_of (normalize_config raw))) ≡ normalize_config raw
normalize_config_idem raw = stored (normalize_config raw) (normalize_config-IsFixed raw)
