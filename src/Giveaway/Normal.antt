-- ===== src/Giveaway/Normal.antt =====
-- What `normalize_config` of repo/giveaways.py makes of the texts that are sent.
use text.Mathlib.Text.{◌==◌ as str_eq}
use xray_vpn_bot.Prelude.{
  ℕ, String, eq_iff, ◌≡◌, ◌≢◌, refl, sym, ap, ◌∙◌, inl, inr, Bool, true, false, Option, none, some,
  List, [], ◌∷◌, arith, count, if◌then◌else◌, Bool-cases,
}
use xray_vpn_bot.Db.{TicketSource, join, invitee_ref_activation, invitee_purchase, GiveawayConfig}
use xray_vpn_bot.Giveaway.Config.{
  ConfigValue, absent, one, many, RawConfig, texts_or, known_sources, sources_for, chance_of,
  default_config, normalize_config, source_text,
}
use xray_vpn_bot.Giveaway.Tickets.{source_eq}

-- The texts of a value.
abbrev pub sent : ConfigValue → List String
sent absent = []
sent (one s) = s ∷ []
sent (many ss) = ss

abbrev pub is_text : String → ConfigValue → Bool
is_text t absent = false
is_text t (one s) = str_eq s t
is_text t (many ss) = false

abbrev pub is_falsy : ConfigValue → Bool
is_falsy absent = true
is_falsy (one s) = str_eq s ""
is_falsy (many []) = true
is_falsy (many (s ∷ ss)) = false

-- No object is an object without keys.
abbrev pub sent_by : Option RawConfig → RawConfig
sent_by none = record {
  distribution = absent;
  entry_condition = absent;
  ticket_sources = absent;
  chance_mode = absent;
  winner_selection = absent;
}
sent_by (some raw) = raw

-- How often a source is due: as often as it is named where dynamic chances are asked for, and the
-- ticket of joining never.
abbrev pub due : TicketSource → Bool → List String → ℕ
due join asked named = 0
due s asked named = if asked then count (λ t. str_eq t (source_text s)) named else 0

pub record IsNormal (raw : RawConfig) (c : GiveawayConfig) : Type 0 where
  pub has_distribution : c.distribution ≢ []
  pub distribution_sent :
      c.distribution ≡ (if is_falsy raw.distribution then "bot" ∷ [] else sent raw.distribution)
  pub sources_due :
      (s : TicketSource)
      → count (source_eq s) c.ticket_sources
        ≡ due s (is_text "dynamic" raw.chance_mode) (sent raw.ticket_sources)

-- The two names of sources differ.
other_name :
    (t : String) → str_eq t "invitee_ref_activation" ≡ true → str_eq t "invitee_purchase" ≡ false
other_name t e =
    let same : t ≡ "invitee_ref_activation" = ground (arith, eq_iff t "invitee_ref_activation") in
    rw same refl

no_join : (ss : List String) → count (source_eq join) (known_sources ss) ≡ 0
no_join [] = refl
no_join (s ∷ ss) = ground (arith, no_join ss)

known_ref :
    (ss : List String)
    → count (source_eq invitee_ref_activation) (known_sources ss)
      ≡ count (λ t. str_eq t "invitee_ref_activation") ss
known_ref [] = refl
known_ref (s ∷ ss) = ground (arith, known_ref ss)

known_purchase :
    (ss : List String)
    → count (source_eq invitee_purchase) (known_sources ss)
      ≡ count (λ t. str_eq t "invitee_purchase") ss
known_purchase [] = refl
known_purchase (s ∷ ss) = ground (arith, known_purchase ss, other_name s)

known_due :
    (s : TicketSource) (ss : List String) → count (source_eq s) (known_sources ss) ≡ due s true ss
known_due join ss = no_join ss
known_due invitee_ref_activation ss = known_ref ss
known_due invitee_purchase ss = known_purchase ss

none_due : (s : TicketSource) (ss : List String) → due s false ss ≡ 0
none_due join ss = refl
none_due invitee_ref_activation ss = refl
none_due invitee_purchase ss = refl

-- An empty text names no source.
known_sources-sent : (v : ConfigValue) → known_sources (texts_or [] v) ≡ known_sources (sent v)
known_sources-sent absent = refl
known_sources-sent (one s) = elim (Bool-cases (str_eq s "")) [
  | inl e ↦ let blank : s ≡ "" = ground (arith, eq_iff s "") in rw (e, blank) refl
  | inr e ↦ rw e refl
]
known_sources-sent (many []) = refl
known_sources-sent (many (s ∷ ss)) = refl

sources_for-asked :
    (mode : ConfigValue) (ss : List TicketSource)
    → sources_for (chance_of mode) ss ≡ (if is_text "dynamic" mode then ss else [])
sources_for-asked absent ss = refl
sources_for-asked (one t) ss = elim (Bool-cases (str_eq t "dynamic")) [
  | inl e ↦ rw e refl
  | inr e ↦ rw e refl
]
sources_for-asked (many ts) ss = refl

sources_for-due :
    (mode v : ConfigValue) (s : TicketSource)
    → count (source_eq s) (sources_for (chance_of mode) (known_sources (texts_or [] v)))
      ≡ due s (is_text "dynamic" mode) (sent v)
sources_for-due mode v s =
    ap (count (source_eq s)) (sources_for-asked mode (known_sources (texts_or [] v)))
    ∙ elim (Bool-cases (is_text "dynamic" mode)) [
      | inl e ↦ rw (e, known_sources-sent v) (known_due s (sent v))
      | inr e ↦ rw e (sym (none_due s (sent v)))
    ]

texts_or-sent :
    (v : ConfigValue)
    → (texts_or ("bot" ∷ []) v ≢ [])
      × (texts_or ("bot" ∷ []) v ≡ (if is_falsy v then "bot" ∷ [] else sent v))
texts_or-sent absent = ((λ e. absurd (ground arith)), refl)
texts_or-sent (one s) = elim (Bool-cases (str_eq s "")) [
  | inl e ↦ rw e ((λ f. absurd (ground arith)), refl)
  | inr e ↦ rw e ((λ f. absurd (ground arith)), refl)
]
texts_or-sent (many []) = ((λ e. absurd (ground arith)), refl)
texts_or-sent (many (s ∷ ss)) = ((λ e. absurd (ground arith)), refl)

-- Whatever is sent, the configuration has a distribution: the texts that are sent, or the bot
-- where nothing or an empty value is sent. Where dynamic chances are asked for, it has each of
-- the two sources for invitees as often as it is named, and otherwise none; it never has the
-- source of joining.
pub normalize_config-IsNormal :
    (raw : Option RawConfig) → IsNormal (sent_by raw) (normalize_config raw)
unfolding normalize_config default_config
normalize_config-IsNormal none = record {
  has_distribution = λ e. absurd (ground arith);
  distribution_sent = refl;
  sources_due = λ s. sym (none_due s []);
}
normalize_config-IsNormal (some raw) = record {
  has_distribution = (texts_or-sent raw.distribution).0;
  distribution_sent = (texts_or-sent raw.distribution).1;
  sources_due = λ s. sources_for-due raw.chance_mode raw.ticket_sources s;
}
