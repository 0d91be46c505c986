-- ===== src/Purchase/Slug.antt =====
-- Slugs of the form sid:<squad>:esid:<external>, which repo/credits_pay.py takes apart.
use xray_vpn_bot.Prelude.{◌≡◌, ◌≢◌, refl, some, ◌∷◌, ◌++◌, All, Text, codes, partition-append}
use xray_vpn_bot.Purchase.{parse_squads}

-- "sid:<squad>:esid:<external>"
abbrev pub squad_slug : Text → Text → Text
squad_slug squad external = codes "sid:" ++ (squad ++ b':' ∷ (codes "esid:" ++ external))

-- The squads of a slug are read back from it, if the first has no colon in it; the second may.
pub parse_squads-squad_slug :
    (squad external : Text)
    → All (λ c. c ≢ b':') squad
    → parse_squads (squad_slug squad external) ≡ (some squad, some external)
unfolding parse_squads
parse_squads-squad_slug squad external h =
    let cut = partition-append b':' squad (codes "esid:" ++ external) h in rw cut (rw cut refl)
