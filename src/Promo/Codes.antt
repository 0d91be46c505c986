-- ===== src/Promo/Codes.antt =====
-- The generation of referral codes in repo/promos.py: `_generate_unique_code` and
-- `get_or_create_referral_code`.
use text.Mathlib.Text.{◌==◌ as str_eq}
use xray_vpn_bot.Prelude.{
  ◌≤◌, ℤ, String, eq_iff, ◌≡◌, refl, sym, ap, ◌∙◌, ◌⊎◌, inl, inr, Bool, true, false, none, is_some,
  is_some-find, List, [], ◌∷◌, arith, All, any, count, count-append, count_none, not, Bool-cases,
  Option-cases,
}
use xray_vpn_bot.Exec.{Result, Error, ok, err}
use xray_vpn_bot.Db.{Db, Promo}
use xray_vpn_bot.Promo.Lookup.{
  get_promo_by_tg_id, get_promo_by_code, generate_unique_code, get_or_create_referral_code,
  add_referral_code,
}

abbrev pub has_code : String → Promo → Bool
has_code code p = str_eq p.promo_code code

abbrev pub IsNamed : String → Type 0
IsNamed code = str_eq code "" ≡ false

-- Codes are unique in the catalogue.
abbrev pub IsCoded : Db → Type 0
IsCoded db = (code : String) → count (has_code code) db.promos.rows ≤ 1

unused :
    (code : String) (db : Db)
    → IsNamed code
    → is_some (get_promo_by_code code db) ≡ any (has_code code) db.promos.rows
unfolding get_promo_by_code
unused code db named = rw named (is_some-find (has_code code) db.promos.rows)

generate-unused :
    (draws : List String) (db : Db) (code : String)
    → All IsNamed draws
    → generate_unique_code draws db ≡ ok code
    → any (has_code code) db.promos.rows ≡ false
unfolding generate_unique_code
generate-unused [] db code named e = cc
generate-unused (d ∷ draws) db code named e = elim (Bool-cases (is_some (get_promo_by_code d db))) [
  | inl taken ↦ generate-unused draws db code named.1 (ground arith)
  | inr free ↦
      let same : d ≡ code = ground arith in
      ap (λ c. any (has_code c) db.promos.rows) (sym same) ∙ (sym (unused d db named.0) ∙ free)
]

-- The generator of codes returns as soon as one of its draws is free: whenever some draw is not
-- the code of a promo, it returns a code, and no promo has that code.
pub generate_unique_code-returns :
    (draws : List String) (db : Db)
    → any (λ code. not (is_some (get_promo_by_code code db))) draws ≡ true
    → (code : String) × (generate_unique_code draws db ≡ ok code)
      × (get_promo_by_code code db ≡ none)
unfolding generate_unique_code
generate_unique_code-returns [] db h = absurd cc
generate_unique_code-returns (d ∷ draws) db h =
    elim (Bool-cases (is_some (get_promo_by_code d db))) [
      | inr free ↦ (d, rw free refl, ground arith)
      | inl taken ↦
          let (code, e, free) = generate_unique_code-returns draws db (ground arith) in
          (code, rw taken e, free)
    ]

add_referral_code-IsCoded :
    (tg : ℤ) (code : String) (db : Db)
    → any (has_code code) db.promos.rows ≡ false
    → IsCoded db
    → IsCoded (add_referral_code tg code db)
add_referral_code-IsCoded tg code db free h code' = elim (Bool-cases (str_eq code code')) [
  | inr miss ↦ rw (count-append (has_code code') db.promos.rows) (rw miss (omega (arith, h code')))
  | inl hit ↦
      let same : code ≡ code' = (eq_iff code code').0 hit in
      let none_there : count (has_code code') db.promos.rows ≡ 0 =
        ap (λ c. count (has_code c) db.promos.rows) (sym same)
        ∙ count_none (has_code code) db.promos.rows free in
      rw (count-append (has_code code') db.promos.rows) (rw hit (omega (arith, none_there)))
]

Result-cases : {A : Type 0} (r : Result A) → ((a : A) × (r ≡ ok a)) ⊎ ((e : Error) × (r ≡ err e))
Result-cases (ok a) = inl (a, refl)
Result-cases (err e) = inr (e, refl)

-- Looking up or creating a referral code keeps codes unique in the catalogue, if no draw of the
-- generator is the empty text, also when the draws run out.
pub get_or_create-IsCoded :
    (tg : ℤ) (draws : List String) (db : Db)
    → All IsNamed draws
    → IsCoded db
    → IsCoded (get_or_create_referral_code tg draws db).1
unfolding get_or_create_referral_code
get_or_create-IsCoded tg draws db named h = elim (Option-cases (get_promo_by_tg_id tg db)) [
  | inr (promo, found) ↦ rw (found, get_or_create_referral_code) h
  | inl missing ↦ elim (Result-cases (generate_unique_code draws db)) [
    | inr (e, raised) ↦ rw (missing, get_or_create_referral_code) (rw raised h)
    | inl (code, drawn) ↦
        rw (missing, get_or_create_referral_code)
          (rw drawn
            (add_referral_code-IsCoded tg code db (generate-unused draws db code named drawn) h))
  ]
]
