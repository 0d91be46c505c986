-- ===== src/Delivery/Bounds.antt =====
-- The usernames and descriptions that delivery.py builds.
use mathlib.Core.Path.{subst}
use xray_vpn_bot.Prelude.{
  ℕ, zero, suc, ◌+◌, ◌-◌, ◌/◌, ◌%◌, ◌≤◌, ◌<◌, ◌≡◌, refl, sym, inl, inr, ltb, leb, Bool, true, false,
  ◌&&◌, not, Option, none, some, [], ◌∷◌, ◌++◌, ◌==◌, if◌then◌else◌, select, length, length-append,
  All, All-append, Text, codes, partition, starts_with, contains, contains-append_left, text_eq,
  arith, Bool-cases, String,
}
use xray_vpn_bot.Exec.{ok}
use xray_vpn_bot.Delivery.Names.{
  digits_on, decimal, cut, is_word, nonempty_or, strip_left_of, strip_right_of, underscored,
  email_to_username, username_suffix, username_base, text_of, joined_email,
  build_remnawave_username, delivery_marker, delivery_description, described,
}

abbrev pub IsWord : ℕ → Type 0
IsWord c = is_word c ≡ true

digit_lem : (d : ℕ) → d < 10 → IsWord (48 + d)
digit_lem d small = ground arith

-- What holds of the last digit, and of the digits before it with a digit behind them, holds.
digits_on_lem :
    (P : Text → Type 0)
    → ((d : ℕ) → d < 10 → P ((48 + d) ∷ []))
    → ((s : Text) (d : ℕ) → d < 10 → P s → P (s ++ (48 + d) ∷ []))
    → (fuel n : ℕ) → P (digits_on fuel n)
digits_on_lem P one more zero n = one (n % 10) (omega arith)
digits_on_lem P one more (suc fuel) n = elim (Bool-cases (ltb n 10)) [
  | inl small ↦
      let same : digits_on (suc fuel) n ≡ (48 + n) ∷ [] = rw (small, digits_on) refl in
      subst P (sym same) (one n (ground arith))
  | inr large ↦
      let same : digits_on (suc fuel) n ≡ digits_on fuel (n / 10) ++ (48 + n % 10) ∷ [] =
        rw (large, digits_on) refl in
      subst P (sym same) (
        more (digits_on fuel (n / 10)) (n % 10) (omega arith)
          (digits_on_lem P one more fuel (n / 10)))
]

decimal-words : (n : ℕ) → All IsWord (decimal n)
decimal-words n =
    digits_on_lem (λ s. All IsWord s) (λ d small. (digit_lem d small, tt))
      (λ s d small h. All-append IsWord s ((48 + d) ∷ []) h (digit_lem d small, tt)) n n

length-decimal : (n : ℕ) → 1 ≤ length (decimal n)
length-decimal n =
    digits_on_lem (λ s. 1 ≤ length s) (λ d small. omega arith)
      (λ s d small h. omega (arith, length-append s ((48 + d) ∷ []))) n n

length-cut : (n : ℕ) (s : Text) → length (cut n s) ≤ n
length-cut zero s = omega arith
length-cut (suc n) [] = omega arith
length-cut (suc n) (c ∷ s) = omega (arith, length-cut n s)

cut-words : (n : ℕ) (s : Text) → All IsWord s → All IsWord (cut n s)
cut-words zero s h = tt
cut-words (suc n) [] h = tt
cut-words (suc n) (c ∷ s) h = (h.0, cut-words n s h.1)

cut-nonempty : (n : ℕ) (s : Text) → 1 ≤ n → 1 ≤ length s → 1 ≤ length (cut n s)
cut-nonempty zero s h k = absurd (omega (arith, h))
cut-nonempty (suc n) [] h k = absurd (omega (arith, k))
cut-nonempty (suc n) (c ∷ s) h k = omega arith

select-words : (s : Text) → All IsWord (select is_word s)
select-words [] = tt
select-words (c ∷ s) = elim (Bool-cases (is_word c)) [
  | inl word ↦ rw word (word, select-words s)
  | inr other ↦ rw other (select-words s)
]

user_words : All IsWord (codes "user")
user_words = (refl, (refl, (refl, (refl, tt))))

nonempty_or-words :
    (s : Text)
    → All IsWord s
    → (All IsWord (nonempty_or s (codes "user"))) × (1 ≤ length (nonempty_or s (codes "user")))
nonempty_or-words [] h = (user_words, omega arith)
nonempty_or-words (c ∷ s) h = (h, omega arith)

suffix-words : (user_id ordinal : ℕ) → All IsWord (username_suffix user_id ordinal)
suffix-words user_id zero = (refl, decimal-words user_id)
suffix-words user_id (suc n) =
    All-append IsWord (b'_' ∷ decimal user_id) (b'_' ∷ decimal (suc n))
      (refl, decimal-words user_id) (refl, decimal-words (suc n))

length-suffix : (user_id ordinal : ℕ) → 2 ≤ length (username_suffix user_id ordinal)
length-suffix user_id zero = omega (arith, length-decimal user_id)
length-suffix user_id (suc n) =
    omega (
      arith,
      length-decimal user_id,
      length-append (b'_' ∷ decimal user_id) (b'_' ∷ decimal (suc n)),
    )

-- A username that is built has from 3 to 36 characters, and only letters, digits, _ and -,
-- whatever the Telegram name, the account and the number of the subscription are.
pub build_remnawave_username_lem :
    (lower : Text → Text) (tg_username : Option Text) (user_id ordinal : ℕ) (name : Text)
    → build_remnawave_username lower tg_username user_id ordinal ≡ ok name
    → (3 ≤ length name) × (length name ≤ 36) × All IsWord name
unfolding build_remnawave_username
build_remnawave_username_lem lower tg_username user_id ordinal name e =
    let suffix = username_suffix user_id ordinal in
    let base = username_base lower tg_username in
    let based =
      nonempty_or-words _ (select-words (lower (strip_left_of b'@' (text_of tg_username)))) in
    elim (Bool-cases (leb 36 (length suffix))) [
      | inl full ↦ absurd (ground arith)
      | inr room ↦
          let free = 36 - length suffix in
          let candidate = cut free base ++ suffix in
          let long = length-append (cut free base) suffix in
          let fits = length-cut free base in
          let some_base = cut-nonempty free base (ground arith) based.1 in
          let ends = length-suffix user_id ordinal in
          let wide : ltb (length candidate) 3 ≡ false = ground (arith, long, some_base, ends) in
          let same : candidate ≡ name = ground arith in
          subst (λ s. (3 ≤ length s) × (length s ≤ 36) × All IsWord s) same
            (
              omega (arith, long, some_base, ends),
              ground (arith, long, fits),
              All-append IsWord (cut free base) suffix (cut-words free base based.0)
                  (suffix-words user_id ordinal),
            )
    ]

if_true : {A : Type 0} {c : Bool} (a b : A) → c ≡ true → (if c then a else b) ≡ a
if_true a b e = rw e refl

if_false : {A : Type 0} {c : Bool} (a b : A) → c ≡ false → (if c then a else b) ≡ b
if_false a b e = rw e refl

starts_with_self : (p : Text) → starts_with p p ≡ true
starts_with_self [] = refl
starts_with_self (c ∷ p) = ground (arith, starts_with_self p)

contains_self : (p : Text) → contains p p ≡ true
contains_self [] = refl
contains_self (c ∷ p) = ground (arith, starts_with_self p)

contains-described : (head : Text) (d : Option Text) → contains head (described head d) ≡ true
contains-described head none = contains_self head
contains-described head (some []) = contains_self head
contains-described head (some (c ∷ s)) = contains-append_left head (codes "; " ++ (c ∷ s))

-- The description of a delivery has its marker, whatever description is asked for.
pub delivery_description-marker :
    (tx : String) (description : Option Text)
    → contains (delivery_marker tx) (delivery_description tx description) ≡ true
unfolding delivery_description
delivery_description-marker tx none = contains_self (delivery_marker tx)
delivery_description-marker tx (some s) =
    let marker = delivery_marker tx in
    elim (Bool-cases (not (text_eq s []) && contains marker s)) [
      | inl has ↦
          subst (λ t. contains marker t ≡ true) (sym (if_true s (described marker (some s)) has))
            (ground arith)
      | inr without ↦
          subst (λ t. contains marker t ≡ true)
            (sym (if_false s (described marker (some s)) without))
            (contains-described marker (some s))
    ]

underscored-words : (s : Text) → All IsWord (underscored s)
underscored-words [] = tt
underscored-words (c ∷ s) = elim (Bool-cases (is_word c)) [
  | inl word ↦ rw word (word, underscored-words s)
  | inr other ↦ rw other (refl, underscored-words s)
]

strip_left-words : (ch : ℕ) (s : Text) → All IsWord s → All IsWord (strip_left_of ch s)
strip_left-words ch [] h = tt
strip_left-words ch (c ∷ s) h = elim (Bool-cases (c == ch)) [
  | inl hit ↦ rw hit (strip_left-words ch s h.1)
  | inr miss ↦ rw miss h
]

strip_right-words : (ch : ℕ) (s : Text) → All IsWord s → All IsWord (strip_right_of ch s)
strip_right-words ch [] h = tt
strip_right-words ch (c ∷ s) h = elim (Bool-cases (c == ch && text_eq (strip_right_of ch s) [])) [
  | inl gone ↦ rw gone tt
  | inr kept ↦ rw kept (h.0, strip_right-words ch s h.1)
]

-- The username of an email is not empty, and has only letters, digits, _ and -.
pub email_to_username_lem :
    (email : Text) → (All IsWord (email_to_username email)) × (1 ≤ length (email_to_username email))
unfolding email_to_username
email_to_username_lem email =
    let parts = partition b'@' email in
    let words = underscored (joined_email parts.0 parts.1) in
    nonempty_or-words (strip_right_of b'_' (strip_left_of b'_' words)) (
      strip_right-words b'_' (strip_left_of b'_' words)
        (strip_left-words b'_' words (underscored-words (joined_email parts.0 parts.1))))
