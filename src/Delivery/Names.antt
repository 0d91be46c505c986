-- ===== src/Delivery/Names.antt =====
-- The names, descriptions and slugs of delivery.py. Case mapping of Unicode is the argument `lower`.
use xray_vpn_bot.Prelude.{
  ℕ, zero, suc, ◌+◌, ◌-◌, ◌/◌, ◌%◌, ℤ, pos, negsuc, String, ltb, leb, Bool, true, false, ◌&&◌, ◌||◌,
  not, Option, none, some, List, [], ◌∷◌, ◌++◌, map, ◌==◌, if◌then◌else◌, select, length, Text,
  codes, text_eq, starts_with, contains, partition, split,
}
use xray_vpn_bot.Exec.{Result, ok, err, value_error}

-- The decimal digits of a number. The fuel is the number itself: it is divided by ten in each step.
abbrev pub digits_on : ℕ → ℕ → Text
digits_on zero n = (48 + n % 10) ∷ []
digits_on (suc fuel) n = elim (ltb n 10) [
  | true ↦ (48 + n) ∷ []
  | false ↦ digits_on fuel (n / 10) ++ (48 + n % 10) ∷ []
]

-- str(n)
abbrev pub decimal : ℕ → Text
decimal n = digits_on n n

abbrev pub decimal_ℤ : ℤ → Text
decimal_ℤ (pos n) = decimal n
decimal_ℤ (negsuc n) = b'-' ∷ decimal (suc n)

-- text[:n]
abbrev pub cut : ℕ → Text → Text
cut zero s = []
cut (suc n) [] = []
cut (suc n) (c ∷ s) = c ∷ cut n s

abbrev pub between : ℕ → ℕ → ℕ → Bool
between low c high = leb low c && leb c high

-- [a-zA-Z0-9_-]
abbrev pub is_word : ℕ → Bool
is_word c = between 97 c 122 || between 65 c 90 || between 48 c 57 || c == b'_' || c == b'-'

abbrev pub nonempty_or : Text → Text → Text
nonempty_or [] other = other
nonempty_or (c ∷ s) other = c ∷ s

abbrev pub strip_left_of : ℕ → Text → Text
strip_left_of ch [] = []
strip_left_of ch (c ∷ s) = if c == ch then strip_left_of ch s else c ∷ s

abbrev pub strip_right_of : ℕ → Text → Text
strip_right_of ch [] = []
strip_right_of ch (c ∷ s) =
    let rest = strip_right_of ch s in if c == ch && text_eq rest [] then [] else c ∷ rest

-- _USERNAME_RE.sub("_", text)
abbrev pub underscored : Text → Text
underscored s = map (λ c. if is_word c then c else b'_') s

-- f"{local}_at_{domain}" if domain else local
abbrev pub joined_email : Text → Option Text → Text
joined_email local none = local
joined_email local (some []) = local
joined_email local (some (c ∷ domain)) = local ++ (codes "_at_" ++ (c ∷ domain))

-- The username of an email that is stripped and in lower case.
unfoldable pub email_to_username : Text → Text
email_to_username email =
    let parts = partition b'@' email in
    nonempty_or
      (strip_right_of b'_' (strip_left_of b'_' (underscored (joined_email parts.0 parts.1))))
      (codes "user")

abbrev pub max_rw_username_length : ℕ
max_rw_username_length = 36

abbrev pub max_username_attempts : ℕ
max_username_attempts = 100

abbrev pub username_suffix : ℕ → ℕ → Text
username_suffix user_id zero = b'_' ∷ decimal user_id
username_suffix user_id (suc n) = (b'_' ∷ decimal user_id) ++ b'_' ∷ decimal (suc n)

abbrev pub text_of : Option Text → Text
text_of none = []
text_of (some s) = s

abbrev pub username_base : (Text → Text) → Option Text → Text
username_base lower tg_username =
    nonempty_or (select is_word (lower (strip_left_of b'@' (text_of tg_username)))) (codes "user")

-- Ids and ordinals are natural numbers here, so the first check of the source has no case.
unfoldable pub build_remnawave_username : (Text → Text) → Option Text → ℕ → ℕ → Result Text
build_remnawave_username lower tg_username user_id ordinal =
    let suffix = username_suffix user_id ordinal in
    if leb max_rw_username_length (length suffix)
    then err (value_error "db user id and subscription number exceed username limit")
    else let candidate =
        cut (max_rw_username_length - length suffix) (username_base lower tg_username) ++ suffix in
      if ltb (length candidate) 3 then ok (codes "user" ++ suffix) else ok candidate

abbrev pub provisioning_marker : String → Text
provisioning_marker tx = codes "provisioning:" ++ codes tx

abbrev pub delivery_marker : String → Text
delivery_marker tx = codes "delivery:" ++ codes tx

-- f"{head}; {description}" if description else head
abbrev pub described : Text → Option Text → Text
described head none = head
described head (some []) = head
described head (some (c ∷ s)) = head ++ (codes "; " ++ (c ∷ s))

abbrev pub tg_text : Option ℤ → Text
tg_text none = codes "none"
tg_text (some t) = decimal_ℤ t

unfoldable pub provisioning_description :
    String → ℕ → Option ℤ → String → Option Text → Option Text → Text
provisioning_description tx user_id tg_id source tg_username description =
    described
      (provisioning_marker tx
        ++ (codes "; db_user_id:"
            ++ (decimal user_id
                ++ (codes "; tg_id:"
                    ++ (tg_text tg_id
                        ++ (codes "; source:"
                            ++ (codes source
                                ++ (codes "; tg_username:"
                                    ++ nonempty_or (text_of tg_username) (codes "none")))))))))
      description

-- A description that has the marker stays as it is.
unfoldable pub delivery_description : String → Option Text → Text
delivery_description tx none = delivery_marker tx
delivery_description tx (some s) =
    if not (text_eq s []) && contains (delivery_marker tx) s
    then s
    else described (delivery_marker tx) (some s)

pub record Squad : Type 0 where
  pub squad_id : Text
  pub external_squad_id : Text

abbrev pub squad_of_parts : List Text → Option Squad
squad_of_parts (_ ∷ sid ∷ marker ∷ esid ∷ []) =
    if not (text_eq marker (codes "esid")) || text_eq sid [] || text_eq esid []
    then none
    else some (record { squad_id = sid; external_squad_id = esid })
squad_of_parts _ = none

unfoldable pub parse_squad_slug : Option Text → Option Squad
parse_squad_slug none = none
parse_squad_slug (some slug) =
    if starts_with slug (codes "sid:") then squad_of_parts (split b':' 3 slug) else none
