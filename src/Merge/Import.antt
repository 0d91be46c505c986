-- ===== src/Merge/Import.antt =====
-- `import_subscription_by_uuid` of merge.py. The short uuid's owner must have the claimed email;
-- str.lower is an argument.
use text.Mathlib.Text.{◌==◌ as str_eq}
use xray_vpn_bot.Prelude.{
  ℕ, suc, zero, String, Bool, false, not, Option, none, some, ◌==◌, if◌then◌else◌,
}
use xray_vpn_bot.Prelude.Strip.{strip}
use xray_vpn_bot.Exec.{
  Exec, Result, ok, err, rows_not_found, lookup_not_found, pure, raise, ◌>>=◌, ◌>>◌,
}
use xray_vpn_bot.Db.{Db, User}
use xray_vpn_bot.Panel.{Profile}
use xray_vpn_bot.Wallet.{find_user}
use xray_vpn_bot.Subscription.{attach, get_primary, set_user_rw}
use xray_vpn_bot.Merge.Decide.{Decision, Tier, classify, decide, MergeCode, already_owned}
use xray_vpn_bot.Merge.Accounts.{Lookups, RawUser, lookup_text, rw_of_info, link_request, answered}

-- The raw user as `_classify` reads it.
abbrev pub raw_view : RawUser → Profile
raw_view b = record {
  rw_id = none;
  username = none;
  status = b.status;
  data_limit = none;
  expire = none;
  email = b.email;
  telegram_id = none;
  description = none;
  subscription_url = none;
}

-- The email of the panel, and that of the claim, without case and outer spaces.
abbrev pub normal_email : (String → String) → Option String → String
normal_email lower none = lower (strip "")
normal_email lower (some s) = lower (strip s)

abbrev pub email_confirmed : (String → String) → RawUser → String → Bool
email_confirmed lower b claimed =
    let rw_email = normal_email lower b.email in
    if str_eq rw_email "" then false else str_eq rw_email (lower (strip claimed))

-- `_lookup_a_side_rw`: the id, and then the email if nothing is found.
abbrev pub or_by_email : Lookups → Option String → Result (Option Profile) → Result (Option Profile)
or_by_email l email (err e) = err e
or_by_email l email (ok (some p)) = ok (some p)
or_by_email l email (ok none) = lookup_text l.by_email email

abbrev pub lookup_a_side : Lookups → Option ℕ → Option String → Result (Option Profile)
lookup_a_side l none email = lookup_text l.by_email email
lookup_a_side l (some zero) email = lookup_text l.by_email email
lookup_a_side l (some (suc n)) email = or_by_email l email (l.by_id (suc n))

pub record ImportResult : Type 0 where
  pub result : MergeCode
  pub a_tier : Tier
  pub b_tier : Tier
  pub a_rw_id : Option ℕ
  pub b_rw_id : ℕ
  pub chosen_rw_id : Option ℕ

abbrev pub self_report : RawUser → Exec Db ImportResult
self_report b = pure (record {
  result = already_owned;
  a_tier = classify (some (raw_view b));
  b_tier = classify (some (raw_view b));
  a_rw_id = some b.id;
  b_rw_id = b.id;
  chosen_rw_id = some b.id;
})

-- The user's own URL.
unfoldable pub import_self : String → ℕ → RawUser → Exec Db ImportResult
unfolding attach classify
import_self now user_id b = do
  attach (link_request user_id b.id "import_self_backfill") now
  self_report b

-- `attach`, when there is a profile.
unfoldable pub attach_info : String → ℕ → Option ℕ → String → Exec Db (Unit {0})
unfolding attach
attach_info now user_id none source db = (ok tt, db)
attach_info now user_id (some rw) source db =
    (do attach (link_request user_id rw source) now; pure tt) db

-- The user's column follows the primary, or else the choice.
abbrev pub settle_column : ℕ → Option ℕ → Exec Db (Option ℕ)
settle_column user_id chosen db = elim (get_primary user_id db) [
  | some p ↦ (ok (some p.rw_id), set_user_rw user_id (some p.rw_id) db)
  | none ↦ elim chosen [
    | none ↦ (ok none, db)
    | some c ↦ (ok (some c), set_user_rw user_id (some c) db)
  ]
]

-- The result of the matrix, with the account in both of its places.
abbrev pub import_decision : User → RawUser → Option Profile → Decision
import_decision a b a_info =
    decide (classify a_info) (classify (some (raw_view b))) (rw_of_info a_info) (some b.id) a.id
      a.id

abbrev pub import_report : User → RawUser → Option Profile → Option ℕ → ImportResult
import_report a b a_info chosen = record {
  result = (import_decision a b a_info).code;
  a_tier = classify a_info;
  b_tier = classify (some (raw_view b));
  a_rw_id = rw_of_info a_info;
  b_rw_id = b.id;
  chosen_rw_id = chosen;
}

abbrev pub import_settled : User → RawUser → Option Profile → Exec Db ImportResult
import_settled a b a_info = do
  chosen ← settle_column a.id (import_decision a b a_info).chosen
  pure (import_report a b a_info chosen)

abbrev pub import_linked : String → User → RawUser → Option Profile → Exec Db ImportResult
import_linked now a b a_info = do
  attach_info now a.id (rw_of_info a_info) "import_existing"
  attach_info now a.id (some b.id) "import_by_url"
  import_settled a b a_info

unfoldable pub import_other : Lookups → String → User → RawUser → Exec Db ImportResult
unfolding attach_info classify decide
import_other l now a b = do
  a_info ← answered (lookup_a_side l a.rw_id a.email)
  import_linked now a b a_info

abbrev pub is_own_column : Option ℕ → ℕ → Bool
is_own_column none rw = false
is_own_column (some n) rw = n == rw

abbrev pub import_found :
    Lookups → (String → String) → String → User → String → Option RawUser → Exec Db ImportResult
import_found l lower now a claimed none = raise lookup_not_found
import_found l lower now a claimed (some b) =
    if not (email_confirmed lower b claimed)
    then raise lookup_not_found
    else if is_own_column a.rw_id b.id
    then import_self now a.id b
    else import_other l now a b

abbrev pub raw_answer : Result (Option RawUser) → Exec Db (Option RawUser)
raw_answer r db = (r, db)

abbrev pub import_for :
    Lookups → (String → String) → String → User → String → String → Exec Db ImportResult
import_for l lower now a short_uuid claimed = do
  b ← raw_answer (l.by_short_uuid short_uuid)
  import_found l lower now a claimed b

unfoldable pub import_subscription_by_uuid :
    Lookups → (String → String) → String → ℕ → String → String → Exec Db ImportResult
unfolding import_self import_other strip
import_subscription_by_uuid l lower now user_id short_uuid claimed db =
    elim (find_user user_id db) [
      | none ↦ (err (rows_not_found user_id user_id), db)
      | some a ↦ import_for l lower now a short_uuid claimed db
    ]
