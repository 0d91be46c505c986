-- ===== src/Merge/Accounts.antt =====
-- `merge_android_and_tg`, `merge_tg_into_email` and `import_subscription_by_uuid` of merge.py. The
-- lookups in the panel are functions of what they are asked; a lookup that raises ends the call.
use text.Mathlib.Text.{◌==◌ as str_eq}
use xray_vpn_bot.Prelude.{
  ℕ, suc, zero, ℤ, eqb_ℤ, String, false, Option, none, some, ◌==◌, if◌then◌else◌,
}
use xray_vpn_bot.Exec.{Exec, Result, ok, err, rows_not_found, same_row, modify, ◌>>=◌, ◌>>◌}
use xray_vpn_bot.Db.{Db, User}
use xray_vpn_bot.Panel.{Profile}
use xray_vpn_bot.Wallet.{find_user}
use xray_vpn_bot.Subscription.{AttachRequest, attach}
use xray_vpn_bot.Merge.Decide.{
  Tier, pro, free, absent, classify, decide, Decision, MergeCode, merged_pro, merged_free, linked,
  id_or,
}
use xray_vpn_bot.Merge.Apply.{apply_merge_db}

-- What `get_user_by_short_uuid_raw` returns: the panel's own keys, with the status in its spelling
-- ("ACTIVE") and no key `data_limit`.
pub record RawUser : Type 0 where
  pub id : ℕ
  pub email : Option String
  pub status : Option String

-- The lookups of remnawave_client.
pub record Lookups : Type 0 where
  pub by_id : ℕ → Result (Option Profile)
  pub by_email : String → Result (Option Profile)
  pub by_username : String → Result (Option Profile)
  pub by_short_uuid : String → Result (Option RawUser)

-- `if email` and `if username`
abbrev pub lookup_text :
    (String → Result (Option Profile)) → Option String → Result (Option Profile)
lookup_text ask none = ok none
lookup_text ask (some s) = if str_eq s "" then ok none else ask s

-- The Android side: the id, and the email only where there is no id.
abbrev pub lookup_a : Lookups → Option ℕ → Option String → Result (Option Profile)
lookup_a l none email = lookup_text l.by_email email
lookup_a l (some zero) email = lookup_text l.by_email email
lookup_a l (some (suc n)) email = l.by_id (suc n)

-- A username is trusted when the panel names the expected Telegram id.
abbrev pub if_owned : ℤ → Option Profile → Option Profile
if_owned expected none = none
if_owned expected (some p) = elim p.telegram_id [
  | none ↦ none
  | some t ↦ if eqb_ℤ t expected then some p else none
]

abbrev pub owned_result : ℤ → Result (Option Profile) → Result (Option Profile)
owned_result expected (ok found) = ok (if_owned expected found)
owned_result expected (err e) = err e

abbrev pub lookup_t : Lookups → Option ℕ → Option String → ℤ → Result (Option Profile)
lookup_t l none username expected = owned_result expected (lookup_text l.by_username username)
lookup_t l (some zero) username expected =
    owned_result expected (lookup_text l.by_username username)
lookup_t l (some (suc n)) username expected = l.by_id (suc n)

abbrev pub answered : Result (Option Profile) → Exec Db (Option Profile)
answered r db = (r, db)

-- (info or {}).get("rw_id")
abbrev pub rw_of_info : Option Profile → Option ℕ
rw_of_info none = none
rw_of_info (some p) = p.rw_id

abbrev pub link_request : ℕ → ℕ → String → AttachRequest
link_request user_id rw source = record {
  user_id = user_id;
  rw_id = rw;
  source = source;
  product_key = none;
  label = none;
  make_primary = false;
}

-- `attach` with its ValueError logged: what it wrote stays, and the merge goes on.
abbrev pub backfill : ℕ → Option ℕ → String → Db → Db
backfill user_id none now db = db
backfill user_id (some rw) now db =
    (attach (link_request user_id rw "account_merge_backfill") now db).1

-- What both merges return; `loser_rw_id` is always None.
pub record MergeResult : Type 0 where
  pub result : MergeCode
  pub survivor_id : ℕ
  pub loser_id : ℕ
  pub a_tier : Tier
  pub t_tier : Tier
  pub a_rw_id : Option ℕ
  pub t_rw_id : Option ℕ
  pub chosen_rw_id : Option ℕ

abbrev pub column_of : Option User → Option ℕ → Option ℕ
column_of none chosen = chosen
column_of (some u) chosen = u.rw_id

-- The rows are loaded again, and merged.
unfoldable pub merge_rows_of : ℕ → ℕ → ℤ → Option ℕ → Exec Db (Unit {0})
unfolding apply_merge_db
merge_rows_of survivor loser tg_id chosen db = elim (find_user survivor db) [
  | none ↦ (err (rows_not_found loser survivor), db)
  | some s ↦ elim (find_user loser db) [
    | none ↦ (err (rows_not_found loser survivor), db)
    | some l ↦ apply_merge_db s l tg_id chosen db
  ]
]

-- The result names the profile that leads now.
abbrev pub merge_report : Decision → Option Profile → Option Profile → Exec Db MergeResult
merge_report d a_info t_info db = (
  ok (record {
    result = d.code;
    survivor_id = d.survivor;
    loser_id = d.loser;
    a_tier = classify a_info;
    t_tier = classify t_info;
    a_rw_id = rw_of_info a_info;
    t_rw_id = rw_of_info t_info;
    chosen_rw_id = column_of (find_user d.survivor db) d.chosen;
  }),
  db,
)

-- The part of a merge after the lookups: `a` and `t` are the accounts in the order of the lookups.
unfoldable pub merge_found :
    String → ℕ → ℕ → ℤ → Decision → Option Profile → Option Profile → Exec Db MergeResult
unfolding attach merge_rows_of classify
merge_found now a t tg_id d a_info t_info = do
  modify (λ db. backfill t (rw_of_info t_info) now (backfill a (rw_of_info a_info) now db))
  merge_rows_of d.survivor d.loser tg_id d.chosen
  merge_report d a_info t_info

abbrev pub android_decision : ℕ → ℕ → Option Profile → Option Profile → Decision
android_decision android tg_user a_info t_info =
    decide (classify a_info) (classify t_info) (rw_of_info a_info) (rw_of_info t_info) android
      tg_user

abbrev pub merge_android_found : Lookups → String → User → User → ℤ → Exec Db MergeResult
merge_android_found l now a t tg_id = do
  a_info ← answered (lookup_a l a.rw_id a.email)
  t_info ← answered (lookup_t l t.rw_id t.username tg_id)
  merge_found now a.id t.id tg_id (android_decision a.id t.id a_info t_info) a_info t_info

unfoldable pub merge_android_and_tg : Lookups → String → ℕ → ℕ → ℤ → Exec Db MergeResult
unfolding merge_found decide classify
merge_android_and_tg l now android tg_user tg_id db = elim (find_user android db) [
  | none ↦ (err (rows_not_found android tg_user), db)
  | some a ↦ elim (find_user tg_user db) [
    | none ↦ (err (rows_not_found android tg_user), db)
    | some t ↦ merge_android_found l now a t tg_id db
  ]
]

-- The code by the better of the two profiles.
abbrev pub email_code : Tier → Tier → MergeCode
email_code pro t = merged_pro
email_code a pro = merged_pro
email_code free t = merged_free
email_code a free = merged_free
email_code absent absent = linked

abbrev pub email_decision : ℕ → ℕ → Option Profile → Option Profile → Decision
email_decision email_user tg_user a_info t_info = record {
  survivor = email_user;
  loser = tg_user;
  chosen = id_or (rw_of_info a_info) (rw_of_info t_info);
  code = email_code (classify a_info) (classify t_info);
}

abbrev pub merge_email_found : Lookups → String → User → User → ℤ → Exec Db MergeResult
merge_email_found l now e t tg_id = do
  a_info ← answered (lookup_a l e.rw_id e.email)
  t_info ← answered (lookup_t l t.rw_id t.username tg_id)
  merge_found now e.id t.id tg_id (email_decision e.id t.id a_info t_info) a_info t_info

unfoldable pub merge_tg_into_email : Lookups → String → ℕ → ℕ → ℤ → Exec Db MergeResult
unfolding merge_found classify
merge_tg_into_email l now email_user tg_user tg_id db = elim (find_user email_user db) [
  | none ↦ (err (rows_not_found email_user tg_user), db)
  | some e ↦ elim (find_user tg_user db) [
    | none ↦ (err (rows_not_found email_user tg_user), db)
    | some t ↦
        if email_user == tg_user
        then (err (same_row email_user), db)
        else merge_email_found l now e t tg_id db
  ]
]
