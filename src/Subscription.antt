-- ===== src/Subscription.antt =====
-- packages/common_db/common_db/repo/subscriptions.py: which account owns which Remnawave profile. The
-- clock's text is an argument. Rows stand in the order of their ids, as they were inserted.
pub mod Frame
pub mod Attach
pub mod AttachNew
pub mod AttachKnown
pub mod AttachOutcome
pub mod Owners
pub mod Detach
pub mod Links
use text.Mathlib.Text.{◌==◌ as str_eq}
use xray_vpn_bot.Prelude.{
  ℕ, ltb, length, String, Bool, true, false, ◌&&◌, ◌||◌, not, Option, none, some, List, [], ◌∷◌,
  ◌++◌, ◌==◌, find, select, count, if◌then◌else◌,
}
use xray_vpn_bot.Exec.{Exec, ok, err, value_error}
use xray_vpn_bot.Db.{Db, User, UserSubscription}
use xray_vpn_bot.Db.Tables.{Table, insert, update}
use xray_vpn_bot.Wallet.{find_user}

abbrev pub owned_by : ℕ → UserSubscription → Bool
owned_by user_id s = s.user_id == user_id

abbrev pub primary_of : ℕ → UserSubscription → Bool
primary_of user_id s = s.user_id == user_id && s.is_primary

-- ORDER BY is_primary DESC, id
unfoldable pub list_for_user : ℕ → Db → List UserSubscription
list_for_user user_id db =
    select (primary_of user_id) db.subscriptions.rows
    ++ select (λ s. s.user_id == user_id && not s.is_primary) db.subscriptions.rows

abbrev pub get_by_rw_id : ℕ → Db → Option UserSubscription
get_by_rw_id rw_id db = find (λ s. s.rw_id == rw_id) db.subscriptions.rows

abbrev pub get_for_user : ℕ → ℕ → Db → Option UserSubscription
get_for_user user_id subscription_id db =
    find (λ s. s.id == subscription_id && s.user_id == user_id) db.subscriptions.rows

abbrev pub get_primary : ℕ → Db → Option UserSubscription
get_primary user_id db = find (primary_of user_id) db.subscriptions.rows

abbrev pub count_for_user : ℕ → Db → ℕ
count_for_user user_id db = count (owned_by user_id) db.subscriptions.rows

abbrev pub set_rows : (List UserSubscription → List UserSubscription) → Db → Db
set_rows f db = record db {
  subscriptions = record db.subscriptions { rows = f db.subscriptions.rows };
}

abbrev pub change_row : (UserSubscription → Bool) → (UserSubscription → UserSubscription) → Db → Db
change_row p f db = record db { subscriptions = update p f db.subscriptions }

-- UPDATE ... SET is_primary = false
abbrev pub demoted : String → UserSubscription → UserSubscription
demoted now s = record s { is_primary = false; updated_at = now }

abbrev pub promoted : String → UserSubscription → UserSubscription
promoted now s = record s { is_primary = true; updated_at = now }

-- user.rw_id = ...
abbrev pub set_user_rw : ℕ → Option ℕ → Db → Db
set_user_rw user_id rw_id db = record db {
  users = update (λ u. u.id == user_id) (λ u. record u { rw_id = rw_id }) db.users;
}

-- The keyword arguments of `attach`.
pub record AttachRequest : Type 0 where
  pub user_id : ℕ
  pub rw_id : ℕ
  pub source : String
  pub product_key : Option String
  pub label : Option String
  pub make_primary : Bool

-- `new or old` on texts that may be missing
abbrev pub text_or : Option String → Option String → Option String
text_or none old = old
text_or (some new) old = if str_eq new "" then old else some new

abbrev pub source_or : String → String → String
source_or new old = if str_eq new "" then old else new

abbrev pub new_row : AttachRequest → Bool → String → ℕ → UserSubscription
new_row req primary now id = record {
  id = id;
  user_id = req.user_id;
  rw_id = req.rw_id;
  product_key = req.product_key;
  label = req.label;
  source = req.source;
  is_primary = primary;
  created_at = now;
  updated_at = now;
}

-- What `attach` assigns to a row that is there already. The statement before it has demoted the row,
-- if it was primary and a primary is being made.
abbrev pub refreshed : AttachRequest → Bool → String → UserSubscription → UserSubscription
refreshed req primary now s = record s {
  product_key = text_or req.product_key s.product_key;
  label = text_or req.label s.label;
  source = source_or req.source s.source;
  is_primary = primary || s.is_primary;
  updated_at = now;
}

-- The user's own column follows a primary.
abbrev pub mirror : ℕ → UserSubscription → Exec Db UserSubscription
mirror user_id s db =
    if s.is_primary
    then elim (find_user user_id db) [
      | none ↦ (err (value_error "user_not_found"), db)
      | some u ↦ (ok s, set_user_rw user_id (some s.rw_id) db)
    ]
    else (ok s, db)

abbrev pub demote_primary : ℕ → Bool → String → Db → Db
demote_primary user_id primary now db =
    if primary then change_row (primary_of user_id) (demoted now) db else db

abbrev pub attach_row :
    AttachRequest → Bool → String → Option UserSubscription → Exec Db UserSubscription
attach_row req primary now none db =
    mirror req.user_id (new_row req primary now db.subscriptions.next)
      (record db { subscriptions = insert (new_row req primary now) db.subscriptions })
attach_row req primary now (some s) db =
    mirror req.user_id (refreshed req primary now s)
      (change_row (λ t. t.id == s.id) (refreshed req primary now) db)

abbrev pub is_foreign : ℕ → Option UserSubscription → Bool
is_foreign user_id none = false
is_foreign user_id (some s) = not (s.user_id == user_id)

-- `make_primary or not current`
abbrev pub makes_primary : AttachRequest → Db → Bool
makes_primary req db = req.make_primary || length (list_for_user req.user_id db) == 0

unfoldable pub attach : AttachRequest → String → Exec Db UserSubscription
unfolding list_for_user
attach req now db =
    if is_foreign req.user_id (get_by_rw_id req.rw_id db)
    then (err (value_error "subscription_already_linked"), db)
    else attach_row req (makes_primary req db) now (get_by_rw_id req.rw_id db)
        (demote_primary req.user_id (makes_primary req db) now db)

-- The user's row is looked up after the rows are written, and a missing one raises.
unfoldable pub set_primary : ℕ → ℕ → String → Exec Db (Option UserSubscription)
set_primary user_id subscription_id now db = elim (get_for_user user_id subscription_id db) [
  | none ↦ (ok none, db)
  | some target ↦
      let db' =
        change_row (λ s. s.id == target.id) (promoted now)
          (change_row (owned_by user_id) (demoted now) db) in
      elim (find_user user_id db') [
        | none ↦ (err (value_error "user_not_found"), db')
        | some u ↦ (ok (some (promoted now target)), set_user_rw user_id (some target.rw_id) db')
      ]
]

unfoldable pub rename_label : ℕ → ℕ → Option String → String → Exec Db (Option UserSubscription)
rename_label user_id subscription_id label now db = elim (get_for_user user_id subscription_id db) [
  | none ↦ (ok none, db)
  | some target ↦ (
    ok (some (record target { label = label; updated_at = now })),
    change_row (λ s. s.id == target.id) (λ s. record s { label = label; updated_at = now }) db,
  )
]

-- The last subscription of an account empties the user's column.
unfoldable pub detach : ℕ → ℕ → Exec Db (Option UserSubscription)
detach user_id subscription_id db = elim (get_for_user user_id subscription_id db) [
  | none ↦ (ok none, db)
  | some target ↦
      let total = count_for_user user_id db in
      let db' = set_rows (select (λ s. not (s.id == target.id))) db in
      if target.is_primary && ltb 1 total
      then (err (value_error "primary_change_required"), db)
      else if total == 1
      then elim (find_user user_id db') [
        | none ↦ (err (value_error "user_not_found"), db')
        | some u ↦ (ok (some target), set_user_rw user_id none db')
      ]
      else (ok (some target), db')
]
