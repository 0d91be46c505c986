-- ===== src/Delivery/Link.antt =====
-- The queries and updates of delivery.py: the status of a transaction, the owner of a profile, and
-- `_attach_subscription`. In one session after the other a constraint cannot fail after the checks, so
-- the handler of IntegrityError, which answers a concurrent insert, has no case here.
use text.Mathlib.Text.{◌==◌ as str_eq}
use Prim.Native.String
use xray_vpn_bot.Prelude.{
  ℕ, zero, suc, String, Bool, false, not, Option, none, some, is_some, find, update_where, ◌==◌,
  if◌then◌else◌,
}
use xray_vpn_bot.Exec.{Exec, ok, err, value_error}
use xray_vpn_bot.Db.{Db, User, UserSubscription, Transaction}
use xray_vpn_bot.Db.Tables.{insert}
use xray_vpn_bot.Subscription.{get_by_rw_id, count_for_user, set_user_rw}

-- text[:n]
abbrev pub cut_string : ℕ → String → String
cut_string zero s = String.[]
cut_string (suc n) String.[] = String.[]
cut_string (suc n) (String.◌∷◌ c s) = String.◌∷◌ c (cut_string n s)

abbrev pub is_transaction : String → Transaction → Bool
is_transaction tx t = str_eq t.transaction_id tx

abbrev pub change_transactions : String → (Transaction → Transaction) → Db → Db
change_transactions tx f db = record db {
  transactions = update_where (is_transaction tx) f db.transactions;
}

abbrev pub as_pending : String → Transaction → Transaction
as_pending error t = record t {
  delivery_status = 0;
  delivery_error = some error;
  order_status = "pending";
}

abbrev pub as_delivered : Transaction → Transaction
as_delivered t = record t { delivery_status = 1; delivery_error = none; order_status = "confirmed" }

abbrev pub with_target : ℕ → Transaction → Transaction
with_target rw t = record t { target_rw_id = some rw; delivery_error = none }

abbrev pub names_profile : ℕ → User → Bool
names_profile rw u = elim u.rw_id [ none ↦ false | some n ↦ n == rw ]

-- The account whose column names a profile.
abbrev pub legacy_owner : ℕ → Db → Option ℕ
legacy_owner rw db = elim (find (names_profile rw) db.users.rows) [
  | none ↦ none
  | some u ↦ some u.id
]

-- The account of the profile's row, or else that of the column.
abbrev pub subscription_owner : ℕ → Db → Option ℕ
subscription_owner rw db = elim (get_by_rw_id rw db) [
  | none ↦ legacy_owner rw db
  | some s ↦ some s.user_id
]

abbrev pub is_other : ℕ → Option ℕ → Bool
is_other user_id none = false
is_other user_id (some o) = not (o == user_id)

abbrev pub bought_row : ℕ → ℕ → String → Bool → String → ℕ → UserSubscription
bought_row user_id rw source primary now id = record {
  id = id;
  user_id = user_id;
  rw_id = rw;
  product_key = none;
  label = none;
  source = cut_string 30 (String.◌++◌ "purchase_" source);
  is_primary = primary;
  created_at = now;
  updated_at = now;
}

-- INSERT INTO user_subscriptions, and the column of an account that had none.
unfoldable pub link_profile : ℕ → ℕ → String → String → Db → Db
link_profile user_id rw source now db =
    let first = count_for_user user_id db == 0 in
    let db' = record db {
      subscriptions = insert (bought_row user_id rw source first now) db.subscriptions;
    } in
    if first then set_user_rw user_id (some rw) db' else db'

pub data Action : Type 0 where
  recovered existing created_now : Action

unfoldable pub attach_subscription : ℕ → ℕ → String → String → String → Exec Db Action
unfolding link_profile
attach_subscription user_id rw tx source now db =
    if is_other user_id (subscription_owner rw db)
    then (err (value_error "target_owner_conflict"), db)
    else if is_some (get_by_rw_id rw db)
    then (ok existing, change_transactions tx (with_target rw) db)
    else (
      ok recovered,
      change_transactions tx (with_target rw) (link_profile user_id rw source now db),
    )
