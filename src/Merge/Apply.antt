-- ===== src/Merge/Apply.antt =====
-- `_apply_merge_db` of merge.py: the loser's fields go to the survivor, the rows of the loser become
-- the survivor's, and the loser is deleted. Of the tables with a user_id, those of `Db` are written;
-- the others (tokens, tickets, purchases of Google Play) have no part in what is stated here.
use text.Mathlib.Text.{◌==◌ as str_eq}
use xray_vpn_bot.Prelude.{
  ℕ, max, ℤ, ◌+ℤ◌, String, Bool, true, false, ◌&&◌, ◌||◌, not, Option, none, some, List, ◌==◌, any,
  find, select, if◌then◌else◌, update_where,
}
use xray_vpn_bot.Exec.{Exec, ok, err, integrity_error}
use xray_vpn_bot.Db.{Db, User, UserSubscription, CreditLedger, Transaction}
use xray_vpn_bot.Db.Tables.{update}
use xray_vpn_bot.Subscription.{owned_by, primary_of, set_rows}
use xray_vpn_bot.Onboarding.{pending_of}

-- `in (None, "")`
abbrev pub is_blank : Option String → Bool
is_blank none = true
is_blank (some s) = str_eq s ""

-- _copy_if_empty
abbrev pub fill : Option String → Option String → Option String
fill mine theirs = if is_blank mine then (if is_blank theirs then mine else theirs) else mine

-- `vip or 0`
abbrev pub vip_of : Option ℕ → ℕ
vip_of none = 0
vip_of (some n) = n

abbrev pub merged_user : User → User → ℤ → Option ℕ → User
merged_user survivor loser tg_id rw = record survivor {
  email = fill survivor.email loser.email;
  vless_uuid = fill survivor.vless_uuid loser.vless_uuid;
  password_hash = fill survivor.password_hash loser.password_hash;
  password_updated_at = fill survivor.password_updated_at loser.password_updated_at;
  email_verified_at = fill survivor.email_verified_at loser.email_verified_at;
  username = fill survivor.username loser.username;
  language = fill survivor.language loser.language;
  api_provider = fill survivor.api_provider loser.api_provider;
  vip = some (max (vip_of survivor.vip) (vip_of loser.vip));
  bonus_credits = survivor.bonus_credits +ℤ loser.bonus_credits;
  miniapp_onboarding_version =
      max survivor.miniapp_onboarding_version loser.miniapp_onboarding_version;
  tg_id = some tg_id;
  rw_id = rw;
}

abbrev pub either_owner : ℕ → ℕ → UserSubscription → Bool
either_owner s l x = x.user_id == s || x.user_id == l

abbrev pub option_or {ℓ} : {A : Type ℓ} → Option A → Option A → Option A
option_or none b = b
option_or (some a) b = some a

-- The survivor's primary, or the loser's, or the oldest row of the two.
unfoldable pub merged_primary : ℕ → ℕ → Db → Option UserSubscription
merged_primary s l db =
    let rows = db.subscriptions.rows in
    option_or (find (primary_of s) rows)
      (option_or (find (primary_of l) rows) (find (either_owner s l) rows))

abbrev pub unprimary : UserSubscription → UserSubscription
unprimary x = record x { is_primary = false }

abbrev pub given_to : ℕ → UserSubscription → UserSubscription
given_to s x = record x { user_id = s }

abbrev pub made_primary : UserSubscription → UserSubscription
made_primary x = record x { is_primary = true }

-- The three updates of the rows of both accounts.
abbrev pub merge_rows : ℕ → ℕ → ℕ → List UserSubscription → List UserSubscription
merge_rows s l k rows =
    update_where (λ x. x.id == k) made_primary
      (update_where (owned_by l) (given_to s) (update_where (either_owner s l) unprimary rows))

unfoldable pub merge_subscriptions : ℕ → ℕ → Db → Db
unfolding merged_primary
merge_subscriptions s l db = elim (merged_primary s l db) [
  | none ↦ db
  | some primary ↦ set_rows (merge_rows s l primary.id) db
]

-- survivor.rw_id: the primary's profile, or the chosen one, or what it was.
abbrev pub merged_rw : Option UserSubscription → Option ℕ → Option ℕ → Option ℕ
merged_rw none none old = old
merged_rw none (some chosen) old = some chosen
merged_rw (some primary) chosen old = some primary.rw_id

abbrev pub own_ledger : ℕ → ℕ → List CreditLedger → List CreditLedger
own_ledger s l = update_where (λ r. r.user_id == l) (λ r. record r { user_id = s })

abbrev pub own_transactions : ℕ → ℕ → List Transaction → List Transaction
own_transactions s l ts =
    update_where (λ t. elim t.android_user_id [ none ↦ false | some u ↦ u == l ])
      (λ t. record t { android_user_id = some s })
      (update_where (λ t. t.user_id == l) (λ t. record t { user_id = s }) ts)

-- UPDATE ... SET user_id in the tables with a user_id, and DELETE of the loser's row.
abbrev pub reparent : ℕ → ℕ → Db → Db
reparent s l db = record db {
  ledger = record db.ledger { rows = own_ledger s l db.ledger.rows };
  transactions = own_transactions s l db.transactions;
  pending = update_where (pending_of l) (λ p. record p { user_id = s }) db.pending;
  users = record db.users { rows = select (λ u. not (u.id == l)) db.users.rows };
}

abbrev pub save_user : User → Db → Db
save_user u db = record db { users = update (λ x. x.id == u.id) (λ x. u) db.users }

-- The account is the primary key of the pending registrations: two of them collide.
abbrev pub both_pending : ℕ → ℕ → Db → Bool
both_pending s l db =
    not (s == l) && (any (pending_of s) db.pending && any (pending_of l) db.pending)

-- users.rw_id is unique: the survivor's new value may not be that of a third account.
abbrev pub names_rw : Option ℕ → Option ℕ → Bool
names_rw none r = false
names_rw (some n) none = false
names_rw (some n) (some r) = n == r

abbrev pub rw_taken : ℕ → ℕ → Option ℕ → Db → Bool
rw_taken s l r db = any (λ u. not (u.id == s || u.id == l) && names_rw u.rw_id r) db.users.rows

abbrev pub new_rw : User → User → Option ℕ → Db → Option ℕ
new_rw survivor loser chosen db =
    merged_rw (merged_primary survivor.id loser.id db) chosen survivor.rw_id

-- A constraint of the database stands in the way.
unfoldable pub collides : User → User → Option ℕ → Db → Bool
unfolding merged_primary
collides survivor loser chosen db =
    both_pending survivor.id loser.id db
    || rw_taken survivor.id loser.id (new_rw survivor loser chosen db) db

-- What the merge writes, for two rows that are there.
unfoldable pub merged : User → User → ℤ → Option ℕ → Db → Db
unfolding merged_primary merge_subscriptions
merged survivor loser tg_id chosen db = reparent survivor.id loser.id (
    save_user (merged_user survivor loser tg_id (new_rw survivor loser chosen db))
      (merge_subscriptions survivor.id loser.id db))

unfoldable pub apply_merge_db : User → User → ℤ → Option ℕ → Exec Db (Unit {0})
unfolding merged collides
apply_merge_db survivor loser tg_id chosen db =
    if collides survivor loser chosen db
    then (err integrity_error, db)
    else (ok tt, merged survivor loser tg_id chosen db)
