-- ===== src/Onboarding.antt =====
-- packages/common_db/common_db/repo/subscription_onboarding.py: a registration from a subscription
-- page waits for the proof of the account, and then attaches the account's first profile. The ISO
-- texts of one clock compare like the moments they name, so a moment is a number of seconds beside
-- its text.
pub mod Links
use xray_vpn_bot.Prelude.{
  ℕ, ◌+◌, ◌*◌, leb, length, String, Bool, true, false, not, Option, none, some, List, [], ◌∷◌, ◌++◌,
  ◌==◌, find, any, select, is_some, if◌then◌else◌,
}
use xray_vpn_bot.Exec.{
  Exec, Result, ok, err, value_error, integrity_error, pure, modify, ◌>>=◌, ◌>>◌,
}
use xray_vpn_bot.Db.{Db, User, UserSubscription, PendingOnboarding}
use xray_vpn_bot.Db.Tables.{update}
use xray_vpn_bot.Wallet.{find_user}
use xray_vpn_bot.Subscription.{AttachRequest, attach, list_for_user, get_by_rw_id, is_foreign}

pub data OnboardingStatus : Type 0 where
  attached awaiting_oauth already_attached skipped_nonempty conflict nothing_pending :
      OnboardingStatus

abbrev pub pending_ttl_seconds : ℕ
pending_ttl_seconds = 24 * 60 * 60

abbrev pub pending_of : ℕ → PendingOnboarding → Bool
pending_of user_id p = p.user_id == user_id

-- The primary key is the account.
abbrev pub find_pending : ℕ → Db → Option PendingOnboarding
find_pending user_id db = find (pending_of user_id) db.pending

abbrev pub new_pending : ℕ → Option ℕ → ℕ → PendingOnboarding
new_pending user_id rw_id now = record {
  user_id = user_id;
  rw_id = rw_id;
  created_at = now;
  expires_at = now + pending_ttl_seconds;
}

-- The account is the primary key, so a second row is refused by the database.
unfoldable pub create : ℕ → Option ℕ → ℕ → Exec Db PendingOnboarding
create user_id rw_id now db =
    if any (pending_of user_id) db.pending then (err integrity_error, db) else (
      ok (new_pending user_id rw_id now),
      record db { pending = db.pending ++ new_pending user_id rw_id now ∷ [] },
    )

abbrev pub clear : ℕ → Db → Db
clear user_id db = record db { pending = select (λ p. not (p.user_id == user_id)) db.pending }

-- A row that has expired is deleted.
unfoldable pub get_active : ℕ → ℕ → Exec Db (Option PendingOnboarding)
get_active user_id now db = elim (find_pending user_id db) [
  | none ↦ (ok none, db)
  | some row ↦ if leb row.expires_at now then (ok none, clear user_id db) else (ok (some row), db)
]

abbrev pub verify_email : ℕ → String → Db → Db
verify_email user_id now_text db = record db {
  users =
      update (λ u. u.id == user_id) (λ u. record u { email_verified_at = some now_text }) db.users;
}

abbrev pub first_profile : ℕ → ℕ → String → AttachRequest
first_profile user_id rw_id source = record {
  user_id = user_id;
  rw_id = rw_id;
  source = source;
  product_key = none;
  label = none;
  make_primary = true;
}

-- The status is computed before the row is cleared.
abbrev pub nonempty_status : Option ℕ → List UserSubscription → OnboardingStatus
nonempty_status none current = skipped_nonempty
nonempty_status (some rw) current =
    if any (λ s. s.rw_id == rw) current then already_attached else skipped_nonempty

-- An account without profiles, and the profile that waits for it.
unfoldable pub attach_pending : ℕ → ℕ → String → Exec Db OnboardingStatus
unfolding attach
attach_pending user_id rw_id now_text db =
    if is_foreign user_id (get_by_rw_id rw_id db)
    then (ok conflict, clear user_id db)
    else (do
      attach (first_profile user_id rw_id "subscription_page_registration") now_text
      modify (clear user_id)
      pure (if is_some (get_by_rw_id rw_id db) then already_attached else attached))
        db

abbrev pub finish_pending : ℕ → String → Option PendingOnboarding → Exec Db OnboardingStatus
finish_pending user_id now_text none db = (ok nothing_pending, db)
finish_pending user_id now_text (some pending) db =
    if length (list_for_user user_id db) == 0
    then elim pending.rw_id [
      | none ↦ (ok awaiting_oauth, db)
      | some rw ↦ attach_pending user_id rw now_text db
    ]
    else (ok (nonempty_status pending.rw_id (list_for_user user_id db)), clear user_id db)

unfoldable pub finalize_email_verification : ℕ → ℕ → String → Exec Db OnboardingStatus
unfolding get_active attach_pending list_for_user
finalize_email_verification user_id now now_text db = elim (find_user user_id db) [
  | none ↦ (err (value_error "user_not_found"), db)
  | some u ↦
      (do pending ← get_active user_id now; finish_pending user_id now_text pending)
        (verify_email user_id now_text db)
]

pub record InitialResult : Type 0 where
  pub status : OnboardingStatus
  pub subscription_id : Option ℕ
  pub is_primary : Bool

abbrev pub initial_report : ℕ → UserSubscription → Exec Db InitialResult
initial_report user_id linked = do
  modify (clear user_id)
  pure (record {
    status = attached;
    subscription_id = some linked.id;
    is_primary = linked.is_primary;
  })

-- The branch that attaches.
unfoldable pub attach_first : ℕ → ℕ → String → Exec Db InitialResult
unfolding attach
attach_first user_id rw_id now_text = do
  linked ← attach (first_profile user_id rw_id "subscription_page_oauth") now_text
  initial_report user_id linked

-- The decision, by the owner of the profile and the profiles of the account.
abbrev pub initial_for : ℕ → ℕ → String → Option UserSubscription → Exec Db InitialResult
initial_for user_id rw_id now_text (some owner) db =
    if not (owner.user_id == user_id)
    then (err (value_error "subscription_already_linked"), db)
    else (
      ok (record {
        status = already_attached;
        subscription_id = some owner.id;
        is_primary = owner.is_primary;
      }),
      clear user_id db,
    )
initial_for user_id rw_id now_text none db =
    if length (list_for_user user_id db) == 0 then attach_first user_id rw_id now_text db else (
      ok (record { status = skipped_nonempty; subscription_id = none; is_primary = false }),
      clear user_id db,
    )

unfoldable pub attach_initial : ℕ → ℕ → String → Exec Db InitialResult
unfolding attach_first list_for_user
attach_initial user_id rw_id now_text db = elim (find_user user_id db) [
  | none ↦ (err (value_error "user_not_found"), db)
  | some u ↦ initial_for user_id rw_id now_text (get_by_rw_id rw_id db) db
]
