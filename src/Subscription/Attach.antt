-- ===== src/Subscription/Attach.antt =====
-- `attach` of repo/subscriptions.py: the first steps, which decide on a primary and demote the
-- old one.
use xray_vpn_bot.Prelude.{
  ℕ, ◌+◌, String, ◌≡◌, refl, ◌∙◌, Bool, true, false, ◌&&◌, not, some, List, [], ◌∷◌, arith, ◌==◌,
  any, count, length, length-append, select,
}
use xray_vpn_bot.Exec.{ok}
use xray_vpn_bot.Db.{Db, User, UserSubscription}
use xray_vpn_bot.Db.Updates.{
  find-update_unseen, count-update_unseen, any-update_same, count-update_same, count-update_cleared,
}
use xray_vpn_bot.Wallet.{find_user}
use xray_vpn_bot.Subscription.{
  AttachRequest, owned_by, primary_of, list_for_user, get_primary, set_user_rw, demoted, mirror,
  demote_primary, makes_primary,
}

-- The list of an account is empty when no row is its own.
length-owned :
    (v : ℕ) (xs : List UserSubscription)
    → length (select (primary_of v) xs)
        + length (select (λ s. s.user_id == v && not s.is_primary) xs)
      ≡ count (owned_by v) xs
length-owned v [] = refl
length-owned v (x ∷ xs) = ground (arith, length-owned v xs)

any-count :
    (v : ℕ) (xs : List UserSubscription) → any (owned_by v) xs ≡ false → count (owned_by v) xs ≡ 0
any-count v [] e = refl
any-count v (x ∷ xs) e = ground (arith, any-count v xs)

pub length-list_for_user :
    (v : ℕ) (db : Db) → length (list_for_user v db) ≡ count (owned_by v) db.subscriptions.rows
unfolding list_for_user
length-list_for_user v db =
    length-append (select (primary_of v) db.subscriptions.rows)
      (select (λ s. s.user_id == v && not s.is_primary) db.subscriptions.rows)
    ∙ length-owned v db.subscriptions.rows

-- An account that gets no primary has subscriptions already.
pub not_first :
    (req : AttachRequest) (db : Db)
    → makes_primary req db ≡ false
    → any (owned_by req.user_id) db.subscriptions.rows ≡ true
unfolding list_for_user
not_first req db e =
    let v = req.user_id in
    let rows = db.subscriptions.rows in
    ground (
      arith,
      length-owned v rows,
      any-count v rows,
      length-append (select (primary_of v) rows)
          (select (λ s. s.user_id == v && not s.is_primary) rows),
    )

pub mirror_primary :
    (v : ℕ) (s : UserSubscription) (d : Db) (u : User)
    → s.is_primary ≡ true
    → find_user v d ≡ some u
    → mirror v s d ≡ (ok s, set_user_rw v (some s.rw_id) d)
mirror_primary v s d u e found = ground arith

pub mirror_other :
    (v : ℕ) (s : UserSubscription) (d : Db) → s.is_primary ≡ false → mirror v s d ≡ (ok s, d)
mirror_other v s d e = ground arith

-- After the account's primary is taken away, if `first`.
module _ (user_id : ℕ) (first : Bool) (now : String) (db : Db) where
  abbrev pub cleared : Db
  cleared = demote_primary user_id first now db

  pub cleared-rest :
      (cleared.users ≡ db.users) × (cleared.subscriptions.next ≡ db.subscriptions.next)
  cleared-rest = ground arith

  pub cleared-count :
      (q : UserSubscription → Bool)
      → ((s : UserSubscription) → q (demoted now s) ≡ q s)
      → count q cleared.subscriptions.rows ≡ count q db.subscriptions.rows
  cleared-count q d =
      ground (arith, count-update_same q (primary_of user_id) (demoted now) db.subscriptions.rows d)

  pub cleared-any :
      (q : UserSubscription → Bool)
      → ((s : UserSubscription) → q (demoted now s) ≡ q s)
      → any q cleared.subscriptions.rows ≡ any q db.subscriptions.rows
  cleared-any q d =
      ground (arith, any-update_same q (primary_of user_id) (demoted now) db.subscriptions.rows d)

  pub cleared-others :
      (v : ℕ)
      → v == user_id ≡ false
      → (count (primary_of v) cleared.subscriptions.rows
          ≡ count (primary_of v) db.subscriptions.rows)
        × (get_primary v cleared ≡ get_primary v db)
  cleared-others v other = ground (
    arith,
    count-update_unseen (primary_of v) (primary_of user_id) (demoted now) db.subscriptions.rows
        (λ s e. ground arith),
    find-update_unseen (primary_of v) (primary_of user_id) (demoted now) db.subscriptions.rows
        (λ s e. ground arith),
  )

  pub cleared-none : first ≡ true → count (primary_of user_id) cleared.subscriptions.rows ≡ 0
  cleared-none e = ground (
    arith,
    count-update_cleared (primary_of user_id) (primary_of user_id) (demoted now)
        db.subscriptions.rows (λ s e. ground arith) (λ s e. ground arith),
  )
