-- ===== src/Tests/Merges.antt =====
-- Alice links her account to Bob's Telegram row.
use xray_vpn_bot.Prelude.{
  ℕ, pos, ◌+ℤ◌, ◌≤ℤ◌, ◌≡◌, ◌≢◌, ◌⊎◌, refl, true, false, String, none, some, arith, codes, select,
}
use xray_vpn_bot.Prelude.Strip.{strip}
use xray_vpn_bot.Exec.{Result, ok, err, integrity_error, lookup_not_found}
use xray_vpn_bot.Db.{Db, User}
use xray_vpn_bot.Panel.{Profile}
use xray_vpn_bot.Wallet.{balance_of, find_user}
use xray_vpn_bot.Wallet.Runs.{IsSolvent}
use xray_vpn_bot.Subscription.{owned_by, get_by_rw_id}
use xray_vpn_bot.Subscription.Links.{IsLinked}
use xray_vpn_bot.Subscription.Owners.{owner_of}
use xray_vpn_bot.Merge.Accounts.{Lookups, RawUser, merge_android_and_tg, merge_tg_into_email}
use xray_vpn_bot.Merge.Apply.{apply_merge_db, collides}
use xray_vpn_bot.Merge.Import.{import_subscription_by_uuid, ImportResult}
use xray_vpn_bot.Merge.Linked.{merge_android-IsLinked, merge_email-IsLinked}
use xray_vpn_bot.Merge.Outcome.{apply_merge_outcome, moved_to, content_of}
use xray_vpn_bot.System.{credits}
use xray_vpn_bot.System.Conserved.{IsConserved}
use xray_vpn_bot.System.Changes.{
  Evolves, settled, further, moves_points, merges_android, Evolves-IsConserved, Evolves-IsSolvent,
}
use xray_vpn_bot.Wallet.{credit}
use xray_vpn_bot.Tests.Samples.{subscribed, alice, bob}
use xray_vpn_bot.Tests.Subscriptions.{subscribed-IsLinked}

abbrev profile : ℕ → Profile
profile n = record {
  rw_id = some n;
  username = some (codes "alice");
  status = some "active";
  data_limit = none;
  expire = some (pos 0);
  email = some "a@b.c";
  telegram_id = none;
  description = none;
  subscription_url = none;
}

abbrev raw : RawUser
raw = record { id = 70; email = some "a@b.c"; status = some "ACTIVE" }

abbrev lookups : Lookups
lookups = record {
  by_id = λ n. ok (some (profile n));
  by_email = λ e. ok none;
  by_username = λ e. ok none;
  by_short_uuid = λ e. ok (some raw);
}

abbrev two : ℕ
two = 2

apart : two ≢ 1
apart e = absurd (omega arith)

abbrev holder : User
holder = record alice { rw_id = some 70 }

apply_merge_outcome_example :
    let (r, db') = apply_merge_db bob holder (pos 502) (some 70) subscribed in
    ((collides bob holder (some 70) subscribed ≡ true)
      × (r ≡ err integrity_error)
      × (db' ≡ subscribed))
    ⊎ ((collides bob holder (some 70) subscribed ≡ false)
        × (r ≡ ok tt)
        × (find_user 1 db' ≡ none)
        × (balance_of (find_user 2 db') ≡ pos 0 +ℤ pos 100)
        × ((v : ℕ) → v ≢ bob.id → v ≢ holder.id → find_user v db' ≡ find_user v subscribed)
        × ((v : ℕ)
            → v ≢ bob.id
            → v ≢ holder.id
            → select (owned_by v) db'.subscriptions.rows
              ≡ select (owned_by v) subscribed.subscriptions.rows)
        × ((r' : ℕ) → owner_of r' db' ≡ moved_to 2 1 (owner_of r' subscribed))
        × ((r' : ℕ) → content_of (get_by_rw_id r' db') ≡ content_of (get_by_rw_id r' subscribed)))
apply_merge_outcome_example =
    apply_merge_outcome bob holder (pos 502) (some 70) subscribed apart refl subscribed-IsLinked

merge_android-IsLinked_example :
    IsLinked (merge_android_and_tg lookups "t" 1 2 (pos 502) subscribed).1
merge_android-IsLinked_example =
    merge_android-IsLinked lookups "t" 1 2 (pos 502) subscribed apart refl subscribed-IsLinked

merge_email-IsLinked_example : IsLinked (merge_tg_into_email lookups "t" 1 2 (pos 502) subscribed).1
merge_email-IsLinked_example =
    merge_email-IsLinked lookups "t" 1 2 (pos 502) subscribed refl subscribed-IsLinked

abbrev merged_after : Db
merged_after =
    (merge_android_and_tg lookups "t2" 1 2 (pos 502)
      (credit 2 (pos 30) "admin" none "t1" subscribed).1).1

path : Evolves subscribed merged_after
path =
    further (moves_points (credits 2 (pos 30) "admin" none "t1"))
      (further (merges_android lookups "t2" 1 2 (pos 502) apart) settled)

subscribed-IsConserved : IsConserved (pos 100) subscribed
unfolding ◌+ℤ◌
subscribed-IsConserved = record { users_once = λ k. ground arith; conserved = refl }

Evolves-IsConserved_example : IsConserved (pos 100) merged_after
Evolves-IsConserved_example =
    Evolves-IsConserved (pos 100) subscribed merged_after path subscribed-IsConserved

subscribed-IsSolvent : IsSolvent subscribed
subscribed-IsSolvent v = ground arith

Evolves-IsSolvent_example : pos 0 ≤ℤ balance_of (find_user 2 merged_after)
Evolves-IsSolvent_example = Evolves-IsSolvent 2 subscribed merged_after path subscribed-IsSolvent

-- Both balances are in the row that is left.
sum_left : balance_of (find_user 2 merged_after) ≡ pos 130
unfolding credit merge_android_and_tg ◌+ℤ◌
sum_left = refl

-- Bob claims Alice's profile, with her email and with another one.
abbrev import_by : String → Result ImportResult × Db
import_by claimed = import_subscription_by_uuid lookups (λ s. s) "t" 2 "abc" claimed subscribed

refused : import_by "x@b.c" ≡ (err lookup_not_found, subscribed)
unfolding import_subscription_by_uuid strip
refused = refl
