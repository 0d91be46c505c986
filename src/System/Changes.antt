-- ===== src/System/Changes.antt =====
-- The operations of System, those of the profiles, the merges of accounts and the deliveries of paid
-- orders, in any order.
use xray_vpn_bot.Prelude.{
  ℕ, ℤ, pos, ◌+ℤ◌, ◌≤ℤ◌, int_laws, String, ◌≡◌, ◌≢◌, refl, sym, ap, ◌∙◌, Option, some, arith, ◌==◌,
  inl, inr, Bool-cases,
}
use xray_vpn_bot.Db.{Db, User}
use xray_vpn_bot.Db.Updates.{count-update_same}
use xray_vpn_bot.Db.Sums.{sum_of, sum_of-update_same}
use xray_vpn_bot.Wallet.{find_user, balance_of}
use xray_vpn_bot.Wallet.Runs.{IsSolvent}
use xray_vpn_bot.Subscription.{AttachRequest, attach, set_primary, detach, set_user_rw}
use xray_vpn_bot.Subscription.Frame.{KeepsProfiles, attach_keeps, set_primary_keeps, detach_keeps}
use xray_vpn_bot.Subscription.Links.{find_user-set_user_rw}
use xray_vpn_bot.System.{Step}
use xray_vpn_bot.System.Money.{KeepsAll, step_keeps, IsSolvent-all}
use xray_vpn_bot.System.Conserved.{IsConserved, IsConserved-all, amount_of}
use xray_vpn_bot.Delivery.World.{PanelCalls, Outside, Order}
use xray_vpn_bot.Delivery.Deliver.{deliver_android_paid}
use xray_vpn_bot.Delivery.Invariants.{deliver_keeps}
use xray_vpn_bot.Delivery.Links.{profiles-KeepsDelivery}
use xray_vpn_bot.Merge.Accounts.{Lookups, merge_android_and_tg, merge_tg_into_email}
use xray_vpn_bot.Merge.Import.{import_subscription_by_uuid}
use xray_vpn_bot.Merge.ImportKeeps.{import_keeps}
use xray_vpn_bot.Merge.Apply.{merged}
use xray_vpn_bot.Merge.Keeps.{KeepsMerge, merge_android_keeps, merge_email_keeps}
use xray_vpn_bot.Merge.Users.{
  has_user_id, credits_of, find_user-merged, merged-once, merged-sum, merged-ledger,
}

-- An account is linked to another account, never to itself: the Telegram row of the Android flow is
-- the row of another user.
pub data Change : Db → Db → Type 1 where
  moves_points : {a b : Db} → Step a b → Change a b
  attaches : {db : Db} (req : AttachRequest) (now : String) → Change db (attach req now db).1
  chooses :
      {db : Db} (user_id sid : ℕ) (now : String) → Change db (set_primary user_id sid now db).1
  detaches : {db : Db} (user_id sid : ℕ) → Change db (detach user_id sid db).1
  merges_android :
      {db : Db} (l : Lookups) (now : String) (android tg_user : ℕ) (tg_id : ℤ)
      → tg_user ≢ android
      → Change db (merge_android_and_tg l now android tg_user tg_id db).1
  merges_email :
      {db : Db} (l : Lookups) (now : String) (email_user tg_user : ℕ) (tg_id : ℤ)
      → Change db (merge_tg_into_email l now email_user tg_user tg_id db).1
  imports :
      {db : Db} (l : Lookups) (lower : String → String) (now : String) (user_id : ℕ)
      (short_uuid claimed : String)
      → Change db (import_subscription_by_uuid l lower now user_id short_uuid claimed db).1
  delivers :
      {db : Db} {W : Type 0} (calls : PanelCalls W) (outside : Outside) (order : Order) (panel : W)
      → Change db
          (deliver_android_paid calls outside order (record { db = db; panel = panel })).1.db

pub data Evolves : Db → Db → Type 1 where
  settled : {db : Db} → Evolves db db
  further : {a b c : Db} → Change a b → Evolves b c → Evolves a c

record KeepsChanges (P : Db → Type 0) : Type 0 where
  points : KeepsAll P
  profiles : KeepsProfiles P
  merges :
      (s l : User) (tg_id : ℤ) (chosen : Option ℕ) (db : Db)
      → s.id ≢ l.id
      → find_user s.id db ≡ some s
      → find_user l.id db ≡ some l
      → P db
      → P (merged s l tg_id chosen db)

module _ (P : Db → Type 0) (k : KeepsChanges P) where
  keeps_merge : (survivor loser : ℕ) → survivor ≢ loser → KeepsMerge P P survivor loser
  keeps_merge survivor loser apart = record {
    attaches = λ user_id rw_id now db who h. attach_keeps P k.profiles _ now db h;
    merges = λ s l tg_id chosen db is_s is_l here there h.
        k.merges s l tg_id chosen db (λ same. apart (sym is_s ∙ same ∙ is_l)) here there h;
    ends = λ db h. h;
  }

  change_keeps : {a b : Db} → Change a b → P a → P b
  change_keeps (moves_points step) h = step_keeps P k.points step h
  change_keeps (attaches {db} req now) h = attach_keeps P k.profiles req now db h
  change_keeps (chooses {db} user_id sid now) h =
      set_primary_keeps P k.profiles user_id sid now db h
  change_keeps (detaches {db} user_id sid) h = detach_keeps P k.profiles user_id sid db h
  change_keeps (merges_android {db} l now android tg_user tg_id apart) h =
      merge_android_keeps P P l now android tg_user tg_id db h (λ _ _ _ _. h)
        (keeps_merge tg_user android apart)
  change_keeps (merges_email {db} l now email_user tg_user tg_id) h =
      merge_email_keeps P P l now email_user tg_user tg_id db h (λ _ _ _ _. h)
        (keeps_merge email_user tg_user)
  change_keeps (imports {db} l lower now user_id short_uuid claimed) h =
      import_keeps P k.profiles l lower now user_id short_uuid claimed db h
  change_keeps (delivers {db} calls outside order panel) h =
      deliver_keeps calls outside P P order (record { db = db; panel = panel })
        (profiles-KeepsDelivery P order.user_id k.profiles k.points.transactions) (λ d hd. hd)
        (λ tx f. k.points.transactions db _ h) (λ u known. h)

  evolves_keeps : {a b : Db} → Evolves a b → P a → P b
  evolves_keeps settled h = h
  evolves_keeps (further step rest) h = evolves_keeps rest (change_keeps step h)

column-IsConserved :
    (opening : ℤ) (user_id : ℕ) (rw_id : Option ℕ) (db : Db)
    → IsConserved opening db
    → IsConserved opening (set_user_rw user_id rw_id db)
column-IsConserved opening user_id rw_id db h =
    let set : User → User = λ u. record u { rw_id = rw_id } in
    record {
      users_once = λ k.
          rw (count-update_same (has_user_id k) (has_user_id user_id) set db.users.rows (λ x. refl))
            (h.users_once k);
      conserved =
          sum_of-update_same credits_of (has_user_id user_id) set db.users.rows (λ x. refl)
          ∙ h.conserved;
    }

IsConserved-changes : (opening : ℤ) → KeepsChanges (IsConserved opening)
IsConserved-changes opening = record {
  points = IsConserved-all opening;
  profiles = record {
    profiles = λ db t h. record { users_once = h.users_once; conserved = h.conserved };
    column = λ user_id rw_id db h. column-IsConserved opening user_id rw_id db h;
  };
  merges = λ s l tg_id chosen db apart here there h. record {
    users_once = λ k. merged-once s l tg_id chosen db apart here there h.users_once k;
    conserved =
        merged-sum s l tg_id chosen db apart here there h.users_once
        ∙ h.conserved
        ∙ ap (λ x. opening +ℤ x)
            (sym (
              ap (sum_of amount_of) (merged-ledger s l tg_id chosen db)
              ∙ sum_of-update_same amount_of (λ r. r.user_id == l.id)
                  (λ r. record r { user_id = s.id }) db.ledger.rows (λ x. refl)));
  };
}

merged-IsSolvent :
    (s l : User) (tg_id : ℤ) (chosen : Option ℕ) (db : Db)
    → find_user s.id db ≡ some s
    → find_user l.id db ≡ some l
    → IsSolvent db
    → IsSolvent (merged s l tg_id chosen db)
merged-IsSolvent s l tg_id chosen db here there h v =
    let mine : pos 0 ≤ℤ s.bonus_credits = ground (arith, h s.id) in
    let theirs : pos 0 ≤ℤ l.bonus_credits = ground (arith, h l.id) in
    let together : pos 0 ≤ℤ s.bonus_credits +ℤ l.bonus_credits = omega (int_laws, mine, theirs) in
    let others = h v in
    rw (find_user-merged s l tg_id chosen db v here) (elim (Bool-cases (v == l.id)) [
      | inl gone ↦ rw gone (omega arith)
      | inr stays ↦ elim (Bool-cases (v == s.id)) [
        | inl survivor ↦ rw (stays, survivor) together
        | inr other ↦ rw (stays, other) others
      ]
    ])

IsSolvent-changes : KeepsChanges IsSolvent
IsSolvent-changes = record {
  points = IsSolvent-all;
  profiles = record {
    profiles = λ db t h. h;
    column = λ user_id rw_id db h v. ground (arith, h v, find_user-set_user_rw user_id v rw_id db);
  };
  merges =
      λ s l tg_id chosen db apart here there h. merged-IsSolvent s l tg_id chosen db here there h;
}

-- Whatever sequence of credits, debits, purchases, redemptions, rewards, changes of profiles,
-- merges of two different accounts, imports and deliveries of orders is run, with whatever
-- results, every user stands in one row and all balances together are an opening sum plus what
-- the ledger moved, if it was so before.
pub Evolves-IsConserved :
    (opening : ℤ) (db db' : Db) → Evolves db db' → IsConserved opening db → IsConserved opening db'
Evolves-IsConserved opening db db' path h =
    evolves_keeps (IsConserved opening) (IsConserved-changes opening) path h

-- Whatever sequence of credits, debits, purchases, redemptions, rewards, changes of profiles,
-- merges of two different accounts, imports and deliveries of orders is run, no balance is
-- negative afterwards, if none is before.
pub Evolves-IsSolvent :
    (v : ℕ) (db db' : Db) → Evolves db db' → IsSolvent db → pos 0 ≤ℤ balance_of (find_user v db')
Evolves-IsSolvent v db db' path h = evolves_keeps IsSolvent IsSolvent-changes path h v
