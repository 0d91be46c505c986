-- ===== src/Merge/Linked.antt =====
-- The links between accounts and profiles under the merges of merge.py, from the lookups to the end.
use xray_vpn_bot.Prelude.{
  ℕ, ℤ, String, ◌≡◌, ◌≢◌, ◌⊎◌, sym, ◌∙◌, Bool, true, some, is_some, arith, ==_iff, find, any, inl,
  inr, Option-cases, find_holds, is_some-find,
}
use xray_vpn_bot.Db.{Db, User}
use xray_vpn_bot.Db.Updates.{find_unique, any-find}
use xray_vpn_bot.Wallet.{find_user}
use xray_vpn_bot.Subscription.{AttachRequest, attach, get_by_rw_id}
use xray_vpn_bot.Subscription.Links.{IsLinked, has_rw, find_user-set_user_rw}
use xray_vpn_bot.Subscription.Owners.{attach-owners}
use xray_vpn_bot.Subscription.AttachOutcome.{attach_outcome}
use xray_vpn_bot.Subscription.Frame.{KeepsProfiles, attach_keeps}
use xray_vpn_bot.Merge.Accounts.{Lookups, link_request, merge_android_and_tg, merge_tg_into_email}
use xray_vpn_bot.Merge.Apply.{either_owner}
use xray_vpn_bot.Merge.Keeps.{KeepsMerge, merge_android_keeps, merge_email_keeps}
use xray_vpn_bot.Merge.Links.{merged-IsLinked}

known-keeps : (v : ℕ) → KeepsProfiles (λ db. is_some (find_user v db) ≡ true)
known-keeps v = record {
  profiles = λ db t h. h;
  column = λ user_id rw_id db h. ground (arith, h, find_user-set_user_rw user_id v rw_id db);
}

module _ (s l : ℕ) where
  abbrev has_profile : Db → Bool
  has_profile db = any (either_owner s l) db.subscriptions.rows

  -- A profile of either account keeps its owner.
  attach-has_profile :
      (req : AttachRequest) (now : String) (db : Db)
      → IsLinked db
      → has_profile db ≡ true
      → has_profile (attach req now db).1 ≡ true
  attach-has_profile req now db h has =
      let rows = db.subscriptions.rows in
      let after = (attach req now db).1 in
      elim (Option-cases (find (either_owner s l) rows)) [
        | inl missing ↦ absurd (ground (arith, is_some-find (either_owner s l) rows))
        | inr (x, e) ↦
            let mine = find_holds (either_owner s l) rows x e in
            let alone : get_by_rw_id x.rw_id db ≡ some x =
              find_unique (has_rw x.rw_id) (either_owner s l) rows x e
                (ground (arith, ==_iff x.rw_id x.rw_id)) (h.profiles_once x.rw_id) in
            let owner = attach-owners req now db x.rw_id x.user_id (ground arith) in
            elim (Option-cases (get_by_rw_id x.rw_id after)) [
              | inl gone ↦ absurd (ground arith)
              | inr (y, e') ↦
                  let same : y.user_id ≡ x.user_id = ground arith in
                  any-find (either_owner s l) (has_rw x.rw_id) after.subscriptions.rows y e'
                    (ground arith)
            ]
      ]

  record IsReady (db : Db) : Type 0 where
    links : IsLinked db
    survivor_known : is_some (find_user s db) ≡ true
    loser_known : is_some (find_user l db) ≡ true
    profile : has_profile db ≡ true

  attach-IsReady :
      (req : AttachRequest) (now : String) (db : Db)
      → (req.user_id ≡ s) ⊎ (req.user_id ≡ l)
      → IsReady db
      → IsReady (attach req now db).1
  attach-IsReady req now db who h =
      let here : is_some (find_user req.user_id db) ≡ true = elim who [
        | inl e ↦ rw e h.survivor_known
        | inr e ↦ rw e h.loser_known
      ] in
      record {
        links = elim (Option-cases (find_user req.user_id db)) [
          | inl missing ↦ absurd (ground arith)
          | inr (u, known) ↦ elim (attach_outcome req now db u known h.links) [
            | inl (foreign, raised, same) ↦ rw same h.links
            | inr (own, done, after) ↦ after
          ]
        ];
        survivor_known =
            attach_keeps (λ t. is_some (find_user s t) ≡ true) (known-keeps s) req now db
              h.survivor_known;
        loser_known =
            attach_keeps (λ t. is_some (find_user l t) ≡ true) (known-keeps l) req now db
              h.loser_known;
        profile = attach-has_profile req now db h.links h.profile;
      }

  IsLinked-KeepsMerge : s ≢ l → KeepsMerge IsReady IsLinked s l
  IsLinked-KeepsMerge apart = record {
    attaches = λ user_id rw_id now db who h.
        attach-IsReady (link_request user_id rw_id "account_merge_backfill") now db who h;
    merges = λ a b tg_id chosen db is_s is_l here there h.
        merged-IsLinked a b tg_id chosen db h.links (λ same. apart (sym is_s ∙ same ∙ is_l)) here
          (inl (rw (is_s, is_l) h.profile));
    ends = λ db h. h.links;
  }

  ready :
      (db : Db) (a b : User)
      → IsLinked db
      → has_profile db ≡ true
      → find_user s db ≡ some a
      → find_user l db ≡ some b
      → IsReady db
  ready db a b h has here there = record {
    links = h;
    survivor_known = ground arith;
    loser_known = ground arith;
    profile = has;
  }

-- Linking an Android account to the Telegram row of another user keeps the links (one primary
-- for each account with subscriptions, named by the column of the account, and every profile in
-- one row), with every result, if one of the two has a profile.
pub merge_android-IsLinked :
    (l : Lookups) (now : String) (android tg_user : ℕ) (tg_id : ℤ) (db : Db)
    → tg_user ≢ android
    → any (either_owner tg_user android) db.subscriptions.rows ≡ true
    → IsLinked db
    → IsLinked (merge_android_and_tg l now android tg_user tg_id db).1
merge_android-IsLinked l now android tg_user tg_id db apart has h =
    merge_android_keeps (IsReady tg_user android) IsLinked l now android tg_user tg_id db h
      (λ a t e e'. ready tg_user android db t a h has e' e)
      (IsLinked-KeepsMerge tg_user android apart)

-- Merging a Telegram row into an e-mail account keeps the links, with every result, if one of
-- the two has a profile.
pub merge_email-IsLinked :
    (l : Lookups) (now : String) (email_user tg_user : ℕ) (tg_id : ℤ) (db : Db)
    → any (either_owner email_user tg_user) db.subscriptions.rows ≡ true
    → IsLinked db
    → IsLinked (merge_tg_into_email l now email_user tg_user tg_id db).1
merge_email-IsLinked l now email_user tg_user tg_id db has h =
    merge_email_keeps (IsReady email_user tg_user) IsLinked l now email_user tg_user tg_id db h
      (λ e t found found'. ready email_user tg_user db e t h has found found')
      (IsLinked-KeepsMerge email_user tg_user)
