-- ===== src/Subscription/Frame.antt =====
-- What `attach`, `detach` and `set_primary` of repo/subscriptions.py write: the table of profiles and
-- one column of the users.
use xray_vpn_bot.Prelude.{
  ℕ, String, Bool, true, false, ◌&&◌, Option, none, some, ltb, ◌==◌, inl, inr, Bool-cases,
  Option-cases,
}
use xray_vpn_bot.Db.{Db, UserSubscription}
use xray_vpn_bot.Db.Tables.{Table}
use xray_vpn_bot.Wallet.{find_user}
use xray_vpn_bot.Subscription.{
  AttachRequest, get_by_rw_id, get_for_user, count_for_user, set_user_rw, mirror, demote_primary,
  attach_row, is_foreign, makes_primary, attach, set_primary, detach,
}

pub record KeepsProfiles (P : Db → Type 0) : Type 0 where
  pub profiles : (db : Db) (t : Table UserSubscription) → P db → P (record db { subscriptions = t })
  pub column : (user_id : ℕ) (rw : Option ℕ) (db : Db) → P db → P (set_user_rw user_id rw db)

module _ (P : Db → Type 0) (k : KeepsProfiles P) where
  mirror_keeps : (user_id : ℕ) (s : UserSubscription) (db : Db) → P db → P (mirror user_id s db).1
  mirror_keeps user_id s db h = elim (Bool-cases s.is_primary) [
    | inr other ↦ rw other h
    | inl primary ↦ elim (Option-cases (find_user user_id db)) [
      | inl missing ↦ rw (primary, missing) h
      | inr (u, found) ↦ rw (primary, found) (k.column user_id (some s.rw_id) db h)
    ]
  ]

  attach_row_keeps :
      (req : AttachRequest) (first : Bool) (now : String) (linked : Option UserSubscription)
      (db : Db)
      → P db
      → P (attach_row req first now linked db).1
  attach_row_keeps req first now none db h = mirror_keeps req.user_id _ _ (k.profiles db _ h)
  attach_row_keeps req first now (some s) db h = mirror_keeps req.user_id _ _ (k.profiles db _ h)

  demote_keeps :
      (user_id : ℕ) (first : Bool) (now : String) (db : Db)
      → P db
      → P (demote_primary user_id first now db)
  demote_keeps user_id true now db h = k.profiles db _ h
  demote_keeps user_id false now db h = h

  pub attach_keeps : (req : AttachRequest) (now : String) (db : Db) → P db → P (attach req now db).1
  unfolding attach
  attach_keeps req now db h =
      elim (Bool-cases (is_foreign req.user_id (get_by_rw_id req.rw_id db))) [
        | inl e ↦ rw (e, attach) h
        | inr e ↦
            rw (e, attach)
              (attach_row_keeps req (makes_primary req db) now (get_by_rw_id req.rw_id db) _
                (demote_keeps req.user_id (makes_primary req db) now db h))
      ]

  pub set_primary_keeps :
      (user_id sid : ℕ) (now : String) (db : Db) → P db → P (set_primary user_id sid now db).1
  unfolding set_primary
  set_primary_keeps user_id sid now db h = elim (Option-cases (get_for_user user_id sid db)) [
    | inl missing ↦ rw (missing, set_primary) h
    | inr (target, found) ↦ elim (Option-cases (find_user user_id db)) [
      | inl gone ↦ rw (found, gone, set_primary) (k.profiles db _ h)
      | inr (u, known) ↦ rw (found, known, set_primary) (k.column user_id _ _ (k.profiles db _ h))
    ]
  ]

  pub detach_keeps : (user_id sid : ℕ) (db : Db) → P db → P (detach user_id sid db).1
  unfolding detach
  detach_keeps user_id sid db h = elim (Option-cases (get_for_user user_id sid db)) [
    | inl missing ↦ rw (missing, detach) h
    | inr (target, found) ↦
        elim (Bool-cases (target.is_primary && ltb 1 (count_for_user user_id db))) [
          | inl several ↦ rw (found, several, detach) h
          | inr may ↦ elim (Bool-cases (count_for_user user_id db == 1)) [
            | inr more ↦ rw (found, may, more, detach) (k.profiles db _ h)
            | inl last ↦ elim (Option-cases (find_user user_id db)) [
              | inl gone ↦ rw (found, may, last, gone, detach) (k.profiles db _ h)
              | inr (u, known) ↦
                  rw (found, may, last, known, detach) (k.column user_id _ _ (k.profiles db _ h))
            ]
          ]
        ]
  ]
