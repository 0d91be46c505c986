-- ===== src/Subscription/Owners.antt =====
-- The owner of a profile under `attach` of repo/subscriptions.py.
use xray_vpn_bot.Prelude.{
  ℕ, String, ◌≡◌, refl, ap, ◌∙◌, inl, inr, Bool, Option, none, some, [], ◌∷◌, arith, ◌==◌,
  find-append, Bool-cases, Option-cases,
}
use xray_vpn_bot.Db.{Db, UserSubscription}
use xray_vpn_bot.Db.Updates.{find-update_same}
use xray_vpn_bot.Subscription.{
  AttachRequest, primary_of, get_by_rw_id, demoted, refreshed, new_row, mirror, demote_primary,
  attach_row, is_foreign, makes_primary, attach, change_row,
}

-- The account that has a profile.
abbrev pub owner_of : ℕ → Db → Option ℕ
owner_of r db = elim (get_by_rw_id r db) [ none ↦ none | some s ↦ some s.user_id ]

-- A change of rows that keeps profiles and owners.
owner_of-change_row :
    (r : ℕ) (p : UserSubscription → Bool) (f : UserSubscription → UserSubscription) (db : Db)
    → ((s : UserSubscription) → (f s).rw_id ≡ s.rw_id)
    → ((s : UserSubscription) → (f s).user_id ≡ s.user_id)
    → owner_of r (change_row p f db) ≡ owner_of r db
owner_of-change_row r p f db rw_kept user_kept =
    let moved =
      find-update_same (λ (s : UserSubscription). s.rw_id == r) p f db.subscriptions.rows
        (λ s. ap (λ n. n == r) (rw_kept s)) in
    elim (Option-cases (get_by_rw_id r db)) [
      | inl e ↦ ground (arith, moved)
      | inr (s, e) ↦ ground (arith, moved, user_kept s)
    ]

owner_of-mirror :
    (r v : ℕ) (s : UserSubscription) (db : Db) → owner_of r (mirror v s db).1 ≡ owner_of r db
owner_of-mirror r v s db = ground arith

owner_of-demote :
    (r v : ℕ) (first : Bool) (now : String) (db : Db)
    → owner_of r (demote_primary v first now db) ≡ owner_of r db
owner_of-demote r v first now db =
    ground (arith, owner_of-change_row r (primary_of v) (demoted now) db (λ s. refl) (λ s. refl))

owner_of-attach_row :
    (req : AttachRequest) (first : Bool) (now : String) (linked : Option UserSubscription) (db : Db)
    (r o : ℕ)
    → owner_of r db ≡ some o
    → owner_of r (attach_row req first now linked db).1 ≡ some o
owner_of-attach_row req first now none db r o had =
    let row = new_row req first now db.subscriptions.next in
    owner_of-mirror r req.user_id row _
    ∙ ground (
      arith,
      find-append (λ (s : UserSubscription). s.rw_id == r) db.subscriptions.rows (row ∷ []),
    )
owner_of-attach_row req first now (some s) db r o had =
    owner_of-mirror r req.user_id (refreshed req first now s) _
    ∙ owner_of-change_row r (λ t. t.id == s.id) (refreshed req first now) db (λ t. refl) (λ t. refl)
    ∙ had

-- Whatever is attached, by whom and with what result, a profile that an account has stays with
-- that account.
pub attach-owners :
    (req : AttachRequest) (now : String) (db : Db) (r o : ℕ)
    → owner_of r db ≡ some o
    → owner_of r (attach req now db).1 ≡ some o
unfolding attach
attach-owners req now db r o had =
    elim (Bool-cases (is_foreign req.user_id (get_by_rw_id req.rw_id db))) [
      | inl e ↦ rw (e, attach) had
      | inr e ↦
          rw (e, attach)
            (owner_of-attach_row req (makes_primary req db) now (get_by_rw_id req.rw_id db)
              (demote_primary req.user_id (makes_primary req db) now db) r o
              (owner_of-demote r req.user_id (makes_primary req db) now db ∙ had))
    ]
