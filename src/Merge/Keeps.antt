-- ===== src/Merge/Keeps.antt =====
-- What the merges of merge.py write: profiles are attached, and two accounts become one. A property
-- that these two keep is kept by the merges, with every result. `P` holds while both accounts are
-- there, and `Q` before and after.
use xray_vpn_bot.Prelude.{
  ℕ, ℤ, String, ◌≡◌, ◌≢◌, ◌⊎◌, refl, ap, ◌∙◌, Option, none, some, arith, ◌==◌, ==_iff, inl, inr,
  Bool-cases, Option-cases, find_holds,
}
use xray_vpn_bot.Exec.{Result, ok, err, ◌>>=◌, bind_post}
use xray_vpn_bot.Db.{Db, User}
use xray_vpn_bot.Panel.{Profile}
use xray_vpn_bot.Wallet.{find_user}
use xray_vpn_bot.Subscription.{attach}
use xray_vpn_bot.Merge.Decide.{Decision, Tier, pro, free, absent, classify, decide}
use xray_vpn_bot.Merge.Apply.{merged, apply_merge_db, collides}
use xray_vpn_bot.Merge.Accounts.{
  Lookups, lookup_a, lookup_t, rw_of_info, link_request, backfill, answered, merge_rows_of,
  merge_found, android_decision, merge_android_and_tg, email_decision, merge_tg_into_email,
  merge_report,
}

-- The two writes of a merge of the account `loser` into `survivor`.
pub record KeepsMerge (P Q : Db → Type 0) (survivor loser : ℕ) : Type 0 where
  pub attaches :
      (user_id rw_id : ℕ) (now : String) (db : Db)
      → (user_id ≡ survivor) ⊎ (user_id ≡ loser)
      → P db
      → P (attach (link_request user_id rw_id "account_merge_backfill") now db).1
  pub merges :
      (s l : User) (tg_id : ℤ) (chosen : Option ℕ) (db : Db)
      → s.id ≡ survivor
      → l.id ≡ loser
      → find_user s.id db ≡ some s
      → find_user l.id db ≡ some l
      → P db
      → Q (merged s l tg_id chosen db)
  pub ends : (db : Db) → P db → Q db

pub found_id : (k : ℕ) (db : Db) (u : User) → find_user k db ≡ some u → u.id ≡ k
found_id k db u e =
    let holds = find_holds (λ (x : User). x.id == k) db.users.rows u e in
    ground (arith, ==_iff u.id k)

module _ (P Q : Db → Type 0) (survivor loser : ℕ) (k : KeepsMerge P Q survivor loser) where
  backfill_keeps :
      (user_id : ℕ) (rw_id : Option ℕ) (now : String) (db : Db)
      → (user_id ≡ survivor) ⊎ (user_id ≡ loser)
      → P db
      → P (backfill user_id rw_id now db)
  backfill_keeps user_id none now db who h = h
  backfill_keeps user_id (some r) now db who h = k.attaches user_id r now db who h

  apply_merge_keeps :
      (s l : User) (tg_id : ℤ) (chosen : Option ℕ) (db : Db)
      → find_user survivor db ≡ some s
      → find_user loser db ≡ some l
      → P db
      → Q (apply_merge_db s l tg_id chosen db).1
  unfolding apply_merge_db
  apply_merge_keeps s l tg_id chosen db here there h =
      let s_id = found_id survivor db s here in
      let l_id = found_id loser db l there in
      elim (Bool-cases (collides s l chosen db)) [
        | inl both ↦ rw (both, apply_merge_db) (k.ends db h)
        | inr one ↦
            rw (one, apply_merge_db)
              (k.merges s l tg_id chosen db s_id l_id (ap (λ i. find_user i db) s_id ∙ here)
                (ap (λ i. find_user i db) l_id ∙ there) h)
      ]

  merge_rows_keeps :
      (tg_id : ℤ) (chosen : Option ℕ) (db : Db)
      → P db
      → Q (merge_rows_of survivor loser tg_id chosen db).1
  unfolding merge_rows_of
  merge_rows_keeps tg_id chosen db h = elim (Option-cases (find_user survivor db)) [
    | inl missing ↦ rw (missing, merge_rows_of) (k.ends db h)
    | inr (s, here) ↦ elim (Option-cases (find_user loser db)) [
      | inl missing ↦ rw (here, missing, merge_rows_of) (k.ends db h)
      | inr (l, there) ↦
          rw (here, there, merge_rows_of) (apply_merge_keeps s l tg_id chosen db here there h)
    ]
  ]

  pub merge_found_keeps :
      (now : String) (a t : ℕ) (tg_id : ℤ) (d : Decision) (a_info t_info : Option Profile) (db : Db)
      → d.survivor ≡ survivor
      → d.loser ≡ loser
      → (a ≡ survivor) ⊎ (a ≡ loser)
      → (t ≡ survivor) ⊎ (t ≡ loser)
      → P db
      → Q (merge_found now a t tg_id d a_info t_info db).1
  unfolding merge_found
  merge_found_keeps now a t tg_id d a_info t_info db is_s is_l who_a who_t h =
      let filled = backfill t (rw_of_info t_info) now (backfill a (rw_of_info a_info) now db) in
      let fill_keeps : P filled =
        backfill_keeps t (rw_of_info t_info) now _ who_t
          (backfill_keeps a (rw_of_info a_info) now db who_a h) in
      let rows : Q (merge_rows_of d.survivor d.loser tg_id d.chosen filled).1 =
        rw (is_s, is_l) (merge_rows_keeps tg_id d.chosen filled fill_keeps) in
      bind_post Q Q (merge_rows_of d.survivor d.loser tg_id d.chosen)
        (λ _. merge_report d a_info t_info) filled rows (λ _ v hv. hv) (λ v hv. hv)

  -- The lookups write nothing.
  lookups_keep :
      (now : String) (a t : ℕ) (tg_id : ℤ) (found_a found_t : Result (Option Profile))
      (d : Option Profile → Option Profile → Decision) (db : Db)
      → ((x y : Option Profile) → ((d x y).survivor ≡ survivor) × ((d x y).loser ≡ loser))
      → (a ≡ survivor) ⊎ (a ≡ loser)
      → (t ≡ survivor) ⊎ (t ≡ loser)
      → P db
      → Q
          ((answered found_a >>= λ x.
              answered found_t >>= λ y. merge_found now a t tg_id (d x y) x y)
            db).1
  lookups_keep now a t tg_id (err e) found_t d db is who_a who_t h = k.ends db h
  lookups_keep now a t tg_id (ok x) (err e) d db is who_a who_t h = k.ends db h
  lookups_keep now a t tg_id (ok x) (ok y) d db is who_a who_t h =
      merge_found_keeps now a t tg_id (d x y) x y db (is x y).0 (is x y).1 who_a who_t h

-- The survivor of `_decide` is the Telegram account.
decide_sides :
    (a t : Tier) (a_rw t_rw : Option ℕ) (android tg : ℕ)
    → ((decide a t a_rw t_rw android tg).survivor ≡ tg)
      × ((decide a t a_rw t_rw android tg).loser ≡ android)
unfolding decide
decide_sides pro pro a_rw t_rw android tg = (refl, refl)
decide_sides pro free a_rw t_rw android tg = (refl, refl)
decide_sides pro absent a_rw t_rw android tg = (refl, refl)
decide_sides free pro a_rw t_rw android tg = (refl, refl)
decide_sides free free a_rw t_rw android tg = (refl, refl)
decide_sides free absent a_rw t_rw android tg = (refl, refl)
decide_sides absent pro a_rw t_rw android tg = (refl, refl)
decide_sides absent free a_rw t_rw android tg = (refl, refl)
decide_sides absent absent a_rw t_rw android tg = (refl, refl)

module _ (P Q : Db → Type 0) (l : Lookups) (now : String) (mine tg_user : ℕ) (tg_id : ℤ) (db : Db)
    (h : Q db)
    (start : (a t : User) → find_user mine db ≡ some a → find_user tg_user db ≡ some t → P db) where
  pub merge_android_keeps :
      KeepsMerge P Q tg_user mine → Q (merge_android_and_tg l now mine tg_user tg_id db).1
  unfolding merge_android_and_tg
  merge_android_keeps k = elim (Option-cases (find_user mine db)) [
    | inl missing ↦ rw (missing, merge_android_and_tg) h
    | inr (a, e) ↦ elim (Option-cases (find_user tg_user db)) [
      | inl missing ↦ rw (e, missing, merge_android_and_tg) h
      | inr (t, e') ↦
          rw (e, e', merge_android_and_tg)
            (lookups_keep P Q tg_user mine k now a.id t.id tg_id (lookup_a l a.rw_id a.email)
              (lookup_t l t.rw_id t.username tg_id) (android_decision a.id t.id) db
              (λ x y.
                let sides =
                  decide_sides (classify x) (classify y) (rw_of_info x) (rw_of_info y) a.id t.id in
                (sides.0 ∙ found_id tg_user db t e', sides.1 ∙ found_id mine db a e))
              (inr (found_id mine db a e)) (inl (found_id tg_user db t e')) (start a t e e'))
    ]
  ]

  pub merge_email_keeps :
      (mine ≢ tg_user → KeepsMerge P Q mine tg_user)
      → Q (merge_tg_into_email l now mine tg_user tg_id db).1
  unfolding merge_tg_into_email
  merge_email_keeps k = elim (Option-cases (find_user mine db)) [
    | inl missing ↦ rw (missing, merge_tg_into_email) h
    | inr (a, e) ↦ elim (Option-cases (find_user tg_user db)) [
      | inl missing ↦ rw (e, missing, merge_tg_into_email) h
      | inr (t, e') ↦ elim (Bool-cases (mine == tg_user)) [
        | inl same ↦ rw (e, e', same, merge_tg_into_email) h
        | inr apart ↦
            rw (e, e', apart, merge_tg_into_email)
              (lookups_keep P Q mine tg_user (k (ground (arith, ==_iff mine tg_user))) now a.id t.id
                tg_id (lookup_a l a.rw_id a.email) (lookup_t l t.rw_id t.username tg_id)
                (email_decision a.id t.id) db
                (λ x y. (found_id mine db a e, found_id tg_user db t e'))
                (inl (found_id mine db a e)) (inr (found_id tg_user db t e')) (start a t e e'))
      ]
    ]
  ]
