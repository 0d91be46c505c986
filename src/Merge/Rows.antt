-- ===== src/Merge/Rows.antt =====
-- The subscription rows of both accounts after the updates of `_apply_merge_db` in merge.py.
use xray_vpn_bot.Prelude.{
  ℕ, ◌+◌, ◌≤◌, ◌≡◌, ◌≢◌, refl, ap, ◌∙◌, inl, inr, Bool, true, false, some, List, [], ◌∷◌, arith,
  ◌==◌, ==_iff, find, find_holds, any, count, update_where, if◌then◌else◌, Option-cases,
}
use xray_vpn_bot.Db.{Db, UserSubscription}
use xray_vpn_bot.Db.Tables.{by_key}
use xray_vpn_bot.Db.Updates.{
  any-update_same, count-update_same, find-update_same, count-update_key, find-update_key,
  find-update_found, find_unique,
}
use xray_vpn_bot.Subscription.{owned_by, primary_of}
use xray_vpn_bot.Subscription.Links.{IsLinked, has_id, key}
use xray_vpn_bot.Merge.Apply.{
  either_owner, unprimary, given_to, made_primary, merge_rows, merged_primary,
}

-- The chosen primary is a row of one of the two accounts.
pub merged_primary-row :
    (s l : ℕ) (db : Db) (p : UserSubscription)
    → IsLinked db
    → merged_primary s l db ≡ some p
    → (by_key key p.id db.subscriptions.rows ≡ some p) × (either_owner s l p ≡ true)
unfolding merged_primary
merged_primary-row s l db p h e =
    let rows = db.subscriptions.rows in
    elim (Option-cases (find (primary_of s) rows)) [
      | inr (q, found) ↦
          let same : q ≡ p = ground arith in
          let here : find (primary_of s) rows ≡ some p = found ∙ ap some same in
          (
            find_unique (has_id p.id) (primary_of s) rows p here (ground (arith, ==_iff p.id p.id))
                (h.ids_once p.id),
            ground (arith, find_holds (primary_of s) rows p here),
          )
      | inl none_s ↦ elim (Option-cases (find (primary_of l) rows)) [
        | inr (q, found) ↦
            let same : q ≡ p = ground arith in
            let here : find (primary_of l) rows ≡ some p = found ∙ ap some same in
            (
              find_unique (has_id p.id) (primary_of l) rows p here
                  (ground (arith, ==_iff p.id p.id)) (h.ids_once p.id),
              ground (arith, find_holds (primary_of l) rows p here),
            )
        | inl none_l ↦
            let here : find (either_owner s l) rows ≡ some p = ground arith in
            (
              find_unique (has_id p.id) (either_owner s l) rows p here
                  (ground (arith, ==_iff p.id p.id)) (h.ids_once p.id),
              find_holds (either_owner s l) rows p here,
            )
      ]
    ]

module _ (s l : ℕ) where
  abbrev pub pooled : List UserSubscription → List UserSubscription
  pooled rows =
      update_where (owned_by l) (given_to s) (update_where (either_owner s l) unprimary rows)

  -- No row of the survivor is primary after the first two updates.
  pooled-none : (rows : List UserSubscription) → count (primary_of s) (pooled rows) ≡ 0
  pooled-none [] = refl
  pooled-none (x ∷ xs) = ground (arith, pooled-none xs)

  pooled-owned_s :
      (rows : List UserSubscription) → any (owned_by s) (pooled rows) ≡ any (either_owner s l) rows
  pooled-owned_s [] = refl
  pooled-owned_s (x ∷ xs) = ground (arith, pooled-owned_s xs, ==_iff s s)

  pooled-owned_l : (rows : List UserSubscription) → s ≢ l → any (owned_by l) (pooled rows) ≡ false
  pooled-owned_l [] apart = refl
  pooled-owned_l (x ∷ xs) apart = ground (arith, pooled-owned_l xs apart, ==_iff s l)

  pooled-primary_l : (rows : List UserSubscription) → s ≢ l → count (primary_of l) (pooled rows) ≡ 0
  pooled-primary_l [] apart = refl
  pooled-primary_l (x ∷ xs) apart = ground (arith, pooled-primary_l xs apart, ==_iff s l)

  pooled-owned :
      (v : ℕ) (rows : List UserSubscription)
      → v == s ≡ false
      → v == l ≡ false
      → any (owned_by v) (pooled rows) ≡ any (owned_by v) rows
  pooled-owned v [] not_s not_l = refl
  pooled-owned v (x ∷ xs) not_s not_l = ground (arith, pooled-owned v xs, ==_iff v s, ==_iff v l)

  pooled-others :
      (v : ℕ) (rows : List UserSubscription)
      → v == s ≡ false
      → v == l ≡ false
      → (count (primary_of v) (pooled rows) ≡ count (primary_of v) rows)
        × (find (primary_of v) (pooled rows) ≡ find (primary_of v) rows)
  pooled-others v [] not_s not_l = (refl, refl)
  pooled-others v (x ∷ xs) not_s not_l = ground (arith, pooled-others v xs, ==_iff v s, ==_iff v l)

  pooled-count :
      (q : UserSubscription → Bool) (rows : List UserSubscription)
      → ((x : UserSubscription) → q (unprimary x) ≡ q x)
      → ((x : UserSubscription) → q (given_to s x) ≡ q x)
      → count q (pooled rows) ≡ count q rows
  pooled-count q rows u g =
      count-update_same q (owned_by l) (given_to s) (update_where (either_owner s l) unprimary rows)
        g
      ∙ count-update_same q (either_owner s l) unprimary rows u

  -- The row of the primary, in the survivor's hands.
  abbrev pub taken : UserSubscription → UserSubscription
  taken p = record p { user_id = s; is_primary = false }

  pub pooled-row :
      (p : UserSubscription) (rows : List UserSubscription)
      → by_key key p.id rows ≡ some p
      → either_owner s l p ≡ true
      → by_key key p.id (pooled rows) ≡ some (taken p)
  pooled-row p rows found owned =
      find-update_same (has_id p.id) (owned_by l) (given_to s)
        (update_where (either_owner s l) unprimary rows) (λ x. refl)
      ∙ ground (
        arith,
        find-update_same (has_id p.id) (either_owner s l) unprimary rows (λ x. refl),
        found,
        owned,
      )

  module _ (p : UserSubscription) (rows : List UserSubscription)
      (found : by_key key p.id rows ≡ some p) (owned : either_owner s l p ≡ true)
      (once : count (has_id p.id) rows ≤ 1) where
    abbrev final : List UserSubscription
    final = merge_rows s l p.id rows

    pub once-pooled : count (has_id p.id) (pooled rows) ≤ 1
    once-pooled = rw (pooled-count (has_id p.id) rows (λ x. refl) (λ x. refl)) once

    step :
        (q : UserSubscription → Bool)
        → count q final + (if q (taken p) then 1 else 0)
          ≡ count q (pooled rows) + (if q (made_primary (taken p)) then 1 else 0)
    step q =
        count-update_key key p.id q made_primary (pooled rows) (taken p)
          (pooled-row p rows found owned) once-pooled

    pub final-count :
        (q : UserSubscription → Bool)
        → ((x : UserSubscription) → q (unprimary x) ≡ q x)
        → ((x : UserSubscription) → q (given_to s x) ≡ q x)
        → ((x : UserSubscription) → q (made_primary x) ≡ q x)
        → count q final ≡ count q rows
    final-count q u g m =
        count-update_same q (has_id p.id) made_primary (pooled rows) m ∙ pooled-count q rows u g

    final-owned : (v : ℕ) → any (owned_by v) final ≡ any (owned_by v) (pooled rows)
    final-owned v =
        any-update_same (owned_by v) (has_id p.id) made_primary (pooled rows) (λ x. refl)

    either_here : any (either_owner s l) rows ≡ true
    either_here = any_found rows found
      where
        any_found :
            (xs : List UserSubscription)
            → by_key key p.id xs ≡ some p
            → any (either_owner s l) xs ≡ true
        any_found [] e = cc
        any_found (x ∷ xs) e = ground (arith, any_found xs, owned)

    pub final-owned_s : any (owned_by s) final ≡ true
    final-owned_s = final-owned s ∙ pooled-owned_s rows ∙ either_here

    pub final-owned_l : s ≢ l → any (owned_by l) final ≡ false
    final-owned_l apart = final-owned l ∙ pooled-owned_l rows apart

    pub final-owned_other :
        (v : ℕ) → v == s ≡ false → v == l ≡ false → any (owned_by v) final ≡ any (owned_by v) rows
    final-owned_other v not_s not_l = final-owned v ∙ pooled-owned v rows not_s not_l

    pub final-primary_s : count (primary_of s) final ≡ 1
    final-primary_s = ground (arith, step (primary_of s), pooled-none rows, ==_iff s s)

    pub final-primary_l : s ≢ l → count (primary_of l) final ≡ 0
    final-primary_l apart =
        ground (arith, step (primary_of l), pooled-primary_l rows apart, ==_iff s l)

    pub final-primary_other :
        (v : ℕ)
        → v == s ≡ false
        → v == l ≡ false
        → (count (primary_of v) final ≡ count (primary_of v) rows)
          × (find (primary_of v) final ≡ find (primary_of v) rows)
    final-primary_other v not_s not_l =
        let same = pooled-others v rows not_s not_l in
        (
          ground (arith, step (primary_of v), same.0, ==_iff s v, ==_iff v s),
          find-update_key key p.id (primary_of v) made_primary (pooled rows) (taken p)
                (pooled-row p rows found owned) once-pooled (ground (arith, ==_iff s v, ==_iff v s))
                (ground (arith, ==_iff s v, ==_iff v s))
              ∙ same.1,
        )

    pub final-found : find (primary_of s) final ≡ some (made_primary (taken p))
    final-found =
        find-update_found key p.id (primary_of s) made_primary (pooled rows) (taken p)
          (pooled-row p rows found owned) (pooled-none rows) (ground (arith, ==_iff s s))
