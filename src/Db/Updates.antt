-- ===== src/Db/Updates.antt =====
-- Searches and counts after updates: of rows by a test, and of the one row that has a key.
use xray_vpn_bot.Prelude.{
  ℕ, zero, suc, ◌+◌, ◌≤◌, ◌≡◌, refl, Bool, true, false, ◌&&◌, none, some, List, [], ◌∷◌, ◌++◌,
  arith, ◌==◌, find, any, count, select, update_where, if◌then◌else◌,
}
use xray_vpn_bot.Db.Tables.{by_key}

module _ {ℓ} {A : Type ℓ} (q p : A → Bool) (f : A → A) where
  -- Rows that pass no test before or after do not show.
  pub find-update_unseen :
      (xs : List A)
      → ((x : A) → p x ≡ true → (q x ≡ false) × (q (f x) ≡ false))
      → find q (update_where p f xs) ≡ find q xs
  find-update_unseen [] unseen = refl
  find-update_unseen (x ∷ xs) unseen = ground (arith, unseen x, find-update_unseen xs unseen)

  pub count-update_unseen :
      (xs : List A)
      → ((x : A) → p x ≡ true → (q x ≡ false) × (q (f x) ≡ false))
      → count q (update_where p f xs) ≡ count q xs
  count-update_unseen [] unseen = refl
  count-update_unseen (x ∷ xs) unseen = ground (arith, unseen x, count-update_unseen xs unseen)

  pub select-update_unseen :
      (xs : List A)
      → ((x : A) → p x ≡ true → (q x ≡ false) × (q (f x) ≡ false))
      → select q (update_where p f xs) ≡ select q xs
  select-update_unseen [] unseen = refl
  select-update_unseen (x ∷ xs) unseen = ground (arith, unseen x, select-update_unseen xs unseen)

  pub any-update_same :
      (xs : List A) → ((x : A) → q (f x) ≡ q x) → any q (update_where p f xs) ≡ any q xs
  any-update_same [] same = refl
  any-update_same (x ∷ xs) same = ground (arith, same x, any-update_same xs same)

  pub count-update_same :
      (xs : List A) → ((x : A) → q (f x) ≡ q x) → count q (update_where p f xs) ≡ count q xs
  count-update_same [] same = refl
  count-update_same (x ∷ xs) same = ground (arith, same x, count-update_same xs same)

  pub find-update_same :
      (xs : List A)
      → ((x : A) → q (f x) ≡ q x)
      → find q (update_where p f xs)
        ≡ elim (find q xs) [ none ↦ none | some r ↦ some (if p r then f r else r) ]
  find-update_same [] same = refl
  find-update_same (x ∷ xs) same = ground (arith, same x, find-update_same xs same)

  -- After an update that makes every row fail the test, none passes.
  pub count-update_cleared :
      (xs : List A)
      → ((x : A) → p x ≡ true → q (f x) ≡ false)
      → ((x : A) → p x ≡ false → q x ≡ false)
      → count q (update_where p f xs) ≡ 0
  count-update_cleared [] hit miss = refl
  count-update_cleared (x ∷ xs) hit miss =
      ground (arith, hit x, miss x, count-update_cleared xs hit miss)

module _ {ℓ} {A : Type ℓ} (q p : A → Bool) where
  -- Two tests that one row passes: it is found by the first alone, if that one is unique.
  pub find_both :
      (xs : List A) (r : A)
      → count p xs ≤ 1
      → find (λ x. p x && q x) xs ≡ some r
      → find p xs ≡ some r
  find_both [] r h e = cc
  find_both (x ∷ xs) r h e = ground (arith, find_both xs r, passes xs r)
    where
      passes : (ys : List A) (r : A) → find (λ x. p x && q x) ys ≡ some r → suc zero ≤ count p ys
      passes [] r e = absurd cc
      passes (y ∷ ys) r e = ground (arith, passes ys r)

  pub any_both : (xs : List A) (r : A) → find (λ x. p x && q x) xs ≡ some r → any q xs ≡ true
  any_both [] r e = cc
  any_both (x ∷ xs) r e = ground (arith, any_both xs r)

module _ {ℓ} {A : Type ℓ} (key : A → ℕ) (k : ℕ) where
  abbrev is_key : A → Bool
  is_key x = key x == k

  pub untouched : (f : A → A) (xs : List A) → count is_key xs ≡ 0 → update_where is_key f xs ≡ xs
  untouched f [] h = refl
  untouched f (x ∷ xs) h = ground (arith, untouched f xs)

  -- One row changes: a count changes by what that row counted before and counts now.
  pub count-update_key :
      (q : A → Bool) (f : A → A) (xs : List A) (r : A)
      → by_key key k xs ≡ some r
      → count is_key xs ≤ 1
      → count q (update_where is_key f xs) + (if q r then 1 else 0)
        ≡ count q xs + (if q (f r) then 1 else 0)
  count-update_key q f [] r e h = cc
  count-update_key q f (x ∷ xs) r e h = ground (arith, untouched f xs, count-update_key q f xs r)

  pub find-update_key :
      (q : A → Bool) (f : A → A) (xs : List A) (r : A)
      → by_key key k xs ≡ some r
      → count is_key xs ≤ 1
      → q r ≡ false
      → q (f r) ≡ false
      → find q (update_where is_key f xs) ≡ find q xs
  find-update_key q f [] r e h was is = cc
  find-update_key q f (x ∷ xs) r e h was is =
      ground (arith, untouched f xs, find-update_key q f xs r)

  pub select-update_key :
      (q : A → Bool) (f : A → A) (xs : List A) (r : A)
      → by_key key k xs ≡ some r
      → count is_key xs ≤ 1
      → q r ≡ false
      → q (f r) ≡ false
      → select q (update_where is_key f xs) ≡ select q xs
  select-update_key q f [] r e h was is = cc
  select-update_key q f (x ∷ xs) r e h was is =
      ground (arith, untouched f xs, select-update_key q f xs r)

  -- The changed row is the one that passes.
  pub find-update_found :
      (q : A → Bool) (f : A → A) (xs : List A) (r : A)
      → by_key key k xs ≡ some r
      → count q xs ≡ 0
      → q (f r) ≡ true
      → find q (update_where is_key f xs) ≡ some (f r)
  find-update_found q f [] r e h is = cc
  find-update_found q f (x ∷ xs) r e h is = ground (arith, find-update_found q f xs r)

module _ {ℓ} {A : Type ℓ} (q : A → Bool) where
  pub count-find-none : (xs : List A) → find q xs ≡ none → count q xs ≡ 0
  count-find-none [] e = refl
  count-find-none (x ∷ xs) e = ground (arith, count-find-none xs)

  -- A row that fails the test may be appended, and one that passes is found if no row before it does.
  pub find-append_unseen : (xs : List A) (y : A) → q y ≡ false → find q (xs ++ y ∷ []) ≡ find q xs
  find-append_unseen [] y e = ground arith
  find-append_unseen (x ∷ xs) y e = ground (arith, find-append_unseen xs y e)

  pub find-append_first :
      (xs : List A) (y : A) → count q xs ≡ 0 → q y ≡ true → find q (xs ++ y ∷ []) ≡ some y
  find-append_first [] y h e = ground arith
  find-append_first (x ∷ xs) y h e = ground (arith, find-append_first xs y)

  count_positive :
      (p : A → Bool) (xs : List A) (r : A) → find p xs ≡ some r → q r ≡ true → 1 ≤ count q xs
  count_positive p [] r e is = absurd cc
  count_positive p (x ∷ xs) r e is = ground (arith, count_positive p xs r)

  -- A row that is found passes a test that at most one row passes: that test finds it too.
  pub find_unique :
      (p : A → Bool) (xs : List A) (r : A)
      → find p xs ≡ some r
      → q r ≡ true
      → count q xs ≤ 1
      → find q xs ≡ some r
  find_unique p [] r e is h = cc
  find_unique p (x ∷ xs) r e is h = ground (arith, find_unique p xs r, count_positive p xs r)

  pub any-find :
      (p : A → Bool) (xs : List A) (r : A) → find p xs ≡ some r → q r ≡ true → any q xs ≡ true
  any-find p [] r e is = cc
  any-find p (x ∷ xs) r e is = ground (arith, any-find p xs r)
