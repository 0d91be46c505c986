-- ===== src/Db/Sums.antt =====
-- Sums over the rows of a table, after an update or the deletion of the row that has a key.
use xray_vpn_bot.Prelude.{
  ℕ, ◌≤◌, ℤ, pos, ◌+ℤ◌, int_laws, parts_of_eq, ◌≡◌, refl, ap, Bool, not, none, some, List, [], ◌∷◌,
  ◌++◌, arith, ◌==◌, ==_iff, count, select, update_where, if◌then◌else◌, inl, inr, Bool-cases,
}
use xray_vpn_bot.Db.Tables.{by_key}
use xray_vpn_bot.Db.Updates.{untouched}

module _ {ℓ} {A : Type ℓ} (m : A → ℤ) where
  abbrev pub sum_of : List A → ℤ
  sum_of [] = pos 0
  sum_of (x ∷ xs) = m x +ℤ sum_of xs

  pub sum_of-append : (xs : List A) (y : A) → sum_of (xs ++ y ∷ []) ≡ sum_of xs +ℤ m y
  sum_of-append [] y = omega int_laws
  sum_of-append (x ∷ xs) y = let later = sum_of-append xs y in rw later (omega int_laws)

  pub sum_of-update_same :
      (p : A → Bool) (f : A → A) (xs : List A)
      → ((x : A) → m (f x) ≡ m x)
      → sum_of (update_where p f xs) ≡ sum_of xs
  sum_of-update_same p f [] same = refl
  sum_of-update_same p f (x ∷ xs) same = elim (Bool-cases (p x)) [
    | inl hit ↦ rw hit (rw (same x) (ap (λ s. m x +ℤ s) (sum_of-update_same p f xs same)))
    | inr miss ↦ rw miss (ap (λ s. m x +ℤ s) (sum_of-update_same p f xs same))
  ]

module _ {ℓ} {A : Type ℓ} (m : A → ℤ) (key : A → ℕ) (k : ℕ) where
  -- One row changes: a sum changes by what that row gave before and gives now.
  pub sum_of-update_key :
      (f : A → A) (xs : List A) (r : A)
      → by_key key k xs ≡ some r
      → count (λ x. key x == k) xs ≤ 1
      → sum_of m (update_where (λ x. key x == k) f xs) +ℤ m r ≡ sum_of m xs +ℤ m (f r)
  sum_of-update_key f [] r e h = cc
  sum_of-update_key f (x ∷ xs) r e h = elim (Bool-cases (key x == k)) [
    | inl hit ↦
        let same : x ≡ r = ground arith in
        let rest : update_where (λ y. key y == k) f xs ≡ xs = untouched key k f xs (ground arith) in
        rw (hit, rest) (rw (← same) (omega int_laws))
    | inr miss ↦
        let later = sum_of-update_key f xs r (ground arith) (ground arith) in
        rw miss (omega (int_laws, parts_of_eq _ _ later))
  ]

  kept_all : (xs : List A) → count (λ x. key x == k) xs ≡ 0 → select (λ x. not (key x == k)) xs ≡ xs
  kept_all [] h = refl
  kept_all (x ∷ xs) h = ground (arith, kept_all xs)

  -- One row goes.
  pub sum_of-delete_key :
      (xs : List A) (r : A)
      → by_key key k xs ≡ some r
      → count (λ x. key x == k) xs ≤ 1
      → sum_of m (select (λ x. not (key x == k)) xs) +ℤ m r ≡ sum_of m xs
  sum_of-delete_key [] r e h = cc
  sum_of-delete_key (x ∷ xs) r e h = elim (Bool-cases (key x == k)) [
    | inl hit ↦
        let same : x ≡ r = ground arith in
        let rest = kept_all xs (ground arith) in rw (hit, rest) (rw (← same) (omega int_laws))
    | inr miss ↦
        let later = sum_of-delete_key xs r (ground arith) (ground arith) in
        rw miss (omega (int_laws, parts_of_eq _ _ later))
  ]

module _ {ℓ} {A : Type ℓ} (key : A → ℕ) where
  pub by_key-delete :
      (k v : ℕ) (xs : List A)
      → by_key key v (select (λ x. not (key x == k)) xs)
        ≡ (if v == k then none else by_key key v xs)
  by_key-delete k v [] = ground arith
  by_key-delete k v (x ∷ xs) =
      ground (arith, by_key-delete k v xs, ==_iff (key x) k, ==_iff (key x) v)

  -- A row is replaced by one with the same key.
  pub by_key-replace :
      (u : A) (v : ℕ) (xs : List A)
      → by_key key v (update_where (λ x. key x == key u) (λ x. u) xs)
        ≡ elim (by_key key v xs) [ none ↦ none | some r ↦ some (if v == key u then u else r) ]
  by_key-replace u v [] = refl
  by_key-replace u v (x ∷ xs) =
      ground
        (arith, by_key-replace u v xs, ==_iff (key x) v, ==_iff (key u) v, ==_iff (key x) (key u))

  pub count-replace :
      (u : A) (v : ℕ) (xs : List A)
      → count (λ x. key x == v) (update_where (λ x. key x == key u) (λ x. u) xs)
        ≡ count (λ x. key x == v) xs
  count-replace u v [] = refl
  count-replace u v (x ∷ xs) = ground (arith, count-replace u v xs, ==_iff (key x) (key u))

  pub count-delete : (p q : A → Bool) (xs : List A) → count q (select p xs) ≤ count q xs
  count-delete p q [] = omega arith
  count-delete p q (x ∷ xs) = ground (arith, count-delete p q xs)
