-- ===== src/Db/Tables.antt =====
-- A table: its rows in the order of insertion, and the sequence that numbers new rows
-- (`autoincrement=True`).
use xray_vpn_bot.Prelude.{
  ℕ, ◌+◌, ◌<◌, ◌≡◌, refl, Bool, Option, none, some, List, [], ◌∷◌, ◌++◌, arith, All, ◌==◌, find,
  update_where, if◌then◌else◌,
}

pub record Table {ℓ} (A : Type ℓ) : Type ℓ where
  pub rows : List A
  pub next : ℕ

module _ {ℓ} {A : Type ℓ} where
  -- session.add(Row(...)) and flush: the row takes the next number.
  abbrev pub insert : (ℕ → A) → Table A → Table A
  insert row t = record { rows = t.rows ++ row t.next ∷ []; next = t.next + 1 }

  -- UPDATE ... WHERE, and assignments to the attributes of loaded rows.
  abbrev pub update : (A → Bool) → (A → A) → Table A → Table A
  update p f t = record t { rows = update_where p f t.rows }

module _ {ℓ} {A : Type ℓ} (key : A → ℕ) where
  -- Every row's number is below the sequence.
  abbrev pub IsNumbered : Table A → Type 0
  IsNumbered t = All (λ r. key r < t.next) t.rows

  -- The row with a given primary key.
  abbrev pub by_key : ℕ → List A → Option A
  by_key k = find (λ r. key r == k)

  -- An update of the row `k` that keeps its key changes what is found at `k` and nothing else.
  pub by_key-update :
      (k j : ℕ) (f : A → A) (xs : List A)
      → ((r : A) → key (f r) ≡ key r)
      → by_key j (update_where (λ r. key r == k) f xs)
        ≡ elim (by_key j xs) [ none ↦ none | some r ↦ some (if j == k then f r else r) ]
  by_key-update k j f [] keep = refl
  by_key-update k j f (x ∷ xs) keep = ground (arith, keep x, by_key-update k j f xs keep)
