-- ===== src/Exec.antt =====
-- A call of the program: it reads and writes a state and may raise. What was written before a raise
-- stays written in the session, so the state comes back beside the error too; rolling back is the
-- caller's choice, as in the source ("Caller owns commit").
use xray_vpn_bot.Prelude.{ℕ, String, Bool, ◌≡◌, refl, ◌⊎◌, inl, inr, if◌then◌else◌}

pub data Error : Type 0 where
  value_error : String → Error  -- ValueError with its message
  integrity_error : Error  -- IntegrityError of a constraint of the database
  rows_not_found : ℕ → ℕ → Error  -- RuntimeError: one of two accounts is missing
  same_row : ℕ → Error  -- RuntimeError: an account is merged with itself
  lookup_not_found : Error  -- LookupNotFound of account_linking/merge.py
  panel_error : Bool → Error  -- RemnawaveOperationError, and whether it can be retried
  no_more_draws : Error  -- the given random draws are used up: the loop is still running

pub data Result {ℓ} (A : Type ℓ) : Type ℓ where
  ok : A → Result A
  err : Error → Result A

pub Result-cases {ℓ} :
    {A : Type ℓ} (r : Result A) → ((e : Error) × (r ≡ err e)) ⊎ ((a : A) × (r ≡ ok a))
Result-cases (ok a) = inr (a, refl)
Result-cases (err e) = inl (e, refl)

abbrev pub Exec {ℓ} : Type ℓ → Type ℓ → Type ℓ
Exec S A = S → Result A × S

module _ {ℓ} {S A : Type ℓ} where
  abbrev pub pure : A → Exec S A
  pure a s = (ok a, s)

  abbrev pub raise : Error → Exec S A
  raise e s = (err e, s)

  abbrev pub gets : (S → A) → Exec S A
  gets f s = (ok (f s), s)

abbrev pub raise_if {ℓ} : {S : Type ℓ} → Bool → Error → S → Result (Unit {ℓ}) × S
raise_if c e s = (if c then err e else ok tt, s)

abbrev pub modify {ℓ} : {S : Type ℓ} → (S → S) → S → Result (Unit {ℓ}) × S
modify f s = (ok tt, f s)

module _ {ℓ} {S A B : Type ℓ} where
  infixl 5 ◌>>=◌ ◌>>◌
  abbrev pub ◌>>=◌ : Exec S A → (A → Exec S B) → Exec S B
  ◌>>=◌ m f s = let (r, s') = m s in elim r [ ok a ↦ f a s' | err e ↦ (err e, s') ]

  abbrev pub ◌>>◌ : Exec S A → Exec S B → Exec S B
  m >> k = m >>= λ _. k

-- A chain ends in `Q`, if `m` ends in `P`, every continuation leads from `P` to `Q`, and `P` gives
-- `Q` where `m` raised.
module _ {ℓ κ} {S A B : Type ℓ} (P Q : S → Type κ) where
  continue_post :
      (r : Result A) (s : S) (k : A → Exec S B)
      → P s
      → ((a : A) (t : S) → P t → Q (k a t).1)
      → ((t : S) → P t → Q t)
      → Q (((λ (_ : S). (r, s)) >>= k) s).1
  continue_post (ok a) s k h hk he = hk a s h
  continue_post (err e) s k h hk he = he s h

  pub bind_post :
      (m : Exec S A) (k : A → Exec S B) (s : S)
      → P (m s).1
      → ((a : A) (t : S) → P t → Q (k a t).1)
      → ((t : S) → P t → Q t)
      → Q ((m >>= k) s).1
  bind_post m k s h hk he = continue_post (m s).0 (m s).1 k h hk he
