-- ===== src/Wallet/Audit.antt =====
-- The ledger beside the balance: what explains a balance, and the operations of repo/balance.py.
use xray_vpn_bot.Prelude.{
  ℕ, ℤ, pos, ◌+ℤ◌, ◌-ℤ◌, int_laws, leb_ℤ, ltb_ℤ, String, ◌≡◌, refl, Option, some, List, [], ◌∷◌,
  ◌++◌, ◌∙◌, arith, ◌==◌, if◌then◌else◌, inl, inr, Bool-cases, Option-cases,
}
use xray_vpn_bot.Db.{Db, User, CreditLedger}
use xray_vpn_bot.Db.Tables.{by_key-update}
use xray_vpn_bot.Wallet.{balance_of, find_user, post, credit, debit_if_sufficient}

-- The balance that the rows leave user `v` with, from an opening balance.
abbrev pub closing : ℕ → ℤ → List CreditLedger → ℤ
closing v start [] = start
closing v start (r ∷ rs) = closing v (if r.user_id == v then r.balance_after else start) rs

abbrev pub IsChained : ℕ → ℤ → List CreditLedger → Type 0
IsChained v start [] = Unit
IsChained v start (r ∷ rs) =
    (r.user_id ≡ v → r.balance_after ≡ start +ℤ r.amount)
    × IsChained v (if r.user_id == v then r.balance_after else start) rs

pub record IsAudited (v : ℕ) (opening : ℤ) (db : Db) : Type 0 where
  pub chained : IsChained v opening db.ledger.rows
  pub closes : closing v opening db.ledger.rows ≡ balance_of (find_user v db)

closing-append :
    (v : ℕ) (start : ℤ) (rs : List CreditLedger) (r : CreditLedger)
    → closing v start (rs ++ r ∷ [])
      ≡ (if r.user_id == v then r.balance_after else closing v start rs)
closing-append v start [] r = refl
closing-append v start (q ∷ rs) r =
    closing-append v (if q.user_id == v then q.balance_after else start) rs r

IsChained-append :
    (v : ℕ) (start : ℤ) (rs : List CreditLedger) (r : CreditLedger)
    → IsChained v start rs
    → (r.user_id ≡ v → r.balance_after ≡ closing v start rs +ℤ r.amount)
    → IsChained v start (rs ++ r ∷ [])
IsChained-append v start [] r h k = (k, tt)
IsChained-append v start (q ∷ rs) r h k =
    (h.0, IsChained-append v (if q.user_id == v then q.balance_after else start) rs r h.1 k)

module _ (user_id : ℕ) (amount new : ℤ) (source : String) (ref : Option String) (now : String) where
  -- A posting changes one balance, to the new balance.
  pub find_user-post :
      (v : ℕ) (db : Db) (u : User)
      → find_user user_id db ≡ some u
      → balance_of (find_user v (post user_id amount new source ref now db))
        ≡ (if v == user_id then new else balance_of (find_user v db))
  find_user-post v db u found = ground (
    arith,
    by_key-update (λ (x : User). x.id) user_id v (λ (x : User). record x { bonus_credits = new })
        db.users.rows (λ (x : User). refl),
  )

  pub post-IsAudited :
      (v : ℕ) (opening : ℤ) (db : Db) (u : User)
      → find_user user_id db ≡ some u
      → new ≡ u.bonus_credits +ℤ amount
      → IsAudited v opening db
      → IsAudited v opening (post user_id amount new source ref now db)
  post-IsAudited v opening db u found sum h = record {
    chained = IsChained-append v opening db.ledger.rows _ h.chained (λ e. ground (arith, h.closes));
    closes =
        closing-append v opening db.ledger.rows _
        ∙ ground (arith, h.closes, find_user-post v db u found);
  }

-- Neither operation breaks the audit of any user's account, whether it succeeds, refuses or raises.
pub credit-IsAudited :
    (v : ℕ) (opening : ℤ) (user_id : ℕ) (amount : ℤ) (source : String) (ref : Option String)
    (now : String) (db : Db)
    → IsAudited v opening db
    → IsAudited v opening (credit user_id amount source ref now db).1
unfolding credit
credit-IsAudited v o user_id amount source ref now db h = elim (Bool-cases (leb_ℤ amount (pos 0))) [
  | inl bad ↦ rw bad h
  | inr good ↦ elim (Option-cases (find_user user_id db)) [
    | inl missing ↦ rw (good, missing) h
    | inr (u, found) ↦
        rw (good, found) (post-IsAudited user_id amount _ source ref now v o db u found refl h)
  ]
]

pub debit_if_sufficient-IsAudited :
    (v : ℕ) (opening : ℤ) (user_id : ℕ) (amount : ℤ) (source : String) (ref : Option String)
    (now : String) (db : Db)
    → IsAudited v opening db
    → IsAudited v opening (debit_if_sufficient user_id amount source ref now db).1
unfolding debit_if_sufficient
debit_if_sufficient-IsAudited v o user_id amount source ref now db h =
    elim (Bool-cases (leb_ℤ amount (pos 0))) [
      | inl bad ↦ rw bad h
      | inr good ↦ elim (Option-cases (find_user user_id db)) [
        | inl missing ↦ rw (good, missing) h
        | inr (u, found) ↦ elim (Bool-cases (ltb_ℤ u.bonus_credits amount)) [
          | inl short ↦ rw (good, found, short) h
          | inr covered ↦
              rw (good, found, covered)
                (post-IsAudited user_id (pos 0 -ℤ amount) _ source ref now v o db u found
                  (omega int_laws) h)
        ]
      ]
    ]
