-- ===== src/Wallet/Runs.antt =====
-- Sequences of calls of repo/balance.py, by any services in any order: each call locks the
-- user's row (SELECT ... FOR UPDATE), so concurrent calls take effect one after the other.
use xray_vpn_bot.Prelude.{
  ℕ, ℤ, pos, ◌+ℤ◌, ◌-ℤ◌, ◌≤ℤ◌, ◌<ℤ◌, int_laws, leb_ℤ, ltb_ℤ, String, ◌≡◌, ◌⊎◌, refl, true, false,
  Option, some, List, [], ◌∷◌, arith, ◌==◌, if◌then◌else◌, inl, inr, Bool-cases, Option-cases,
}
use xray_vpn_bot.Exec.{ok}
use xray_vpn_bot.Db.{Db, User}
use xray_vpn_bot.Wallet.{balance_of, find_user, post, credit, debit_if_sufficient}
use xray_vpn_bot.Wallet.Audit.{
  IsAudited, find_user-post, credit-IsAudited, debit_if_sufficient-IsAudited,
}

pub data WalletCall : Type 0 where
  credit_call : ℕ → ℤ → String → Option String → String → WalletCall
  debit_call : ℕ → ℤ → String → Option String → String → WalletCall

abbrev pub apply : WalletCall → Db → Db
apply (credit_call user_id amount source ref now) db = (credit user_id amount source ref now db).1
apply (debit_call user_id amount source ref now) db =
    (debit_if_sufficient user_id amount source ref now db).1

abbrev pub run : List WalletCall → Db → Db
run [] db = db
run (c ∷ cs) db = run cs (apply c db)

-- After any sequence of credits and debits the ledger of every user still explains the balance:
-- if each row carried the balance before it plus its amount, and the last row the balance
-- column, then so it is afterwards.
pub run-IsAudited :
    (cs : List WalletCall) (v : ℕ) (opening : ℤ) (db : Db)
    → IsAudited v opening db
    → IsAudited v opening (run cs db)
run-IsAudited [] v o db h = h
run-IsAudited (credit_call u a s r n ∷ cs) v o db h =
    run-IsAudited cs v o (credit u a s r n db).1 (credit-IsAudited v o u a s r n db h)
run-IsAudited (debit_call u a s r n ∷ cs) v o db h =
    run-IsAudited cs v o (debit_if_sufficient u a s r n db).1
      (debit_if_sufficient-IsAudited v o u a s r n db h)

-- A positive debit of a known user succeeds exactly when the balance covers it; then that
-- balance falls by the amount and every other balance stays, and otherwise nothing changes.
pub debit_outcome :
    (user_id v : ℕ) (amount : ℤ) (source : String) (ref : Option String) (now : String) (db : Db)
    (u : User)
    → pos 0 <ℤ amount
    → find_user user_id db ≡ some u
    → let (r, db') = debit_if_sufficient user_id amount source ref now db in
      ((amount ≤ℤ u.bonus_credits)
        × (r ≡ ok true)
        × (balance_of (find_user v db')
            ≡ (if v == user_id then u.bonus_credits -ℤ amount else balance_of (find_user v db))))
      ⊎ ((u.bonus_credits <ℤ amount) × (r ≡ ok false) × (db' ≡ db))
unfolding debit_if_sufficient
debit_outcome user_id v amount source ref now db u positive found =
    elim (Bool-cases (leb_ℤ amount (pos 0))) [
      | inl bad ↦ absurd (ground arith)
      | inr good ↦ elim (Bool-cases (ltb_ℤ u.bonus_credits amount)) [
        | inl short ↦ rw (good, found, short) (inr (ground arith, refl, refl))
        | inr covered ↦
            rw (good, found, covered)
              (inl (
                ground arith,
                refl,
                find_user-post user_id (pos 0 -ℤ amount) (u.bonus_credits -ℤ amount) source ref now
                    v db u found,
              ))
      ]
    ]

-- A positive credit of a known user returns the new balance, which the row then has; every other
-- balance stays.
pub credit_outcome :
    (user_id v : ℕ) (amount : ℤ) (source : String) (ref : Option String) (now : String) (db : Db)
    (u : User)
    → pos 0 <ℤ amount
    → find_user user_id db ≡ some u
    → let (r, db') = credit user_id amount source ref now db in
      (r ≡ ok (u.bonus_credits +ℤ amount))
      × (balance_of (find_user v db')
          ≡ (if v == user_id then u.bonus_credits +ℤ amount else balance_of (find_user v db)))
unfolding credit
credit_outcome user_id v amount source ref now db u positive found =
    elim (Bool-cases (leb_ℤ amount (pos 0))) [
      | inl bad ↦ absurd (ground arith)
      | inr good ↦
          rw (good, found)
            (
              refl,
              find_user-post user_id amount (u.bonus_credits +ℤ amount) source ref now v db u found,
            )
    ]

abbrev pub IsSolvent : Db → Type 0
IsSolvent db = (v : ℕ) → pos 0 ≤ℤ balance_of (find_user v db)

post-IsSolvent :
    (user_id : ℕ) (amount new : ℤ) (source : String) (ref : Option String) (now : String) (db : Db)
    (u : User)
    → find_user user_id db ≡ some u
    → pos 0 ≤ℤ new
    → IsSolvent db
    → IsSolvent (post user_id amount new source ref now db)
post-IsSolvent user_id amount new source ref now db u found nonneg h v =
    ground (arith, h v, find_user-post user_id amount new source ref now v db u found)

pub credit-IsSolvent :
    (user_id : ℕ) (amount : ℤ) (source : String) (ref : Option String) (now : String) (db : Db)
    → IsSolvent db
    → IsSolvent (credit user_id amount source ref now db).1
unfolding credit
credit-IsSolvent user_id amount source ref now db h = elim (Bool-cases (leb_ℤ amount (pos 0))) [
  | inl bad ↦ rw bad h
  | inr good ↦ elim (Option-cases (find_user user_id db)) [
    | inl missing ↦ rw (good, missing) h
    | inr (u, found) ↦
        let had : pos 0 ≤ℤ u.bonus_credits = ground (arith, h user_id) in
        let adds : pos 0 ≤ℤ amount = ground arith in
        rw (good, found)
          (post-IsSolvent user_id amount (u.bonus_credits +ℤ amount) source ref now db u found
            (omega int_laws) h)
  ]
]

pub debit_if_sufficient-IsSolvent :
    (user_id : ℕ) (amount : ℤ) (source : String) (ref : Option String) (now : String) (db : Db)
    → IsSolvent db
    → IsSolvent (debit_if_sufficient user_id amount source ref now db).1
unfolding debit_if_sufficient
debit_if_sufficient-IsSolvent user_id amount source ref now db h =
    elim (Bool-cases (leb_ℤ amount (pos 0))) [
      | inl bad ↦ rw bad h
      | inr good ↦ elim (Option-cases (find_user user_id db)) [
        | inl missing ↦ rw (good, missing) h
        | inr (u, found) ↦ elim (Bool-cases (ltb_ℤ u.bonus_credits amount)) [
          | inl short ↦ rw (good, found, short) h
          | inr covered ↦
              let covers : amount ≤ℤ u.bonus_credits = ground arith in
              rw (good, found, covered)
                (post-IsSolvent user_id (pos 0 -ℤ amount) (u.bonus_credits -ℤ amount) source ref now
                  db u found (omega int_laws) h)
        ]
      ]
    ]

-- No sequence of credits and debits overdraws a balance: if none is negative before, none is
-- afterwards.
pub run-IsSolvent :
    (cs : List WalletCall) (v : ℕ) (db : Db)
    → IsSolvent db
    → pos 0 ≤ℤ balance_of (find_user v (run cs db))
run-IsSolvent [] v db h = h v
run-IsSolvent (credit_call u a s r n ∷ cs) v db h =
    run-IsSolvent cs v (credit u a s r n db).1 (credit-IsSolvent u a s r n db h)
run-IsSolvent (debit_call u a s r n ∷ cs) v db h =
    run-IsSolvent cs v (debit_if_sufficient u a s r n db).1
      (debit_if_sufficient-IsSolvent u a s r n db h)
