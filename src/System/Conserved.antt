-- ===== src/System/Conserved.antt =====
-- The balances in sum against the ledger in sum, under the operations of System and the merges of
-- accounts.
use mathlib.Core.Path.{subst}
use xray_vpn_bot.Prelude.{
  ℕ, ◌≤◌, ℤ, pos, ◌+ℤ◌, ◌-ℤ◌, int_laws, parts_of_eq, leb_ℤ, ltb_ℤ, String, ◌≡◌, refl, sym, Option,
  some, count, inl, inr, Bool-cases, Option-cases,
}
use xray_vpn_bot.Db.{Db, User, CreditLedger}
use xray_vpn_bot.Db.Updates.{count-update_same}
use xray_vpn_bot.Db.Sums.{sum_of, sum_of-append, sum_of-update_key}
use xray_vpn_bot.Wallet.{find_user, post, credit, debit_if_sufficient}
use xray_vpn_bot.Giveaway.Frame.{try_grant_frame}
use xray_vpn_bot.System.Money.{KeepsAll}
use xray_vpn_bot.Merge.Users.{id_of, has_user_id, credits_of}

abbrev pub amount_of : CreditLedger → ℤ
amount_of r = r.amount

-- Every user stands in one row, and the balances are the opening sum and what the ledger moved.
pub record IsConserved (opening : ℤ) (db : Db) : Type 0 where
  pub users_once : (k : ℕ) → count (has_user_id k) db.users.rows ≤ 1
  pub conserved : sum_of credits_of db.users.rows ≡ opening +ℤ sum_of amount_of db.ledger.rows

module _ (opening : ℤ) where
  post-IsConserved :
      (user_id : ℕ) (amount new : ℤ) (source : String) (ref : Option String) (now : String)
      (db : Db) (u : User)
      → find_user user_id db ≡ some u
      → new ≡ u.bonus_credits +ℤ amount
      → IsConserved opening db
      → IsConserved opening (post user_id amount new source ref now db)
  post-IsConserved user_id amount new source ref now db u found adds h =
      let set : User → User = λ x. record x { bonus_credits = new } in
      let moved =
        sum_of-update_key credits_of id_of user_id set db.users.rows u found
          (h.users_once user_id) in
      let entered = sum_of-append amount_of db.ledger.rows (record {
        id = db.ledger.next;
        user_id = user_id;
        amount = amount;
        source = source;
        reference = ref;
        balance_after = new;
        created_at = now;
      }) in
      record {
        users_once = λ k.
            rw
              (count-update_same (has_user_id k) (has_user_id user_id) set db.users.rows
                (λ x. refl))
              (h.users_once k);
        conserved = omega (
          int_laws,
          parts_of_eq _ _ moved,
          parts_of_eq _ _ entered,
          parts_of_eq _ _ adds,
          parts_of_eq _ _ h.conserved,
        );
      }

  credit-IsConserved :
      (user_id : ℕ) (amount : ℤ) (source : String) (ref : Option String) (now : String) (db : Db)
      → IsConserved opening db
      → IsConserved opening (credit user_id amount source ref now db).1
  unfolding credit
  credit-IsConserved user_id amount source ref now db h = elim (Bool-cases (leb_ℤ amount (pos 0))) [
    | inl bad ↦ rw bad h
    | inr good ↦ elim (Option-cases (find_user user_id db)) [
      | inl missing ↦ rw (good, missing) h
      | inr (u, found) ↦
          rw (good, found) (post-IsConserved user_id amount _ source ref now db u found refl h)
    ]
  ]

  debit-IsConserved :
      (user_id : ℕ) (amount : ℤ) (source : String) (ref : Option String) (now : String) (db : Db)
      → IsConserved opening db
      → IsConserved opening (debit_if_sufficient user_id amount source ref now db).1
  unfolding debit_if_sufficient
  debit-IsConserved user_id amount source ref now db h = elim (Bool-cases (leb_ℤ amount (pos 0))) [
    | inl bad ↦ rw bad h
    | inr good ↦ elim (Option-cases (find_user user_id db)) [
      | inl missing ↦ rw (good, missing) h
      | inr (u, found) ↦ elim (Bool-cases (ltb_ℤ u.bonus_credits amount)) [
        | inl short ↦ rw (good, found, short) h
        | inr covered ↦
            rw (good, found, covered)
              (post-IsConserved user_id (pos 0 -ℤ amount) _ source ref now db u found
                (omega int_laws) h)
      ]
    ]
  ]

  pub IsConserved-all : KeepsAll (IsConserved opening)
  IsConserved-all = record {
    writes = record {
      settings = λ db s h. record { users_once = h.users_once; conserved = h.conserved };
      promos = λ db ps h. record { users_once = h.users_once; conserved = h.conserved };
      redemptions = λ db rs h. record { users_once = h.users_once; conserved = h.conserved };
      grant = λ user_id amount source ref now db h.
          credit-IsConserved user_id amount source ref now db h;
      ticket = λ env a b s db h.
          subst (IsConserved opening) (sym (try_grant_frame env a b s db))
            (record { users_once = h.users_once; conserved = h.conserved });
    };
    transactions = λ db ts h. record { users_once = h.users_once; conserved = h.conserved };
    debit =
        λ user_id amount source ref now db h. debit-IsConserved user_id amount source ref now db h;
  }
