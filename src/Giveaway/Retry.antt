-- ===== src/Giveaway/Retry.antt =====
-- `try_grant_invitee_ticket` of repo/giveaways.py, called again for the same action (a repeated
-- webhook, a second purchase).
use xray_vpn_bot.Prelude.{
  ℕ, ℤ, pos, leb_ℤ, eqb_ℤ_iff, ◌≡◌, refl, sym, ◌∙◌, inl, inr, Bool, true, false, ◌||◌, not, Option,
  none, some, List, [], ◌∷◌, arith, ==_iff, any, any-append, All, Bool-cases,
}
use mathlib.Core.Path.{subst}
use xray_vpn_bot.Exec.{Result, ok}
use xray_vpn_bot.Db.{Db, Giveaway, TicketSource, join, invitee_ref_activation, invitee_purchase}
use xray_vpn_bot.Giveaway.Tickets.{
  Env, same_grant, source_eq, source_tg_eq, grant_ticket, is_participant, grant_each,
  try_grant_invitee_ticket, rewards, counted, is_invitee_source, list_active_giveaways,
}

abbrev has_grant : ℕ → ℤ → TicketSource → Option ℤ → Db → Bool
has_grant g tg s by db = any (same_grant g tg s by) db.tickets.rows

source_eq_refl : (s : TicketSource) → source_eq s s ≡ true
source_eq_refl join = refl
source_eq_refl invitee_ref_activation = refl
source_eq_refl invitee_purchase = refl

source_tg_eq_refl : (o : Option ℤ) → source_tg_eq o o ≡ true
source_tg_eq_refl none = refl
source_tg_eq_refl (some a) = (eqb_ℤ_iff a a).1 refl

module _ (env : Env) (g : ℕ) (tg : ℤ) (s : TicketSource) (by : Option ℤ) (db : Db) where
  grant_ticket_present :
      has_grant g tg s by db ≡ true → grant_ticket env g tg s by db ≡ (ok false, db)
  unfolding grant_ticket
  grant_ticket_present h = rw h

  grant_ticket_grants : has_grant g tg s by (grant_ticket env g tg s by db).1 ≡ true
  unfolding grant_ticket
  grant_ticket_grants = elim (Bool-cases (has_grant g tg s by db)) [
    | inl old ↦ rw old old
    | inr new ↦ rw new (
        any-append (same_grant g tg s by) db.tickets.rows _
        ∙ ground (arith, eqb_ℤ_iff tg tg, source_eq_refl s, source_tg_eq_refl by, ==_iff g g))
  ]

  grant_ticket_mono :
      (g' : ℕ) (tg' : ℤ) (s' : TicketSource) (by' : Option ℤ)
      → has_grant g' tg' s' by' db ≡ true
      → has_grant g' tg' s' by' (grant_ticket env g tg s by db).1 ≡ true
  unfolding grant_ticket
  grant_ticket_mono g' tg' s' by' h = elim (Bool-cases (has_grant g tg s by db)) [
    | inl old ↦ rw old h
    | inr new ↦ rw new (any-append (same_grant g' tg' s' by') db.tickets.rows _ ∙ rw h)
  ]

  grant_ticket_elsewhere :
      ((grant_ticket env g tg s by db).1.participants ≡ db.participants)
      × ((grant_ticket env g tg s by db).1.giveaways ≡ db.giveaways)
  unfolding grant_ticket
  grant_ticket_elsewhere = ground arith

module _ (env : Env) (referrer invitee : ℤ) (source : TicketSource) where
  rewards_same :
      (d db : Db) (g : Giveaway)
      → db.participants ≡ d.participants
      → rewards env source referrer db g ≡ rewards env source referrer d g
  unfolding is_participant
  rewards_same d db g same = rw same

  grant_each_mono :
      (n : ℕ) (gs : List Giveaway) (db : Db) (g' : ℕ) (tg' : ℤ) (s' : TicketSource) (by' : Option ℤ)
      → has_grant g' tg' s' by' db ≡ true
      → has_grant g' tg' s' by' (grant_each env referrer invitee source n gs db).1 ≡ true
  unfolding grant_each
  grant_each_mono n [] db g' tg' s' by' h = h
  grant_each_mono n (g ∷ gs) db g' tg' s' by' h =
      elim (Bool-cases (rewards env source referrer db g)) [
        | inl pays ↦ rw pays (
            grant_each_mono (counted (grant_ticket env g.id referrer source (some invitee) db).0 n)
              gs (grant_ticket env g.id referrer source (some invitee) db).1 g' tg' s' by'
              (grant_ticket_mono env g.id referrer source (some invitee) db g' tg' s' by' h))
        | inr skips ↦ rw skips (grant_each_mono n gs db g' tg' s' by' h)
      ]

  grant_each_elsewhere :
      (n : ℕ) (gs : List Giveaway) (db : Db)
      → ((grant_each env referrer invitee source n gs db).1.participants ≡ db.participants)
        × ((grant_each env referrer invitee source n gs db).1.giveaways ≡ db.giveaways)
  unfolding grant_each
  grant_each_elsewhere n [] db = (refl, refl)
  grant_each_elsewhere n (g ∷ gs) db = elim (Bool-cases (rewards env source referrer db g)) [
    | inl pays ↦
        let granted = grant_ticket env g.id referrer source (some invitee) db in
        let here = grant_ticket_elsewhere env g.id referrer source (some invitee) db in
        let later = grant_each_elsewhere (counted granted.0 n) gs granted.1 in
        rw pays (later.0 ∙ here.0, later.1 ∙ here.1)
    | inr skips ↦ rw skips (grant_each_elsewhere n gs db)
  ]

  -- The loop leaves a ticket in every giveaway that rewards the action.
  abbrev Served : Db → Db → Giveaway → Type 0
  Served d db g =
      rewards env source referrer d g ≡ true
      → has_grant g.id referrer source (some invitee) db ≡ true

  grant_each_pays :
      (n : ℕ) (g : Giveaway) (gs : List Giveaway) (db : Db)
      → rewards env source referrer db g ≡ true
      → let granted = grant_ticket env g.id referrer source (some invitee) db in
        grant_each env referrer invitee source n (g ∷ gs) db
        ≡ grant_each env referrer invitee source (counted granted.0 n) gs granted.1
  unfolding grant_each
  grant_each_pays n g gs db pays = rw pays

  grant_each_skips :
      (n : ℕ) (g : Giveaway) (gs : List Giveaway) (db : Db)
      → rewards env source referrer db g ≡ false
      → grant_each env referrer invitee source n (g ∷ gs) db
        ≡ grant_each env referrer invitee source n gs db
  unfolding grant_each
  grant_each_skips n g gs db skips = rw skips

  grant_each_serves :
      (d : Db) (n : ℕ) (gs : List Giveaway) (db : Db)
      → db.participants ≡ d.participants
      → All (Served d (grant_each env referrer invitee source n gs db).1) gs
  grant_each_serves d n [] db same = tt
  grant_each_serves d n (g ∷ gs) db same =
      let granted = grant_ticket env g.id referrer source (some invitee) db in
      let kept = (grant_ticket_elsewhere env g.id referrer source (some invitee) db).0 ∙ same in
      elim (Bool-cases (rewards env source referrer db g)) [
        | inl pays ↦
            subst (λ (r : Result ℕ × Db). All (Served d r.1) (g ∷ gs))
              (sym (grant_each_pays n g gs db pays))
              (
                λ _.
                    grant_each_mono (counted granted.0 n) gs granted.1 g.id referrer source
                      (some invitee)
                      (grant_ticket_grants env g.id referrer source (some invitee) db),
                grant_each_serves d (counted granted.0 n) gs granted.1 kept,
              )
        | inr skips ↦
            subst (λ (r : Result ℕ × Db). All (Served d r.1) (g ∷ gs))
              (sym (grant_each_skips n g gs db skips))
              (λ pays. cc (rewards_same d db g same), grant_each_serves d n gs db same)
      ]

  -- Where every rewarding giveaway has its ticket, the loop grants nothing.
  grant_each_again :
      (n : ℕ) (gs : List Giveaway) (db : Db)
      → All (Served db db) gs
      → grant_each env referrer invitee source n gs db ≡ (ok n, db)
  unfolding grant_each
  grant_each_again n [] db h = refl
  grant_each_again n (g ∷ gs) db h = elim (Bool-cases (rewards env source referrer db g)) [
    | inl pays ↦
        rw (pays, grant_ticket_present env g.id referrer source (some invitee) db (h.0 pays))
          (grant_each_again n gs db h.1)
    | inr skips ↦ rw skips (grant_each_again n gs db h.1)
  ]

  Served-again :
      (d db : Db) (gs : List Giveaway)
      → db.participants ≡ d.participants
      → All (Served d db) gs
      → All (Served db db) gs
  Served-again d db [] same h = tt
  Served-again d db (g ∷ gs) same h =
      (λ pays. h.0 (sym (rewards_same d db g same) ∙ pays), Served-again d db gs same h.1)

  -- Reported twice, at one time, an invitee's action brings tickets once: the second report
  -- grants none and changes nothing.
  pub try_grant_again :
      (db : Db)
      → let db' = (try_grant_invitee_ticket env referrer invitee source db).1 in
        try_grant_invitee_ticket env referrer invitee source db' ≡ (ok 0, db')
  unfolding try_grant_invitee_ticket list_active_giveaways
  try_grant_again db = elim (Bool-cases (leb_ℤ referrer (pos 0) || leb_ℤ invitee (pos 0))) [
    | inl bad ↦ rw bad refl
    | inr good ↦ elim (Bool-cases (not (is_invitee_source source))) [
      | inl wrong ↦ rw (good, wrong) refl
      | inr right ↦
          let active = list_active_giveaways env db in
          let after = (grant_each env referrer invitee source 0 active db).1 in
          let elsewhere = grant_each_elsewhere 0 active db in
          rw (good, right)
            (rw elsewhere.1 (
              grant_each_again 0 active after
                (Served-again db after active elsewhere.0 (grant_each_serves db 0 active db refl))))
    ]
  ]
