-- ===== src/Giveaway/Frame.antt =====
-- The tables that granting tickets writes: `try_grant_invitee_ticket` of repo/giveaways.py.
use xray_vpn_bot.Prelude.{
  ℕ, ℤ, pos, leb_ℤ, ◌≡◌, refl, ap, ◌∙◌, inl, inr, ◌||◌, not, Option, some, List, [], ◌∷◌, arith,
  Bool-cases,
}
use xray_vpn_bot.Db.{Db, Giveaway, TicketSource}
use xray_vpn_bot.Giveaway.Tickets.{
  Env, grant_ticket, grant_each, try_grant_invitee_ticket, rewards, counted, is_invitee_source,
  list_active_giveaways,
}

abbrev with_tickets : Db → Db → Db
with_tickets db db' = record db { tickets = db'.tickets }

grant_ticket_frame :
    (env : Env) (g : ℕ) (tg : ℤ) (s : TicketSource) (by : Option ℤ) (db : Db)
    → let db' = (grant_ticket env g tg s by db).1 in db' ≡ with_tickets db db'
unfolding grant_ticket
grant_ticket_frame env g tg s by db = ground arith

module _ (env : Env) (referrer invitee : ℤ) (source : TicketSource) where
  grant_each_frame :
      (n : ℕ) (gs : List Giveaway) (db : Db)
      → let db' = (grant_each env referrer invitee source n gs db).1 in db' ≡ with_tickets db db'
  unfolding grant_each
  grant_each_frame n [] db = refl
  grant_each_frame n (g ∷ gs) db =
      let granted = grant_ticket env g.id referrer source (some invitee) db in
      let later = grant_each env referrer invitee source (counted granted.0 n) gs granted.1 in
      elim (Bool-cases (rewards env source referrer db g)) [
        | inl pays ↦ rw pays (
            grant_each_frame (counted granted.0 n) gs granted.1
            ∙ ap (λ d. with_tickets d later.1)
                (grant_ticket_frame env g.id referrer source (some invitee) db))
        | inr skips ↦ rw skips (grant_each_frame n gs db)
      ]

  pub try_grant_frame :
      (db : Db)
      → let db' = (try_grant_invitee_ticket env referrer invitee source db).1 in
        db' ≡ with_tickets db db'
  unfolding try_grant_invitee_ticket
  try_grant_frame db = elim (Bool-cases (leb_ℤ referrer (pos 0) || leb_ℤ invitee (pos 0))) [
    | inl bad ↦ rw bad refl
    | inr good ↦ elim (Bool-cases (not (is_invitee_source source))) [
      | inl wrong ↦ rw (good, wrong) refl
      | inr right ↦ rw (good, right) (grant_each_frame 0 (list_active_giveaways env db) db)
    ]
  ]
