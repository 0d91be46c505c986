-- ===== src/Giveaway/Frozen.antt =====
-- What the calls of repo/giveaways.py that write the row of a giveaway leave of it.
use xray_vpn_bot.Prelude.{
  ℕ, ◌+◌, ◌≤◌, ◌≡◌, refl, ap, ◌∙◌, inl, inr, true, not, ◌&&◌, some, List, [], ◌∷◌, arith, ◌==◌, any,
  find-append, ltb, length, Bool-cases,
}
use xray_vpn_bot.Db.{Db, Giveaway, GiveawayStatus, draft, active, closed, drawn}
use xray_vpn_bot.Giveaway.Tickets.{Env, is_active}
use xray_vpn_bot.Giveaway.Winners.{Random, Picked, pick_winners, ticket_inventory}
use xray_vpn_bot.Giveaway.Lifecycle.{
  NewGiveaway, GiveawayPatch, create_giveaway, new_giveaway, update_giveaway, activate_giveaway,
  close_giveaway, is_draft, edits_content, edited, rescheduled,
}
use xray_vpn_bot.Giveaway.Draw.{
  draw_winners, redraw_winners, store_winners, store_each, mark_drawn, may_draw, is_drawn,
  closed_for_draw, close_for_draw, remove_winners, add_winner, won_in, previous_winners,
}
use xray_vpn_bot.Giveaway.Life.{
  get_giveaway, Life, creates, updates, activates, closes, draws, redraws, Lives, unchanged, lives,
  stage, IsLater, IsLater-refl, IsLater-trans, Grows, Grows-same, Grows-save, Grows-trans,
  saved_here, moved-IsLater,
}

draft_of : (s : GiveawayStatus) → is_draft s ≡ true → s ≡ draft
draft_of draft e = refl
draft_of active e = absurd (ground arith)
draft_of closed e = absurd (ground arith)
draft_of drawn e = absurd (ground arith)

edited-IsLater :
    (env : Env) (patch : GiveawayPatch) (g : Giveaway)
    → IsLater g (rescheduled patch (edited env patch g))
edited-IsLater env patch g = elim (Bool-cases (is_draft g.status)) [
  | inl e ↦ rw e (record {
    same_id = refl;
    created_at = refl;
    created_by = refl;
    onward = omega arith;
    content = inl (draft_of g.status e);
  })
  | inr e ↦ rw e (record {
    same_id = refl;
    created_at = refl;
    created_by = refl;
    onward = omega arith;
    content =
        inr (record { title = refl; channel_text = refl; config_json = refl; winner_count = refl });
  })
]

update-Grows :
    (env : Env) (patch : GiveawayPatch) (k : ℕ) (g : Giveaway) (db : Db)
    → get_giveaway k db ≡ some g
    → Grows db (update_giveaway env patch g db).1
unfolding update_giveaway
update-Grows env patch k g db here =
    elim (Bool-cases (not (is_draft g.status) && not (is_active g.status))) [
      | inl e ↦ rw (e, update_giveaway) (Grows-same db db refl)
      | inr e ↦ elim (Bool-cases (not (is_draft g.status) && edits_content patch)) [
        | inl f ↦ rw (e, f, update_giveaway) (Grows-same db db refl)
        | inr f ↦
            rw (e, f, update_giveaway)
              (Grows-save k g (rescheduled patch (edited env patch g)) db db here
                (edited-IsLater env patch g) refl)
      ]
    ]

activate-Grows :
    (k : ℕ) (g : Giveaway) (db : Db)
    → get_giveaway k db ≡ some g
    → Grows db (activate_giveaway g db).1
unfolding activate_giveaway
activate-Grows k g db here = elim (Bool-cases (is_draft g.status)) [
  | inl e ↦
      rw (e, activate_giveaway)
        (Grows-save k g (record g { status = active }) db db here
          (moved-IsLater g active g.drawn_at (omega (arith, ap stage (draft_of g.status e)))) refl)
  | inr e ↦ rw (e, activate_giveaway) (Grows-same db db refl)
]

active_stage : (s : GiveawayStatus) → is_active s ≡ true → stage s ≤ 2
active_stage draft e = omega arith
active_stage active e = omega arith
active_stage closed e = omega arith
active_stage drawn e = absurd (ground arith)

close-Grows :
    (k : ℕ) (g : Giveaway) (db : Db) → get_giveaway k db ≡ some g → Grows db (close_giveaway g db).1
unfolding close_giveaway
close-Grows k g db here = elim (Bool-cases (is_active g.status)) [
  | inl e ↦
      rw (e, close_giveaway)
        (Grows-save k g (record g { status = closed }) db db here
          (moved-IsLater g closed g.drawn_at (active_stage g.status e)) refl)
  | inr e ↦ rw (e, close_giveaway) (Grows-same db db refl)
]

store_each-giveaways :
    (giveaway_id : ℕ) (numbers : List (ℕ × ℕ)) (rank : ℕ) (ps : List Picked) (db : Db)
    → (store_each giveaway_id numbers rank ps db).1.giveaways ≡ db.giveaways
unfolding store_each
store_each-giveaways giveaway_id numbers rank [] db = refl
store_each-giveaways giveaway_id numbers rank (p ∷ ps) db =
    store_each-giveaways giveaway_id numbers (rank + 1) ps (add_winner giveaway_id rank p db)

store_winners-Grows :
    (env : Env) (k : ℕ) (g : Giveaway) (picked : List Picked) (numbers : List (ℕ × ℕ))
    (db base : Db)
    → get_giveaway k db ≡ some g
    → base.giveaways ≡ db.giveaways
    → Grows db (store_winners env g picked numbers base).1
unfolding store_winners
store_winners-Grows env k g picked numbers db base here same =
    Grows-save k g (mark_drawn env g) db (store_each g.id numbers 1 picked base).1 here
      (moved-IsLater g drawn (some env.now_iso) (last_stage g.status))
      (store_each-giveaways g.id numbers 1 picked base ∙ same)
  where
    last_stage : (s : GiveawayStatus) → stage s ≤ 3
    last_stage draft = omega arith
    last_stage active = omega arith
    last_stage closed = omega arith
    last_stage drawn = omega arith

close_for_draw-Grows :
    (k : ℕ) (g : Giveaway) (db : Db)
    → get_giveaway k db ≡ some g
    → Grows db (close_for_draw g db)
      × (get_giveaway k (close_for_draw g db) ≡ some (closed_for_draw g))
close_for_draw-Grows k g db here = elim (Bool-cases (is_active g.status)) [
  | inl e ↦ rw e (
    Grows-save k g (record g { status = closed }) db db here
        (moved-IsLater g closed g.drawn_at (active_stage g.status e)) refl,
    saved_here k g (record g { status = closed }) db here refl,
  )
  | inr e ↦ rw e (Grows-same db db refl, here)
]

draw_winners-Grows :
    (env : Env) (rng : Random) (k : ℕ) (g : Giveaway) (db : Db)
    → get_giveaway k db ≡ some g
    → Grows db (draw_winners env rng g db).1
unfolding draw_winners
draw_winners-Grows env rng k g db here =
    let (shut, there) = close_for_draw-Grows k g db here in
    let base = close_for_draw g db in
    let picked = pick_winners env rng (closed_for_draw g) [] base in
    let numbers = (ticket_inventory g.id db).1 in
    elim (Bool-cases (not (may_draw g.status))) [
      | inl e ↦ rw (e, draw_winners) (Grows-same db db refl)
      | inr e ↦ elim (Bool-cases (any (won_in g.id) db.winners.rows)) [
        | inl f ↦ rw (e, draw_winners) (rw f shut)
        | inr f ↦
            rw (e, draw_winners)
              (rw f (
                Grows-trans db base (store_winners env (closed_for_draw g) picked numbers base).1
                  shut
                  (store_winners-Grows env k (closed_for_draw g) picked numbers base base there
                    refl)))
      ]
    ]

redraw_winners-Grows :
    (env : Env) (rng : Random) (k : ℕ) (g : Giveaway) (db : Db)
    → get_giveaway k db ≡ some g
    → Grows db (redraw_winners env rng g db).1
unfolding redraw_winners
redraw_winners-Grows env rng k g db here =
    let picked = pick_winners env rng g (previous_winners g.id db) db in
    elim (Bool-cases (not (is_drawn g.status))) [
      | inl e ↦ rw (e, redraw_winners) (Grows-same db db refl)
      | inr e ↦ elim (Bool-cases (ltb (length picked) g.winner_count)) [
        | inl f ↦ rw (e, redraw_winners) (rw f (Grows-same db db refl))
        | inr f ↦
            rw (e, redraw_winners)
              (rw f (
                store_winners-Grows env k g picked (ticket_inventory g.id db).1 db
                  (remove_winners g.id db) here refl))
      ]
    ]

create-Grows : (env : Env) (new : NewGiveaway) (db : Db) → Grows db (create_giveaway env new db).1
unfolding create_giveaway
create-Grows env new db k g found = (
  g,
  find-append (λ (x : Giveaway). x.id == k) db.giveaways.rows
        (new_giveaway env new db.giveaways.next ∷ [])
      ∙ ground arith,
  IsLater-refl g,
)

Life-Grows : (db db' : Db) → Life db db' → Grows db db'
Life-Grows db _ (creates env new) = create-Grows env new db
Life-Grows db _ (updates env patch k g here) = update-Grows env patch k g db here
Life-Grows db _ (activates k g here) = activate-Grows k g db here
Life-Grows db _ (closes k g here) = close-Grows k g db here
Life-Grows db _ (draws env rng k g here) = draw_winners-Grows env rng k g db here
Life-Grows db _ (redraws env rng k g here) = redraw_winners-Grows env rng k g db here

-- However often giveaways are created, edited, activated, closed, drawn and drawn again, by
-- calls that succeed or raise, a giveaway stays in the table; its status only moves on from
-- draft to active, closed and drawn, the record of its creation stays, and unless it was a draft
-- its title, text, configuration and number of winners are what they were.
pub Lives-IsLater :
    {db db' : Db} (k : ℕ) (g : Giveaway)
    → Lives db db'
    → get_giveaway k db ≡ some g
    → (g' : Giveaway) × (get_giveaway k db' ≡ some g') × IsLater g g'
Lives-IsLater k g unchanged found = (g, found, IsLater-refl g)
Lives-IsLater k g (lives {db} {mid} {db'} one rest) found =
    let (next, there, earlier) = Life-Grows db mid one k g found in
    let (new, here, later) = Lives-IsLater k next rest there in
    (new, here, IsLater-trans g next new earlier later)
