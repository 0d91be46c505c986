-- ===== src/Giveaway/DrawOnce.antt =====
-- `draw_winners` and `redraw_winners` of repo/giveaways.py: how often somebody wins.
use mathlib.Core.Path.{subst}
use xray_vpn_bot.Prelude.{
  ℕ, ◌+◌, ◌≤◌, ℤ, eqb_ℤ, ◌≡◌, ◌⊎◌, refl, sym, ◌∙◌, ap, inl, inr, Bool, true, false, ◌&&◌, not, List,
  [], ◌∷◌, arith, ltb, length, ◌==◌, ==_iff, any, select, count, count-append, if◌then◌else◌,
  Bool-cases,
}
use xray_vpn_bot.Db.{Db, Giveaway, GiveawayWinner, GiveawayTicket}
use xray_vpn_bot.Giveaway.Tickets.{Env, config_of}
use xray_vpn_bot.Giveaway.Winners.{
  Random, Picked, pick_winners, ticket_inventory, entries_of, choose,
}
use xray_vpn_bot.Giveaway.Chosen.{
  IsSampling, picked_is, entry_is, count-choose, count-with_ticket, entries_of-excluded,
  entries_once,
}
use xray_vpn_bot.Giveaway.Draw.{
  store_each, store_winners, draw_winners, redraw_winners, add_winner, winner_row, won_in, may_draw,
  close_for_draw, closed_for_draw, previous_winners, remove_winners, winner_tgs, is_drawn,
}

abbrev pub won_by : ℕ → ℤ → GiveawayWinner → Bool
won_by giveaway_id tg w = w.giveaway_id == giveaway_id && eqb_ℤ w.tg_id tg

-- Nobody wins one giveaway twice.
abbrev pub IsWonOnce : Db → Type 0
IsWonOnce db = (g : ℕ) (tg : ℤ) → count (won_by g tg) db.winners.rows ≤ 1

module _ (env : Env) (rng : Random) (g : Giveaway) (excluded : List ℤ) (db : Db)
    (fair : IsSampling rng) where
  picked_within :
      (tg : ℤ)
      → count (picked_is tg) (pick_winners env rng g excluded db)
        ≤ count (entry_is tg) (entries_of excluded (ticket_inventory g.id db).0)
  unfolding pick_winners
  picked_within tg =
      let held = (ticket_inventory g.id db).0 in
      let selection = (config_of env g).winner_selection in
      omega (
        arith,
        count-with_ticket rng selection held tg
            (choose rng selection (entries_of excluded held) g.winner_count),
        count-choose (entry_is tg) rng selection (entries_of excluded held) g.winner_count fair,
      )

  picked_once : (tg : ℤ) → count (picked_is tg) (pick_winners env rng g excluded db) ≤ 1
  unfolding ticket_inventory
  picked_once tg = omega (
    arith,
    picked_within tg,
    entries_once excluded tg
        (select (λ (t : GiveawayTicket). t.giveaway_id == g.id) db.tickets.rows),
  )

  picked_fresh :
      (tg : ℤ)
      → any (λ x. eqb_ℤ x tg) excluded ≡ true
      → count (picked_is tg) (pick_winners env rng g excluded db) ≡ 0
  picked_fresh tg out =
      omega
        (arith, picked_within tg, entries_of-excluded excluded tg (ticket_inventory g.id db).0 out)

store_each-count :
    (g g' : ℕ) (numbers : List (ℕ × ℕ)) (rank : ℕ) (tg : ℤ) (ps : List Picked) (db : Db)
    → count (won_by g' tg) (store_each g numbers rank ps db).1.winners.rows
      ≡ count (won_by g' tg) db.winners.rows + (if g == g' then count (picked_is tg) ps else 0)
unfolding store_each
store_each-count g g' numbers rank tg [] db = ground arith
store_each-count g g' numbers rank tg (p ∷ ps) db =
    let row = winner_row g rank p db.winners.next in
    store_each-count g g' numbers (rank + 1) tg ps (add_winner g rank p db)
    ∙ ground (arith, count-append (won_by g' tg) db.winners.rows (row ∷ []))

store_winners-count :
    (env : Env) (g : Giveaway) (ps : List Picked) (numbers : List (ℕ × ℕ)) (db : Db) (g' : ℕ)
    (tg : ℤ)
    → count (won_by g' tg) (store_winners env g ps numbers db).1.winners.rows
      ≡ count (won_by g' tg) db.winners.rows + (if g.id == g' then count (picked_is tg) ps else 0)
unfolding store_winners
store_winners-count env g ps numbers db g' tg = store_each-count g.id g' numbers 1 tg ps db

-- Storing winners that are picked once, for a giveaway that has none.
store_winners-IsWonOnce :
    (env : Env) (g : Giveaway) (ps : List Picked) (numbers : List (ℕ × ℕ)) (db : Db)
    → ((tg : ℤ) → count (picked_is tg) ps ≤ 1)
    → ((tg : ℤ) → count (won_by g.id tg) db.winners.rows ≡ 0)
    → IsWonOnce db
    → IsWonOnce (store_winners env g ps numbers db).1
store_winners-IsWonOnce env g ps numbers db once empty h g' tg = elim (Bool-cases (g.id == g')) [
  | inr other ↦ ground (arith, store_winners-count env g ps numbers db g' tg, h g' tg)
  | inl same ↦
      let e = (==_iff g.id g').0 same in
      let empty' : count (won_by g' tg) db.winners.rows ≡ 0 = rw (← e) (empty tg) in
      ground (arith, store_winners-count env g ps numbers db g' tg, once tg)
]

no_winner :
    (g : ℕ) (tg : ℤ) (ws : List GiveawayWinner)
    → any (won_in g) ws ≡ false
    → count (won_by g tg) ws ≡ 0
no_winner g tg [] h = refl
no_winner g tg (w ∷ ws) h = ground (arith, no_winner g tg ws)

removed-count :
    (g g' : ℕ) (tg : ℤ) (ws : List GiveawayWinner)
    → count (won_by g' tg) (select (λ w. not (won_in g w)) ws)
      ≡ (if g == g' then 0 else count (won_by g' tg) ws)
removed-count g g' tg [] = ground arith
removed-count g g' tg (w ∷ ws) = ground (arith, removed-count g g' tg ws)

close_for_draw-winners : (g : Giveaway) (db : Db) → (close_for_draw g db).winners ≡ db.winners
close_for_draw-winners g db = ground arith

closed_for_draw-id : (g : Giveaway) → (closed_for_draw g).id ≡ g.id
closed_for_draw-id g = ground arith

-- A draw keeps it true that nobody wins one giveaway twice, if the sampling of the random module
-- takes nobody twice.
pub draw_winners-IsWonOnce :
    (env : Env) (rng : Random) (g : Giveaway) (db : Db)
    → IsSampling rng
    → IsWonOnce db
    → IsWonOnce (draw_winners env rng g db).1
unfolding draw_winners
draw_winners-IsWonOnce env rng g db fair h =
    let at_draw = close_for_draw g db in
    let kept : IsWonOnce at_draw = λ g' tg.
      subst (λ t. count (won_by g' tg) t.rows ≤ 1) (sym (close_for_draw-winners g db)) (h g' tg) in
    elim (Bool-cases (may_draw g.status)) [
      | inr refused ↦ rw (refused, draw_winners) h
      | inl allowed ↦ elim (Bool-cases (any (won_in g.id) db.winners.rows)) [
        | inl before ↦ rw (allowed, draw_winners) (rw before kept)
        | inr first ↦
            let empty : (tg : ℤ)
                → count (won_by (closed_for_draw g).id tg) at_draw.winners.rows ≡ 0 =
              λ tg.
                ap (λ n. count (won_by n tg) at_draw.winners.rows) (closed_for_draw-id g)
                ∙ ap (λ t. count (won_by g.id tg) t.rows) (close_for_draw-winners g db)
                ∙ no_winner g.id tg db.winners.rows first in
            rw (allowed, draw_winners)
              (rw first (
                store_winners-IsWonOnce env (closed_for_draw g)
                  (pick_winners env rng (closed_for_draw g) [] at_draw) (ticket_inventory g.id db).1
                  at_draw (picked_once env rng (closed_for_draw g) [] at_draw fair) empty kept))
      ]
    ]

any-winner_tgs :
    (g : ℕ) (tg : ℤ) (ws : List GiveawayWinner)
    → 1 ≤ count (won_by g tg) ws
    → any (λ x. eqb_ℤ x tg) (winner_tgs (select (won_in g) ws)) ≡ true
any-winner_tgs g tg [] h = absurd (omega arith)
any-winner_tgs g tg (w ∷ ws) h = ground (arith, any-winner_tgs g tg ws)

-- A redraw keeps it true that nobody is twice among the winners of one giveaway; and it changes
-- nothing, or nobody who is among its current winners is among the new ones. Winners of a draw
-- before the current one may win again. It needs a random module whose sampling takes nobody
-- twice.
pub redraw_winners-IsWonOnce :
    (env : Env) (rng : Random) (g : Giveaway) (db : Db)
    → IsSampling rng
    → IsWonOnce db
    → let (r, db') = redraw_winners env rng g db in
      IsWonOnce db'
      × ((db' ≡ db)
          ⊎ ((tg : ℤ)
              → 1 ≤ count (won_by g.id tg) db.winners.rows
              → count (won_by g.id tg) db'.winners.rows ≡ 0))
unfolding redraw_winners
redraw_winners-IsWonOnce env rng g db fair h =
    let former = previous_winners g.id db in
    let picked = pick_winners env rng g former db in
    let cleared = remove_winners g.id db in
    let kept : IsWonOnce cleared =
      λ g' tg. ground (arith, removed-count g.id g' tg db.winners.rows, h g' tg) in
    let empty : (tg : ℤ) → count (won_by g.id tg) cleared.winners.rows ≡ 0 =
      λ tg. ground (arith, removed-count g.id g.id tg db.winners.rows, ==_iff g.id g.id) in
    elim (Bool-cases (is_drawn g.status)) [
      | inr refused ↦ rw (refused, redraw_winners) (h, inl refl)
      | inl allowed ↦ elim (Bool-cases (ltb (length picked) g.winner_count)) [
        | inl few ↦ rw (allowed, redraw_winners) (rw few (h, inl refl))
        | inr enough ↦
            rw (allowed, redraw_winners)
              (rw enough (
                store_winners-IsWonOnce env g picked (ticket_inventory g.id db).1 cleared
                    (picked_once env rng g former db fair) empty kept,
                inr (λ tg had. ground (
                  arith,
                  store_winners-count env g picked (ticket_inventory g.id db).1 cleared g.id tg,
                  empty tg,
                  picked_fresh env rng g former db fair tg
                      (any-winner_tgs g.id tg db.winners.rows had),
                )),
              ))
      ]
    ]
