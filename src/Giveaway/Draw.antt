-- ===== src/Giveaway/Draw.antt =====
-- The draw: `_store_winners`, `draw_winners` and `redraw_winners`. A loaded giveaway is passed in.
use xray_vpn_bot.Prelude.{
  ℕ, ◌+◌, ℤ, String, Bool, true, false, not, Option, none, some, List, [], ◌∷◌, ltb, length, ◌==◌,
  any, select, if◌then◌else◌,
}
use xray_vpn_bot.Exec.{Exec, ok, err, value_error}
use xray_vpn_bot.Db.{Db, User, Giveaway, GiveawayStatus, active, closed, drawn, GiveawayWinner}
use xray_vpn_bot.Db.Tables.{insert}
use xray_vpn_bot.Giveaway.Tickets.{Env, is_active}
use xray_vpn_bot.Giveaway.Lifecycle.{save}
use xray_vpn_bot.Giveaway.Winners.{Random, Picked, pick_winners, ticket_inventory}
use xray_vpn_bot.Promo.Lookup.{get_user_by_tg_id}

-- One element of the list that a draw returns.
pub record WinnerInfo : Type 0 where
  pub rank : ℕ
  pub tg_id : ℤ
  pub username : Option String
  pub tickets : ℕ
  pub ticket_number : Option ℕ

abbrev pub number_of : List (ℕ × ℕ) → Option ℕ → Option ℕ
number_of numbers none = none
number_of [] (some id) = none
number_of ((t, n) ∷ rest) (some id) =
    let later = number_of rest (some id) in if t == id then some n else later

abbrev pub username_of : Option User → Option String
username_of none = none
username_of (some u) = u.username

abbrev pub winner_info : List (ℕ × ℕ) → ℕ → Picked → Db → WinnerInfo
winner_info numbers rank p db = record {
  rank = rank;
  tg_id = p.tg_id;
  username = username_of (get_user_by_tg_id p.tg_id db);
  tickets = p.tickets;
  ticket_number = number_of numbers p.winning_ticket_id;
}

abbrev pub winner_row : ℕ → ℕ → Picked → ℕ → GiveawayWinner
winner_row giveaway_id rank p id = record {
  id = id;
  giveaway_id = giveaway_id;
  tg_id = p.tg_id;
  rank = rank;
  tickets = p.tickets;
  winning_ticket_id = p.winning_ticket_id;
}

abbrev pub add_winner : ℕ → ℕ → Picked → Db → Db
add_winner giveaway_id rank p db = record db {
  winners = insert (winner_row giveaway_id rank p) db.winners;
}

-- The loop over the picked, from a rank on.
unfoldable pub store_each : ℕ → List (ℕ × ℕ) → ℕ → List Picked → Db → List WinnerInfo × Db
store_each giveaway_id numbers rank [] db = ([], db)
store_each giveaway_id numbers rank (p ∷ ps) db =
    let (infos, db') =
      store_each giveaway_id numbers (rank + 1) ps (add_winner giveaway_id rank p db) in
    (winner_info numbers rank p db ∷ infos, db')

abbrev pub mark_drawn : Env → Giveaway → Giveaway
mark_drawn env g = record g { status = drawn; drawn_at = some env.now_iso }

unfoldable pub store_winners :
    Env → Giveaway → List Picked → List (ℕ × ℕ) → Exec Db (List WinnerInfo)
unfolding store_each
store_winners env g picked numbers db =
    let (infos, db') = store_each g.id numbers 1 picked db in
    (ok infos, save (mark_drawn env g) db')

abbrev pub may_draw : GiveawayStatus → Bool
may_draw active = true
may_draw closed = true
may_draw _ = false

abbrev pub is_drawn : GiveawayStatus → Bool
is_drawn drawn = true
is_drawn _ = false

abbrev pub won_in : ℕ → GiveawayWinner → Bool
won_in giveaway_id w = w.giveaway_id == giveaway_id

-- An active giveaway is closed first.
abbrev pub closed_for_draw : Giveaway → Giveaway
closed_for_draw g = if is_active g.status then record g { status = closed } else g

abbrev pub close_for_draw : Giveaway → Db → Db
close_for_draw g db = if is_active g.status then save (record g { status = closed }) db else db

unfoldable pub draw_winners : Env → Random → Giveaway → Exec Db (List WinnerInfo)
unfolding store_winners pick_winners ticket_inventory
draw_winners env rng g db =
    if not (may_draw g.status)
    then (err (value_error "giveaway cannot be drawn"), db)
    else if any (won_in g.id) db.winners.rows
    then (err (value_error "already drawn"), close_for_draw g db)
    else store_winners env (closed_for_draw g)
        (pick_winners env rng (closed_for_draw g) [] (close_for_draw g db))
        (ticket_inventory g.id db).1 (close_for_draw g db)

abbrev pub winner_tgs : List GiveawayWinner → List ℤ
winner_tgs [] = []
winner_tgs (w ∷ ws) = w.tg_id ∷ winner_tgs ws

abbrev pub remove_winners : ℕ → Db → Db
remove_winners giveaway_id db = record db {
  winners = record db.winners { rows = select (λ w. not (won_in giveaway_id w)) db.winners.rows };
}

abbrev pub previous_winners : ℕ → Db → List ℤ
previous_winners giveaway_id db = winner_tgs (select (won_in giveaway_id) db.winners.rows)

-- Those who won before are excluded, and the old rows go only when there are enough new winners.
unfoldable pub redraw_winners : Env → Random → Giveaway → Exec Db (List WinnerInfo)
unfolding store_winners pick_winners ticket_inventory
redraw_winners env rng g db =
    let picked = pick_winners env rng g (previous_winners g.id db) db in
    if not (is_drawn g.status)
    then (err (value_error "only drawn giveaways can be redrawn"), db)
    else if ltb (length picked) g.winner_count
    then (err (value_error "not enough eligible participants for redraw"), db)
    else store_winners env g picked (ticket_inventory g.id db).1 (remove_winners g.id db)
