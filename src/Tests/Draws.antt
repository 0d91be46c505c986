-- ===== src/Tests/Draws.antt =====
-- A draw between two participants with three tickets.
use xray_vpn_bot.Prelude.{ℕ, ◌≤◌, ℤ, pos, ◌≡◌, ◌⊎◌, refl, false, none, some, [], ◌∷◌, arith, count}
use xray_vpn_bot.Prelude.Strip.{strip}
use xray_vpn_bot.Db.{Db, Giveaway, GiveawayTicket, join, closed}
use xray_vpn_bot.Giveaway.Lifecycle.{GiveawayPatch, update_giveaway, close_giveaway}
use xray_vpn_bot.Giveaway.Life.{
  get_giveaway, updates, closes, draws, Lives, lives, unchanged, IsLater,
}
use xray_vpn_bot.Giveaway.Frozen.{Lives-IsLater}
use xray_vpn_bot.Giveaway.Winners.{Random, take, most_tickets_winners}
use xray_vpn_bot.Giveaway.Chosen.{IsSampling, count-take}
use xray_vpn_bot.Giveaway.Draw.{draw_winners, redraw_winners, mark_drawn}
use xray_vpn_bot.Giveaway.DrawOnce.{
  IsWonOnce, won_by, draw_winners-IsWonOnce, redraw_winners-IsWonOnce,
}
use xray_vpn_bot.Tests.Samples.{with_raffle, raffle}
use xray_vpn_bot.Tests.Giveaways.{raffle_env}

-- A random module that takes what stands first.
abbrev first_random : Random
first_random = record { choices = λ k ws. 0; sample = λ xs n. take n xs; choice = λ tg ids. 0 }

fair : IsSampling first_random
fair = record { sample_within = λ xs n q h. count-take q n xs }

abbrev ticket : ℕ → ℤ → GiveawayTicket
ticket id tg = record {
  id = id;
  giveaway_id = 1;
  participant_tg_id = tg;
  source = join;
  source_tg_id = none;
  created_at = "2026-01-01T00:00:00";
}

abbrev drawable : Db
drawable = record with_raffle {
  tickets = record {
    rows = ticket 1 (pos 501) ∷ ticket 2 (pos 502) ∷ ticket 3 (pos 502) ∷ [];
    next = 4;
  };
}

-- The one with two tickets wins.
chosen_most :
    most_tickets_winners first_random ((pos 501, 1) ∷ (pos 502, 2) ∷ []) 1 ≡ (pos 502, 2) ∷ []
unfolding most_tickets_winners
chosen_most = refl

stripped : strip "  a b " ≡ "a b"
unfolding strip
stripped = refl

nobody_yet : IsWonOnce drawable
nobody_yet g tg = omega arith

abbrev drawn_db : Db
drawn_db = (draw_winners raffle_env first_random raffle drawable).1

draw_winners-IsWonOnce_example : IsWonOnce drawn_db
draw_winners-IsWonOnce_example =
    draw_winners-IsWonOnce raffle_env first_random raffle drawable fair nobody_yet

drawn_once : IsWonOnce drawn_db
drawn_once = draw_winners-IsWonOnce raffle_env first_random raffle drawable fair nobody_yet

abbrev drawn_raffle : Giveaway
drawn_raffle = mark_drawn raffle_env raffle

redraw_winners-IsWonOnce_example :
    let (r, db') = redraw_winners raffle_env first_random drawn_raffle drawn_db in
    IsWonOnce db'
    × ((db' ≡ drawn_db)
        ⊎ ((tg : ℤ)
            → 1 ≤ count (won_by 1 tg) drawn_db.winners.rows
            → count (won_by 1 tg) db'.winners.rows ≡ 0))
redraw_winners-IsWonOnce_example =
    redraw_winners-IsWonOnce raffle_env first_random drawn_raffle drawn_db fair drawn_once

-- A longer window for an active giveaway.
abbrev later_end : GiveawayPatch
later_end = record {
  title = none;
  channel_text = none;
  config = none;
  winner_count = none;
  starts_at = none;
  ends_at = some "2026-03-01T00:00:00";
  clear_starts_at = false;
  clear_ends_at = false;
}

-- It is opened for longer, closed and drawn.
abbrev longer : Giveaway
longer = record raffle { ends_at = some "2026-03-01T00:00:00" }

abbrev extended : Db
extended = (update_giveaway raffle_env later_end raffle drawable).1

abbrev shut : Db
shut = (close_giveaway longer extended).1

abbrev shut_raffle : Giveaway
shut_raffle = record longer { status = closed }

abbrev ended : Db
ended = (draw_winners raffle_env first_random shut_raffle shut).1

life : Lives drawable ended
unfolding update_giveaway close_giveaway
life = lives (updates raffle_env later_end 1 raffle refl) (
    lives (closes 1 longer refl)
      (lives (draws raffle_env first_random 1 shut_raffle refl) unchanged))

Lives-IsLater_example : (g' : Giveaway) × (get_giveaway 1 ended ≡ some g') × IsLater raffle g'
Lives-IsLater_example = Lives-IsLater 1 raffle life refl
