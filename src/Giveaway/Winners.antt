-- ===== src/Giveaway/Winners.antt =====
-- Who wins: `_weighted_random_winners`, `_most_tickets_winners`, `_ticket_inventory` and
-- `_pick_winners`. The random module is an argument: each use of it is a function of what it is
-- asked. Tickets stand in the order of insertion, which is that of `created_at` and id while the
-- clock does not go back.
use xray_vpn_bot.Prelude.{
  ℕ, zero, suc, ◌+◌, max, ℤ, eqb_ℤ, ltb_ℤ, Bool, ◌&&◌, ◌||◌, not, Option, none, some, List, [], ◌∷◌,
  ◌++◌, ltb, leb, length, ◌==◌, any, select, if◌then◌else◌,
}
use xray_vpn_bot.Db.{Db, Giveaway, GiveawayTicket, WinnerSelection, random, most_tickets}
use xray_vpn_bot.Giveaway.Tickets.{Env, config_of}

-- A participant with a number of tickets, and a participant with the ids of the tickets.
abbrev pub Entry : Type 0
Entry = ℤ × ℕ

abbrev pub Holding : Type 0
Holding = ℤ × List ℕ

-- What the random module gives: an index for weights (`choices`, in the k-th round), a sample, and
-- one of some ids.
pub record Random : Type 0 where
  pub choices : ℕ → List ℕ → ℕ
  pub sample : List Entry → ℕ → List Entry
  pub choice : ℤ → List ℕ → ℕ

-- list.pop(i), none out of range
abbrev pub pop_at {ℓ} : {A : Type ℓ} → ℕ → List A → Option (A × List A)
pop_at i [] = none
pop_at zero (x ∷ xs) = some (x, xs)
pop_at (suc i) (x ∷ xs) = elim (pop_at i xs) [ none ↦ none | some (y, rest) ↦ some (y, x ∷ rest) ]

abbrev pub ticket_counts : List Entry → List ℕ
ticket_counts [] = []
ticket_counts ((tg, tickets) ∷ es) = tickets ∷ ticket_counts es

-- The loop over the remaining entries: `need` winners are missing in round `k`.
unfoldable pub weighted_loop : Random → ℕ → ℕ → List Entry → List Entry
weighted_loop rng k zero remaining = []
weighted_loop rng k (suc need) remaining =
    elim (pop_at (rng.choices k (ticket_counts remaining)) remaining) [
      | none ↦ []
      | some (winner, rest) ↦ winner ∷ weighted_loop rng (k + 1) need rest
    ]

abbrev pub has_tickets : Entry → Bool
has_tickets (tg, tickets) = ltb 0 tickets

unfoldable pub weighted_random_winners : Random → List Entry → ℕ → List Entry
unfolding weighted_loop
weighted_random_winners rng entries winner_count =
    weighted_loop rng 0 winner_count (select has_tickets entries)

abbrev pub max_tickets : List Entry → ℕ
max_tickets [] = 0
max_tickets ((tg, tickets) ∷ es) = max tickets (max_tickets es)

-- key=lambda x: (-x[1], x[0])
abbrev pub sorts_before : Entry → Entry → Bool
sorts_before (tg, tickets) (tg', tickets') =
    ltb tickets' tickets || (tickets == tickets' && ltb_ℤ tg tg')

-- sorted(): equal keys keep their order.
abbrev pub place : Entry → List Entry → List Entry
place e [] = e ∷ []
place e (x ∷ xs) = let rest = place e xs in if sorts_before x e then x ∷ rest else e ∷ x ∷ xs

abbrev pub sort_entries : List Entry → List Entry
sort_entries [] = []
sort_entries (e ∷ es) = place e (sort_entries es)

abbrev pub take {ℓ} : {A : Type ℓ} → ℕ → List A → List A
take zero xs = []
take (suc n) [] = []
take (suc n) (x ∷ xs) = x ∷ take n xs

abbrev pub is_top : ℕ → Entry → Bool
is_top most (tg, tickets) = tickets == most

abbrev pub is_below : ℕ → Entry → Bool
is_below most (tg, tickets) = ltb tickets most

-- The top entries and then the others in order, cut after `winner_count`; or a sample of the top
-- entries, if they are too many.
unfoldable pub most_tickets_winners : Random → List Entry → ℕ → List Entry
most_tickets_winners rng [] winner_count = []
most_tickets_winners rng (e ∷ es) winner_count =
    let most = max_tickets (e ∷ es) in
    let top = select (is_top most) (e ∷ es) in
    if leb (length top) winner_count
    then take winner_count (top ++ sort_entries (select (is_below most) (e ∷ es)))
    else rng.sample top winner_count

-- by_participant.setdefault(tg_id, []).append(ticket_id)
abbrev pub hold : ℤ → ℕ → List Holding → List Holding
hold tg id [] = (tg, id ∷ []) ∷ []
hold tg id ((t, ids) ∷ rest) =
    let later = hold tg id rest in
    if eqb_ℤ t tg then (t, ids ++ id ∷ []) ∷ rest else (t, ids) ∷ later

abbrev pub holdings : List GiveawayTicket → List Holding → List Holding
holdings [] held = held
holdings (t ∷ ts) held = holdings ts (hold t.participant_tg_id t.id held)

abbrev pub number_tickets : ℕ → List GiveawayTicket → List (ℕ × ℕ)
number_tickets n [] = []
number_tickets n (t ∷ ts) = (t.id, n) ∷ number_tickets (n + 1) ts

unfoldable pub ticket_inventory : ℕ → Db → List Holding × List (ℕ × ℕ)
ticket_inventory giveaway_id db =
    let own = select (λ t. t.giveaway_id == giveaway_id) db.tickets.rows in
    (holdings own [], number_tickets 1 own)

-- Each participant that is not excluded, with the number of tickets.
abbrev pub entries_of : List ℤ → List Holding → List Entry
entries_of excluded [] = []
entries_of excluded ((tg, ids) ∷ hs) =
    let rest = entries_of excluded hs in
    if not (any (λ x. eqb_ℤ x tg) excluded) && not (length ids == 0)
    then (tg, length ids) ∷ rest
    else rest

-- ticket_ids_by_user[tg_id]
abbrev pub tickets_of : ℤ → List Holding → List ℕ
tickets_of tg [] = []
tickets_of tg ((t, ids) ∷ hs) = let rest = tickets_of tg hs in if eqb_ℤ t tg then ids else rest

pub record Picked : Type 0 where
  pub tg_id : ℤ
  pub tickets : ℕ
  pub winning_ticket_id : Option ℕ

abbrev pub first_of : List ℕ → Option ℕ
first_of [] = none
first_of (id ∷ ids) = some id

abbrev pub winning_ticket : Random → WinnerSelection → ℤ → List ℕ → Option ℕ
winning_ticket rng most_tickets tg ids = first_of ids
winning_ticket rng random tg ids = some (rng.choice tg ids)

abbrev pub with_ticket : Random → WinnerSelection → List Holding → List Entry → List Picked
with_ticket rng selection held [] = []
with_ticket rng selection held ((tg, tickets) ∷ es) =
    record {
      tg_id = tg;
      tickets = tickets;
      winning_ticket_id = winning_ticket rng selection tg (tickets_of tg held);
    }
    ∷ with_ticket rng selection held es

abbrev pub choose : Random → WinnerSelection → List Entry → ℕ → List Entry
choose rng most_tickets entries winner_count = most_tickets_winners rng entries winner_count
choose rng random entries winner_count = weighted_random_winners rng entries winner_count

unfoldable pub pick_winners : Env → Random → Giveaway → List ℤ → Db → List Picked
unfolding ticket_inventory config_of most_tickets_winners weighted_random_winners
pick_winners env rng g excluded db =
    let held = (ticket_inventory g.id db).0 in
    let selection = (config_of env g).winner_selection in
    with_ticket rng selection held (choose rng selection (entries_of excluded held) g.winner_count)
