-- ===== src/Giveaway/Chosen.antt =====
-- The functions that choose winners in repo/giveaways.py, counted: how often an entry is taken.
use xray_vpn_bot.Prelude.{
  ℕ, zero, suc, ◌+◌, ◌≤◌, ℤ, eqb_ℤ, eqb_ℤ_iff, ◌≡◌, refl, ◌∙◌, inl, inr, Bool, true, false, some,
  List, [], ◌∷◌, ◌++◌, arith, leb, length, any, select, count, count-append, count_none,
  if◌then◌else◌, Bool-cases, Option-cases,
}
use xray_vpn_bot.Db.{GiveawayTicket, WinnerSelection, random, most_tickets}
use xray_vpn_bot.Giveaway.Winners.{
  Entry, Holding, Random, pop_at, ticket_counts, weighted_loop, has_tickets,
  weighted_random_winners, max_tickets, place, sort_entries, take, is_top, is_below,
  most_tickets_winners, hold, holdings, entries_of, Picked, with_ticket, choose,
}

-- What the documentation promises of `random.sample`: no element is taken more often than it stands
-- in the population.
pub record IsSampling (rng : Random) : Type 0 where
  pub sample_within :
      (xs : List Entry) (n : ℕ) (q : Entry → Bool)
      → n ≤ length xs
      → count q (rng.sample xs n) ≤ count q xs

module _ (q : Entry → Bool) where
  count-pop_at :
      (i : ℕ) (xs : List Entry) (w : Entry) (rest : List Entry)
      → pop_at i xs ≡ some (w, rest)
      → count q rest + (if q w then 1 else 0) ≡ count q xs
  count-pop_at i [] w rest e = cc
  count-pop_at zero (x ∷ xs) w rest e = ground arith
  count-pop_at (suc i) (x ∷ xs) w rest e = elim (Option-cases (pop_at i xs)) [
    | inl out ↦ absurd (ground arith)
    | inr ((v, later), popped) ↦ ground (arith, count-pop_at i xs v later popped)
  ]

  count-select : (p : Entry → Bool) (xs : List Entry) → count q (select p xs) ≤ count q xs
  count-select p [] = omega arith
  count-select p (x ∷ xs) = ground (arith, count-select p xs)

  count-weighted_loop :
      (rng : Random) (k need : ℕ) (xs : List Entry)
      → count q (weighted_loop rng k need xs) ≤ count q xs
  unfolding weighted_loop
  count-weighted_loop rng k zero xs = omega arith
  count-weighted_loop rng k (suc need) xs =
      elim (Option-cases (pop_at (rng.choices k (ticket_counts xs)) xs)) [
        | inl out ↦ rw (out, weighted_loop) (omega arith)
        | inr ((w, rest), popped) ↦
            rw (popped, weighted_loop)
              (ground (
                arith,
                count-pop_at (rng.choices k (ticket_counts xs)) xs w rest popped,
                count-weighted_loop rng (k + 1) need rest,
              ))
      ]

  pub count-take : (n : ℕ) (xs : List Entry) → count q (take n xs) ≤ count q xs
  count-take zero xs = omega arith
  count-take (suc n) [] = omega arith
  count-take (suc n) (x ∷ xs) = ground (arith, count-take n xs)

  count-place : (e : Entry) (xs : List Entry) → count q (place e xs) ≡ count q (e ∷ xs)
  count-place e [] = refl
  count-place e (x ∷ xs) = ground (arith, count-place e xs)

  count-sort_entries : (xs : List Entry) → count q (sort_entries xs) ≡ count q xs
  count-sort_entries [] = refl
  count-sort_entries (x ∷ xs) =
      count-place x (sort_entries xs) ∙ ground (arith, count-sort_entries xs)

  -- An entry is at the top or below it, never both.
  count-top_below :
      (most : ℕ) (xs : List Entry)
      → count q (select (is_top most) xs) + count q (select (is_below most) xs) ≤ count q xs
  count-top_below most [] = omega arith
  count-top_below most ((tg, tickets) ∷ xs) = ground (arith, count-top_below most xs)

  count-most_tickets :
      (rng : Random) (xs : List Entry) (n : ℕ)
      → IsSampling rng
      → count q (most_tickets_winners rng xs n) ≤ count q xs
  unfolding most_tickets_winners
  count-most_tickets rng [] n fair = omega arith
  count-most_tickets rng (x ∷ xs) n fair =
      let most = max_tickets (x ∷ xs) in
      let top = select (is_top most) (x ∷ xs) in
      let below = select (is_below most) (x ∷ xs) in
      elim (Bool-cases (leb (length top) n)) [
        | inl few ↦ rw few (
            omega (
              arith,
              count-take n (top ++ sort_entries below),
              count-append q top (sort_entries below),
              count-sort_entries below,
              count-top_below most (x ∷ xs),
            ))
        | inr many ↦ rw many (
            omega (
              arith,
              fair.sample_within top n q (ground arith),
              count-select (is_top most) (x ∷ xs),
            ))
      ]

  -- Both ways to choose take an entry at most as often as it stands in the list.
  pub count-choose :
      (rng : Random) (selection : WinnerSelection) (xs : List Entry) (n : ℕ)
      → IsSampling rng
      → count q (choose rng selection xs n) ≤ count q xs
  unfolding weighted_random_winners
  count-choose rng random xs n fair =
      omega
        (arith, count-weighted_loop rng 0 n (select has_tickets xs), count-select has_tickets xs)
  count-choose rng most_tickets xs n fair = count-most_tickets rng xs n fair

abbrev pub entry_is : ℤ → Entry → Bool
entry_is tg (t, tickets) = eqb_ℤ t tg

abbrev pub holder_is : ℤ → Holding → Bool
holder_is tg (t, ids) = eqb_ℤ t tg

abbrev pub picked_is : ℤ → Picked → Bool
picked_is tg p = eqb_ℤ p.tg_id tg

pub count-with_ticket :
    (rng : Random) (selection : WinnerSelection) (held : List Holding) (tg : ℤ) (es : List Entry)
    → count (picked_is tg) (with_ticket rng selection held es) ≡ count (entry_is tg) es
count-with_ticket rng selection held tg [] = refl
count-with_ticket rng selection held tg ((t, n) ∷ es) =
    ground (arith, count-with_ticket rng selection held tg es)

count-entries_of :
    (excluded : List ℤ) (tg : ℤ) (hs : List Holding)
    → count (entry_is tg) (entries_of excluded hs) ≤ count (holder_is tg) hs
count-entries_of excluded tg [] = omega arith
count-entries_of excluded tg ((t, ids) ∷ hs) = ground (arith, count-entries_of excluded tg hs)

-- Nobody who is excluded is among the entries.
pub entries_of-excluded :
    (excluded : List ℤ) (tg : ℤ) (hs : List Holding)
    → any (λ x. eqb_ℤ x tg) excluded ≡ true
    → count (entry_is tg) (entries_of excluded hs) ≡ 0
entries_of-excluded excluded tg [] out = refl
entries_of-excluded excluded tg ((t, ids) ∷ hs) out = elim (Bool-cases (eqb_ℤ t tg)) [
  | inl same ↦
      let there : any (λ x. eqb_ℤ x t) excluded ≡ true = rw ((eqb_ℤ_iff t tg).0 same) out in
      ground (arith, entries_of-excluded excluded tg hs out)
  | inr other ↦ ground (arith, entries_of-excluded excluded tg hs out)
]

count-hold :
    (tg t : ℤ) (id : ℕ) (hs : List Holding)
    → count (holder_is tg) (hold t id hs) ≡ (
        if any (holder_is t) hs
        then count (holder_is tg) hs
        else count (holder_is tg) hs + (if eqb_ℤ t tg then 1 else 0))
count-hold tg t id [] = ground arith
count-hold tg t id ((u, ids) ∷ hs) = ground (arith, count-hold tg t id hs)

hold_once :
    (tg t : ℤ) (id : ℕ) (hs : List Holding)
    → count (holder_is tg) hs ≤ 1
    → count (holder_is tg) (hold t id hs) ≤ 1
hold_once tg t id hs h = elim (Bool-cases (eqb_ℤ t tg)) [
  | inr other ↦ ground (arith, count-hold tg t id hs)
  | inl same ↦
      let e = (eqb_ℤ_iff t tg).0 same in
      let fresh : any (holder_is t) hs ≡ false → count (holder_is tg) hs ≡ 0 =
        λ none_there. rw (← e) (count_none (holder_is t) hs none_there) in
      ground (arith, count-hold tg t id hs, fresh)
]

holdings_once :
    (tg : ℤ) (ts : List GiveawayTicket) (hs : List Holding)
    → count (holder_is tg) hs ≤ 1
    → count (holder_is tg) (holdings ts hs) ≤ 1
holdings_once tg [] hs h = h
holdings_once tg (t ∷ ts) hs h =
    holdings_once tg ts (hold t.participant_tg_id t.id hs)
      (hold_once tg t.participant_tg_id t.id hs h)

-- A participant is one entry, however many tickets there are.
pub entries_once :
    (excluded : List ℤ) (tg : ℤ) (ts : List GiveawayTicket)
    → count (entry_is tg) (entries_of excluded (holdings ts [])) ≤ 1
entries_once excluded tg ts =
    omega
      (arith, count-entries_of excluded tg (holdings ts []), holdings_once tg ts [] (omega arith))
