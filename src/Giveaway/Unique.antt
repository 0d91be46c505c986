-- ===== src/Giveaway/Unique.antt =====
-- The uniqueness of tickets and participants under the operations of repo/giveaways.py.
use xray_vpn_bot.Prelude.{
  ℕ, ◌≤◌, ℤ, pos, leb_ℤ, eqb_ℤ_iff, ◌≡◌, refl, inl, inr, Bool, true, false, ◌||◌, not, Option, none,
  some, List, [], ◌∷◌, ◌++◌, arith, any, count, count-append, count_none, Bool-cases, Option-cases,
}
use xray_vpn_bot.Exec.{bind_post}
use xray_vpn_bot.Db.{
  Db, Giveaway, GiveawayParticipant, GiveawayTicket, TicketSource, join, invitee_ref_activation,
  invitee_purchase,
}
use xray_vpn_bot.Db.Tables.{by_key}
use xray_vpn_bot.Giveaway.Tickets.{
  Env, same_grant, same_participation, source_eq, source_tg_eq, grant_ticket, is_participant,
  join_participant, join_check, add_participant, grant_each, try_grant_invitee_ticket, rewards,
  join_new, join_report, counted, is_invitee_source, list_active_giveaways,
}

-- Each combination of giveaway, holder, source and invitee has at most one ticket, each pair of
-- giveaway and user at most one participation.
pub record IsUnique (db : Db) : Type 0 where
  pub tickets_once :
      (g : ℕ) (tg : ℤ) (s : TicketSource) (by : Option ℤ)
      → count (same_grant g tg s by) db.tickets.rows ≤ 1
  pub participants_once :
      (g : ℕ) (tg : ℤ) → count (same_participation g tg) db.participants.rows ≤ 1

source_eq_sound : (a b : TicketSource) → source_eq a b ≡ true → a ≡ b
source_eq_sound join join h = refl
source_eq_sound invitee_ref_activation invitee_ref_activation h = refl
source_eq_sound invitee_purchase invitee_purchase h = refl
source_eq_sound join invitee_purchase h = cc
source_eq_sound join invitee_ref_activation h = cc
source_eq_sound invitee_purchase join h = cc
source_eq_sound invitee_purchase invitee_ref_activation h = cc
source_eq_sound invitee_ref_activation join h = cc
source_eq_sound invitee_ref_activation invitee_purchase h = cc

source_tg_eq_sound : (a b : Option ℤ) → source_tg_eq a b ≡ true → a ≡ b
source_tg_eq_sound none none h = refl
source_tg_eq_sound (some a) (some b) h = ground (arith, eqb_ℤ_iff a b)
source_tg_eq_sound none (some b) h = cc
source_tg_eq_sound (some a) none h = cc

-- Two keys that a ticket matches are one.
same_grant_sound :
    (g g' : ℕ) (tg tg' : ℤ) (s s' : TicketSource) (by by' : Option ℤ) (t : GiveawayTicket)
    → t.giveaway_id ≡ g
    → t.participant_tg_id ≡ tg
    → t.source ≡ s
    → t.source_tg_id ≡ by
    → same_grant g' tg' s' by' t ≡ true
    → (g ≡ g') × (tg ≡ tg') × (s ≡ s') × (by ≡ by')
same_grant_sound g g' tg tg' s s' by by' t eg etg es eby h = ground (
  arith,
  source_eq_sound t.source s',
  source_tg_eq_sound t.source_tg_id by',
  eqb_ℤ_iff t.participant_tg_id tg',
)

none_at_key :
    (g g' : ℕ) (tg tg' : ℤ) (s s' : TicketSource) (by by' : Option ℤ) (ts : List GiveawayTicket)
    → (g ≡ g') × (tg ≡ tg') × (s ≡ s') × (by ≡ by')
    → any (same_grant g tg s by) ts ≡ false
    → count (same_grant g' tg' s' by') ts ≡ 0
none_at_key g g' tg tg' s s' by by' ts e new =
    rw (← e.0, ← e.1, ← e.2, ← e.3) (count_none (same_grant g tg s by) ts new)

count_after :
    (g g' : ℕ) (tg tg' : ℤ) (s s' : TicketSource) (by by' : Option ℤ) (ts : List GiveawayTicket)
    (t : GiveawayTicket)
    → t.giveaway_id ≡ g
    → t.participant_tg_id ≡ tg
    → t.source ≡ s
    → t.source_tg_id ≡ by
    → any (same_grant g tg s by) ts ≡ false
    → count (same_grant g' tg' s' by') ts ≤ 1
    → count (same_grant g' tg' s' by') (ts ++ t ∷ []) ≤ 1
count_after g g' tg tg' s s' by by' ts t eg etg es eby new h =
    elim (Bool-cases (same_grant g' tg' s' by' t)) [
      | inl hit ↦
          let same = same_grant_sound g g' tg tg' s s' by by' t eg etg es eby hit in
          rw (count-append (same_grant g' tg' s' by') ts (t ∷ []))
            (rw hit (omega (arith, none_at_key g g' tg tg' s s' by by' ts same new)))
      | inr miss ↦ rw (count-append (same_grant g' tg' s' by') ts (t ∷ [])) (rw miss (omega arith))
    ]

grant_ticket-IsUnique :
    (env : Env) (g : ℕ) (tg : ℤ) (s : TicketSource) (by : Option ℤ) (db : Db)
    → IsUnique db
    → IsUnique (grant_ticket env g tg s by db).1
unfolding grant_ticket
grant_ticket-IsUnique env g tg s by db h =
    elim (Bool-cases (any (same_grant g tg s by) db.tickets.rows)) [
      | inl old ↦ rw old h
      | inr new ↦ rw new (record {
        tickets_once = λ g' tg' s' by'.
            count_after g g' tg tg' s s' by by' db.tickets.rows _ refl refl refl refl new
              (h.tickets_once g' tg' s' by');
        participants_once = h.participants_once;
      })
    ]

participants_after :
    (g g' : ℕ) (tg tg' : ℤ) (ps : List GiveawayParticipant) (p : GiveawayParticipant)
    → p.giveaway_id ≡ g
    → p.tg_id ≡ tg
    → any (same_participation g tg) ps ≡ false
    → count (same_participation g' tg') ps ≤ 1
    → count (same_participation g' tg') (ps ++ p ∷ []) ≤ 1
participants_after g g' tg tg' ps p eg etg new h = elim (Bool-cases (same_participation g' tg' p)) [
  | inl hit ↦
      let same : (g ≡ g') × (tg ≡ tg') = ground (arith, eqb_ℤ_iff p.tg_id tg') in
      let zero_there : count (same_participation g' tg') ps ≡ 0 =
        rw (← same.0, ← same.1) (count_none (same_participation g tg) ps new) in
      rw (count-append (same_participation g' tg') ps (p ∷ [])) (rw hit (omega (arith, zero_there)))
  | inr miss ↦ rw (count-append (same_participation g' tg') ps (p ∷ [])) (rw miss (omega arith))
]

add_participant-IsUnique :
    (env : Env) (g : ℕ) (tg : ℤ) (db : Db)
    → is_participant g tg db ≡ false
    → IsUnique db
    → IsUnique (add_participant env g tg db)
unfolding is_participant
add_participant-IsUnique env g tg db new h = record {
  tickets_once = h.tickets_once;
  participants_once = λ g' tg'.
      participants_after g g' tg tg' db.participants.rows _ refl refl new
        (h.participants_once g' tg');
}

grant_each-IsUnique :
    (env : Env) (referrer invitee : ℤ) (source : TicketSource) (n : ℕ) (gs : List Giveaway)
    (db : Db)
    → IsUnique db
    → IsUnique (grant_each env referrer invitee source n gs db).1
unfolding grant_each
grant_each-IsUnique env referrer invitee source n [] db h = h
grant_each-IsUnique env referrer invitee source n (g ∷ gs) db h =
    elim (Bool-cases (rewards env source referrer db g)) [
      | inl pays ↦ rw pays (
          grant_each-IsUnique env referrer invitee source
            (counted (grant_ticket env g.id referrer source (some invitee) db).0 n) gs
            (grant_ticket env g.id referrer source (some invitee) db).1
            (grant_ticket-IsUnique env g.id referrer source (some invitee) db h))
      | inr skips ↦ rw skips (grant_each-IsUnique env referrer invitee source n gs db h)
    ]

-- Granting the tickets for an invitee's action keeps every ticket and every participation
-- unique.
pub try_grant-IsUnique :
    (env : Env) (referrer invitee : ℤ) (source : TicketSource) (db : Db)
    → IsUnique db
    → IsUnique (try_grant_invitee_ticket env referrer invitee source db).1
unfolding try_grant_invitee_ticket
try_grant-IsUnique env referrer invitee source db h =
    elim (Bool-cases (leb_ℤ referrer (pos 0) || leb_ℤ invitee (pos 0))) [
      | inl bad ↦ rw bad h
      | inr good ↦ elim (Bool-cases (not (is_invitee_source source))) [
        | inl wrong ↦ rw (good, wrong) h
        | inr right ↦
            rw (good, right)
              (grant_each-IsUnique env referrer invitee source 0 (list_active_giveaways env db) db
                h)
      ]
    ]

join_new-IsUnique :
    (env : Env) (g : ℕ) (tg : ℤ) (db : Db) → IsUnique db → IsUnique (join_new env g tg db).1
unfolding join_new
join_new-IsUnique env g tg db h =
    bind_post IsUnique IsUnique (grant_ticket env g tg join none) (λ granted. join_report g tg) db
      (grant_ticket-IsUnique env g tg join none db h) (λ granted t kept. kept) (λ t kept. kept)

-- Joining, refused or repeated or new, keeps every ticket and every participation unique.
pub join_participant-IsUnique :
    (env : Env) (g : ℕ) (tg : ℤ) (channel_sub_ok : Bool) (db : Db)
    → IsUnique db
    → IsUnique (join_participant env g tg channel_sub_ok db).1
unfolding join_participant
join_participant-IsUnique env g tg sub db h =
    elim (Option-cases
      (join_check env (by_key (λ (x : Giveaway). x.id) g db.giveaways.rows) tg sub)) [
        | inr (why, e) ↦ rw (e, join_participant) h
        | inl passed ↦ elim (Bool-cases (is_participant g tg db)) [
          | inl old ↦ rw (passed, join_participant) (rw old h)
          | inr new ↦
              rw (passed, join_participant)
                (rw new (
                  join_new-IsUnique env g tg (add_participant env g tg db)
                    (add_participant-IsUnique env g tg db new h)))
        ]
      ]
