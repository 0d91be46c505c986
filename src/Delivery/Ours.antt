-- ===== src/Delivery/Ours.antt =====
-- The profile that the search of delivery.py ends with.
use xray_vpn_bot.Prelude.{
  ℕ, zero, suc, String, ℤ, ◌≡◌, refl, ap, true, Option, none, some, [], ◌∷◌, ◌++◌, Text, codes,
  contains, starts_with, starts_with-append, inl, inr, Bool-cases, arith,
}
use xray_vpn_bot.Exec.{Exec, Result, ok, err}
use xray_vpn_bot.Panel.{Profile}
use xray_vpn_bot.Delivery.Names.{
  build_remnawave_username, provisioning_marker, provisioning_description, described, decimal,
  tg_text, nonempty_or, text_of,
}
use xray_vpn_bot.Delivery.World.{
  Failure, Answer, answered, failed, NewProfile, PanelCalls, Outside, World, ask,
}
use xray_vpn_bot.Delivery.Allocate.{
  Job, Found, profile, stopped, has_marker, after_failed, after_created, after_creation,
  after_lookup, attempt, try_usernames, allocate, new_profile, target_of,
}

starts_with-longer : (s t p : Text) → starts_with s p ≡ true → starts_with (s ++ t) p ≡ true
starts_with-longer s t [] e = ground arith
starts_with-longer [] t (c ∷ p) e = cc
starts_with-longer (d ∷ s) t (c ∷ p) e = ground (arith, starts_with-longer s t p)

contains-starts : (p s : Text) → starts_with s p ≡ true → contains p s ≡ true
contains-starts p [] e = e
contains-starts p (c ∷ s) e = ground arith

starts_with-described :
    (head : Text) (d : Option Text) (p : Text)
    → starts_with head p ≡ true
    → starts_with (described head d) p ≡ true
starts_with-described head none p e = e
starts_with-described head (some []) p e = e
starts_with-described head (some (c ∷ s)) p e = starts_with-longer head (codes "; " ++ (c ∷ s)) p e

provisioning_description-marker :
    (tx : String) (user_id : ℕ) (tg_id : Option ℤ) (source : String) (name d : Option Text)
    → contains (provisioning_marker tx) (provisioning_description tx user_id tg_id source name d)
      ≡ true
unfolding provisioning_description
provisioning_description-marker tx user_id tg_id source name d =
    let rest =
      codes "; db_user_id:"
      ++ (decimal user_id
          ++ (codes "; tg_id:"
              ++ (tg_text tg_id
                  ++ (codes "; source:"
                      ++ (codes source
                          ++ (codes "; tg_username:"
                              ++ nonempty_or (text_of name) (codes "none"))))))) in
    contains-starts (provisioning_marker tx) (described (provisioning_marker tx ++ rest) d) (
      starts_with-described (provisioning_marker tx ++ rest) d (provisioning_marker tx)
        (starts_with-append (provisioning_marker tx) rest))

-- A panel gives a new profile the description that is asked for.
abbrev pub IsDescribing : {W : Type 0} → PanelCalls W → Type 0
IsDescribing {W} calls =
    (x : NewProfile) (s : W) (r : Profile)
    → (calls.new_user x s).0 ≡ answered (some r)
    → r.description ≡ some x.description

-- A profile that is found has the marker of the transaction.
abbrev pub IsOurs : String → Result Found → Type 0
IsOurs tx (ok (profile p created ordinal)) = has_marker (provisioning_marker tx) p ≡ true
IsOurs tx (ok (stopped report)) = Unit
IsOurs tx (err e) = Unit

module _ {W : Type 0} (calls : PanelCalls W) (outside : Outside) (job : Job)
    (law : IsDescribing calls) where
  abbrev tx : String
  tx = job.order.transaction_id

  made_marked :
      (candidate : Text) (w : World W) (r : Profile)
      → (calls.new_user (new_profile job candidate) w.panel).0 ≡ answered (some r)
      → has_marker (provisioning_marker tx) r ≡ true
  made_marked candidate w r e =
      let order = job.order in
      let d = law (new_profile job candidate) w.panel r e in
      rw d (
        provisioning_description-marker order.transaction_id order.user_id job.tg_id
          order.purchase_source job.tg_username (target_of order).remnawave_description)

  module _ (next : Exec (World W) Found) (go : (w : World W) → IsOurs tx (next w).0) where
    after_failed-IsOurs :
        (ordinal : ℕ) (e : Failure) (a : Answer (Option Profile)) (w : World W)
        → IsOurs tx (after_failed calls outside job ordinal next e a w).0
    after_failed-IsOurs ordinal e (failed v) w = tt
    after_failed-IsOurs ordinal e (answered none) w = tt
    after_failed-IsOurs ordinal e (answered (some p)) w =
        elim (Bool-cases (has_marker (provisioning_marker tx) p)) [
          | inl marked ↦ rw marked marked
          | inr foreign ↦ rw foreign (go w)
        ]

    after_created-IsOurs :
        (ordinal : ℕ) (result : Option Profile) (a : Answer (Option Profile)) (w : World W)
        → ((r : Profile) → result ≡ some r → has_marker (provisioning_marker tx) r ≡ true)
        → IsOurs tx (after_created calls outside job ordinal next result a w).0
    after_created-IsOurs ordinal (some r) (failed v) w own = own r refl
    after_created-IsOurs ordinal (some r) (answered none) w own = own r refl
    after_created-IsOurs ordinal none (failed v) w own = tt
    after_created-IsOurs ordinal none (answered none) w own = tt
    after_created-IsOurs ordinal result (answered (some p)) w own =
        elim (Bool-cases (has_marker (provisioning_marker tx) p)) [
          | inl marked ↦ rw marked marked
          | inr foreign ↦ rw foreign (go w)
        ]

    after_creation-IsOurs :
        (ordinal : ℕ) (candidate : Text) (a : Answer (Option Profile)) (w : World W)
        → ((r : Profile) → a ≡ answered (some r) → has_marker (provisioning_marker tx) r ≡ true)
        → IsOurs tx (after_creation calls outside job ordinal candidate next a w).0
    after_creation-IsOurs ordinal candidate (failed e) w own =
        let again = ask (calls.by_username candidate) w in
        after_failed-IsOurs ordinal e again.0 again.1
    after_creation-IsOurs ordinal candidate (answered result) w own =
        let again = ask (calls.by_username candidate) w in
        after_created-IsOurs ordinal result again.0 again.1 (λ r e. own r (ap answered e))

    after_lookup-IsOurs :
        (ordinal : ℕ) (candidate : Text) (a : Answer (Option Profile)) (w : World W)
        → IsOurs tx (after_lookup calls outside job ordinal candidate next a w).0
    after_lookup-IsOurs ordinal candidate (failed e) w = tt
    after_lookup-IsOurs ordinal candidate (answered none) w =
        let made = ask (calls.new_user (new_profile job candidate)) w in
        after_creation-IsOurs ordinal candidate made.0 made.1 (λ r e. made_marked candidate w r e)
    after_lookup-IsOurs ordinal candidate (answered (some p)) w =
        elim (Bool-cases (has_marker (provisioning_marker tx) p)) [
          | inl marked ↦ rw marked marked
          | inr foreign ↦ rw foreign (go w)
        ]

    attempt-IsOurs :
        (ordinal : ℕ) (name : Result Text) (w : World W)
        → IsOurs tx (attempt calls outside job ordinal next name w).0
    attempt-IsOurs ordinal (err e) w = tt
    attempt-IsOurs ordinal (ok candidate) w =
        let occupied = ask (calls.by_username candidate) w in
        after_lookup-IsOurs ordinal candidate occupied.0 occupied.1

  try_usernames-IsOurs :
      (attempts ordinal : ℕ) (w : World W)
      → IsOurs tx (try_usernames calls outside job attempts ordinal w).0
  try_usernames-IsOurs zero ordinal w = tt
  try_usernames-IsOurs (suc n) ordinal w =
      attempt-IsOurs (try_usernames calls outside job n (suc ordinal))
        (try_usernames-IsOurs n (suc ordinal)) ordinal
        (build_remnawave_username outside.lower job.tg_username job.order.user_id ordinal) w

  -- If the panel gives a new profile the description that is asked for, then a search for a
  -- username that ends with a profile ends with one whose description has the marker of this
  -- transaction, whatever the panel answers otherwise: a name that another profile took is
  -- passed over.
  pub allocate-IsOurs :
      (w : World W) → IsOurs job.order.transaction_id (allocate calls outside job w).0
  unfolding allocate
  allocate-IsOurs w = try_usernames-IsOurs 100 job.subscription_count w
