-- ===== src/Merge/ImportKeeps.antt =====
-- What `import_subscription_by_uuid` of merge.py writes: profiles, and one column of the users.
use xray_vpn_bot.Prelude.{ℕ, String, not, Option, none, some, inl, inr, Bool-cases, Option-cases}
use xray_vpn_bot.Exec.{Result, ok, err, pure, ◌>>=◌, ◌>>◌, bind_post}
use xray_vpn_bot.Db.{Db, User}
use xray_vpn_bot.Panel.{Profile}
use xray_vpn_bot.Wallet.{find_user}
use xray_vpn_bot.Subscription.{attach, get_primary}
use xray_vpn_bot.Subscription.Frame.{KeepsProfiles, attach_keeps}
use xray_vpn_bot.Merge.Accounts.{Lookups, RawUser, rw_of_info, link_request, answered}
use xray_vpn_bot.Merge.Import.{
  email_confirmed, lookup_a_side, self_report, import_self, attach_info, settle_column,
  import_decision, import_report, import_settled, import_linked, import_other, is_own_column,
  import_found, import_subscription_by_uuid,
}

module _ (P : Db → Type 0) (k : KeepsProfiles P) where
  import_self_keeps :
      (now : String) (user_id : ℕ) (b : RawUser) (db : Db)
      → P db
      → P (import_self now user_id b db).1
  unfolding import_self
  import_self_keeps now user_id b db h =
      bind_post P P (attach (link_request user_id b.id "import_self_backfill") now)
        (λ _. self_report b) db
        (attach_keeps P k (link_request user_id b.id "import_self_backfill") now db h)
        (λ _ t ht. ht) (λ t ht. ht)

  attach_info_keeps :
      (now : String) (user_id : ℕ) (rw_id : Option ℕ) (source : String) (db : Db)
      → P db
      → P (attach_info now user_id rw_id source db).1
  unfolding attach_info
  attach_info_keeps now user_id none source db h = h
  attach_info_keeps now user_id (some rw_id) source db h =
      bind_post P P (attach (link_request user_id rw_id source) now) (λ _. pure tt) db
        (attach_keeps P k (link_request user_id rw_id source) now db h) (λ _ t ht. ht) (λ t ht. ht)

  settle_column_keeps :
      (user_id : ℕ) (chosen : Option ℕ) (db : Db) → P db → P (settle_column user_id chosen db).1
  settle_column_keeps user_id none db h = elim (Option-cases (get_primary user_id db)) [
    | inl missing ↦ rw (missing, settle_column) h
    | inr (p, found) ↦ rw (found, settle_column) (k.column user_id (some p.rw_id) db h)
  ]
  settle_column_keeps user_id (some c) db h = elim (Option-cases (get_primary user_id db)) [
    | inl missing ↦ rw (missing, settle_column) (k.column user_id (some c) db h)
    | inr (p, found) ↦ rw (found, settle_column) (k.column user_id (some p.rw_id) db h)
  ]

  import_linked_keeps :
      (now : String) (a : User) (b : RawUser) (a_info : Option Profile) (db : Db)
      → P db
      → P (import_linked now a b a_info db).1
  import_linked_keeps now a b a_info db h =
      bind_post P P (attach_info now a.id (rw_of_info a_info) "import_existing")
        (λ _. attach_info now a.id (some b.id) "import_by_url" >> import_settled a b a_info) db
        (attach_info_keeps now a.id (rw_of_info a_info) "import_existing" db h)
        (λ _ t ht.
          bind_post P P (attach_info now a.id (some b.id) "import_by_url")
            (λ _. import_settled a b a_info) t
            (attach_info_keeps now a.id (some b.id) "import_by_url" t ht)
            (λ _ v hv.
              bind_post P P (settle_column a.id (import_decision a b a_info).chosen)
                (λ chosen. pure (import_report a b a_info chosen)) v
                (settle_column_keeps a.id (import_decision a b a_info).chosen v hv) (λ _ u hu. hu)
                (λ u hu. hu))
            (λ v hv. hv))
        (λ t ht. ht)

  import_other_keeps :
      (l : Lookups) (now : String) (a : User) (b : RawUser) (db : Db)
      → P db
      → P (import_other l now a b db).1
  unfolding import_other
  import_other_keeps l now a b db h =
      bind_post P P (answered (lookup_a_side l a.rw_id a.email))
        (λ a_info. import_linked now a b a_info) db h
        (λ a_info t ht. import_linked_keeps now a b a_info t ht) (λ t ht. ht)

  import_found_keeps :
      (l : Lookups) (lower : String → String) (now : String) (a : User) (claimed : String)
      (b : Option RawUser) (db : Db)
      → P db
      → P (import_found l lower now a claimed b db).1
  import_found_keeps l lower now a claimed none db h = h
  import_found_keeps l lower now a claimed (some b) db h =
      elim (Bool-cases (not (email_confirmed lower b claimed))) [
        | inl unproven ↦ rw unproven h
        | inr proven ↦ elim (Bool-cases (is_own_column a.rw_id b.id)) [
          | inl own ↦ rw (proven, own) (import_self_keeps now a.id b db h)
          | inr other ↦ rw (proven, other) (import_other_keeps l now a b db h)
        ]
      ]

  answer_keeps :
      (l : Lookups) (lower : String → String) (now : String) (a : User) (claimed : String)
      (r : Result (Option RawUser)) (db : Db)
      → P db
      → P (((λ (d : Db). (r, d)) >>= import_found l lower now a claimed) db).1
  answer_keeps l lower now a claimed (err e) db h = h
  answer_keeps l lower now a claimed (ok b) db h = import_found_keeps l lower now a claimed b db h

  pub import_keeps :
      (l : Lookups) (lower : String → String) (now : String) (user_id : ℕ)
      (short_uuid claimed : String) (db : Db)
      → P db
      → P (import_subscription_by_uuid l lower now user_id short_uuid claimed db).1
  unfolding import_subscription_by_uuid
  import_keeps l lower now user_id short_uuid claimed db h =
      elim (Option-cases (find_user user_id db)) [
        | inl missing ↦ rw (missing, import_subscription_by_uuid) h
        | inr (a, known) ↦
            rw (known, import_subscription_by_uuid)
              (answer_keeps l lower now a claimed (l.by_short_uuid short_uuid) db h)
      ]
