-- ===== src/Giveaway/Life.antt =====
-- The life of a giveaway of repo/giveaways.py as a relation: the calls that write its row, each on
-- the row that `get_giveaway` loads, in any order.
use mathlib.Core.Path.{subst}
use xray_vpn_bot.Prelude.{
  ℕ, ◌≤◌, String, ◌≡◌, ◌⊎◌, refl, ap, ◌∙◌, inl, inr, true, Option, none, some, arith, ◌==◌, ==_iff,
  find_holds, if◌then◌else◌, Bool-cases,
}
use xray_vpn_bot.Db.{Db, Giveaway, GiveawayStatus, draft, active, closed, drawn}
use xray_vpn_bot.Db.Tables.{by_key}
use xray_vpn_bot.Db.Sums.{by_key-replace}
use xray_vpn_bot.Giveaway.Tickets.{Env}
use xray_vpn_bot.Giveaway.Winners.{Random}
use xray_vpn_bot.Giveaway.Lifecycle.{
  NewGiveaway, GiveawayPatch, create_giveaway, update_giveaway, activate_giveaway, close_giveaway,
  save,
}
use xray_vpn_bot.Giveaway.Draw.{draw_winners, redraw_winners}

abbrev pub get_giveaway : ℕ → Db → Option Giveaway
get_giveaway k db = by_key (λ g. g.id) k db.giveaways.rows

-- One call.
pub data Life (db : Db) : Db → Type 0 where
  creates : (env : Env) (new : NewGiveaway) → Life db (create_giveaway env new db).1
  updates :
      (env : Env) (patch : GiveawayPatch) (k : ℕ) (g : Giveaway)
      → get_giveaway k db ≡ some g
      → Life db (update_giveaway env patch g db).1
  activates :
      (k : ℕ) (g : Giveaway) → get_giveaway k db ≡ some g → Life db (activate_giveaway g db).1
  closes : (k : ℕ) (g : Giveaway) → get_giveaway k db ≡ some g → Life db (close_giveaway g db).1
  draws :
      (env : Env) (rng : Random) (k : ℕ) (g : Giveaway)
      → get_giveaway k db ≡ some g
      → Life db (draw_winners env rng g db).1
  redraws :
      (env : Env) (rng : Random) (k : ℕ) (g : Giveaway)
      → get_giveaway k db ≡ some g
      → Life db (redraw_winners env rng g db).1

pub data Lives : Db → Db → Type 0 where
  unchanged : {db : Db} → Lives db db
  lives : {db mid db' : Db} → Life db mid → Lives mid db' → Lives db db'

abbrev pub stage : GiveawayStatus → ℕ
stage draft = 0
stage active = 1
stage closed = 2
stage drawn = 3

-- What participants have been told.
pub record IsSameContent (g g' : Giveaway) : Type 0 where
  pub title : g'.title ≡ g.title
  pub channel_text : g'.channel_text ≡ g.channel_text
  pub config_json : g'.config_json ≡ g.config_json
  pub winner_count : g'.winner_count ≡ g.winner_count

-- A row that the other may become.
pub record IsLater (g g' : Giveaway) : Type 0 where
  pub same_id : g'.id ≡ g.id
  pub created_at : g'.created_at ≡ g.created_at
  pub created_by : g'.created_by ≡ g.created_by
  pub onward : stage g.status ≤ stage g'.status
  pub content : (g.status ≡ draft) ⊎ IsSameContent g g'

same_content : (g : Giveaway) → IsSameContent g g
same_content g = record {
  title = refl;
  channel_text = refl;
  config_json = refl;
  winner_count = refl;
}

pub IsLater-refl : (g : Giveaway) → IsLater g g
IsLater-refl g = record {
  same_id = refl;
  created_at = refl;
  created_by = refl;
  onward = omega arith;
  content = inr (same_content g);
}

stage_zero : (s : GiveawayStatus) → stage s ≤ 0 → s ≡ draft
stage_zero draft h = refl
stage_zero active h = absurd (omega arith)
stage_zero closed h = absurd (omega arith)
stage_zero drawn h = absurd (omega arith)

pub IsLater-trans : (a b c : Giveaway) → IsLater a b → IsLater b c → IsLater a c
IsLater-trans a b c h k = record {
  same_id = k.same_id ∙ h.same_id;
  created_at = k.created_at ∙ h.created_at;
  created_by = k.created_by ∙ h.created_by;
  onward = omega (arith, h.onward, k.onward);
  content = joined h.content k.content;
}
  where
    joined :
        (a.status ≡ draft) ⊎ IsSameContent a b
        → (b.status ≡ draft) ⊎ IsSameContent b c
        → (a.status ≡ draft) ⊎ IsSameContent a c
    joined (inl e) q = inl e
    joined (inr p) (inl e) = inl (stage_zero a.status (omega (arith, h.onward, ap stage e)))
    joined (inr p) (inr q) = inr (record {
      title = q.title ∙ p.title;
      channel_text = q.channel_text ∙ p.channel_text;
      config_json = q.config_json ∙ p.config_json;
      winner_count = q.winner_count ∙ p.winner_count;
    })

-- Every row that was there is there, as a later one.
abbrev pub Grows : Db → Db → Type 0
Grows db db' =
    (k : ℕ) (g : Giveaway)
    → get_giveaway k db ≡ some g
    → (g' : Giveaway) × (get_giveaway k db' ≡ some g') × IsLater g g'

pub Grows-same : (db db' : Db) → db'.giveaways ≡ db.giveaways → Grows db db'
Grows-same db db' e k g found =
    (g, ap (λ t. by_key (λ (x : Giveaway). x.id) k t.rows) e ∙ found, IsLater-refl g)

-- An assignment to a loaded row.
pub Grows-save :
    (k : ℕ) (g new : Giveaway) (db base : Db)
    → get_giveaway k db ≡ some g
    → IsLater g new
    → base.giveaways ≡ db.giveaways
    → Grows db (save new base)
Grows-save k g new db base here later same j old found =
    let after : get_giveaway j (save new base) ≡ elim (get_giveaway j db) [
      | none ↦ none
      | some r ↦ some (if j == new.id then new else r)
    ] =
      by_key-replace (λ (x : Giveaway). x.id) new j base.giveaways.rows
      ∙ ap
          (λ t. elim (by_key (λ (x : Giveaway). x.id) j t.rows) [
            | none ↦ none
            | some r ↦ some (if j == new.id then new else r)
          ])
          same in
    elim (Bool-cases (j == new.id)) [
      | inl e ↦
          let is_k : (g.id == k) ≡ true =
            find_holds (λ (x : Giveaway). x.id == k) db.giveaways.rows g here in
          let same_key : j ≡ k = ground (arith, ==_iff j new.id, ==_iff g.id k, later.same_id) in
          let same_row : g ≡ old =
            ground (arith, ap (λ n. get_giveaway n db) same_key, here, found) in
          (new, after ∙ ground (arith, found, e), subst (λ r. IsLater r new) same_row later)
      | inr e ↦ (old, after ∙ ground (arith, found, e), IsLater-refl old)
    ]

pub Grows-trans : (a b c : Db) → Grows a b → Grows b c → Grows a c
Grows-trans a b c p q k g found =
    let (mid, there, earlier) = p k g found in
    let (new, here, later) = q k mid there in (new, here, IsLater-trans g mid new earlier later)

pub saved_here :
    (k : ℕ) (g new : Giveaway) (db : Db)
    → get_giveaway k db ≡ some g
    → new.id ≡ g.id
    → get_giveaway k (save new db) ≡ some new
saved_here k g new db here same =
    let is_k : (g.id == k) ≡ true =
      find_holds (λ (x : Giveaway). x.id == k) db.giveaways.rows g here in
    by_key-replace (λ (x : Giveaway). x.id) new k db.giveaways.rows
    ∙ ground (arith, here, ==_iff k new.id, ==_iff g.id k)

pub moved-IsLater :
    (g : Giveaway) (new : GiveawayStatus) (drawn_at : Option String)
    → stage g.status ≤ stage new
    → IsLater g (record g { status = new; drawn_at = drawn_at })
moved-IsLater g new drawn_at h = record {
  same_id = refl;
  created_at = refl;
  created_by = refl;
  onward = h;
  content =
      inr (record { title = refl; channel_text = refl; config_json = refl; winner_count = refl });
}
