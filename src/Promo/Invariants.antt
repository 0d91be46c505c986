-- ===== src/Promo/Invariants.antt =====
-- Wallets under `redeem_promo` of repo/promos.py: instances of the rule of Promo/Keeps.
use mathlib.Core.Path.{subst}
use xray_vpn_bot.Prelude.{ℕ, ℤ, String, List, sym}
use xray_vpn_bot.Db.{Db}
use xray_vpn_bot.Wallet.Audit.{IsAudited, credit-IsAudited}
use xray_vpn_bot.Wallet.Runs.{IsSolvent, credit-IsSolvent}
use xray_vpn_bot.Giveaway.Tickets.{Env}
use xray_vpn_bot.Giveaway.Frame.{try_grant_frame}
use xray_vpn_bot.Promo.Redeem.{redeem_promo}
use xray_vpn_bot.Promo.Keeps.{Keeps, redeem_promo_keeps}

pub IsAudited-keeps : (v : ℕ) (opening : ℤ) → Keeps (IsAudited v opening)
IsAudited-keeps v o = record {
  settings = λ db s h. record { chained = h.chained; closes = h.closes };
  promos = λ db ps h. record { chained = h.chained; closes = h.closes };
  redemptions = λ db rs h. record { chained = h.chained; closes = h.closes };
  grant =
      λ user_id amount source ref now db h. credit-IsAudited v o user_id amount source ref now db h;
  ticket = λ env a b s db h.
      subst (IsAudited v o) (sym (try_grant_frame env a b s db))
        (record { chained = h.chained; closes = h.closes });
}

pub IsSolvent-keeps : Keeps IsSolvent
IsSolvent-keeps = record {
  settings = λ db s h. h;
  promos = λ db ps h. h;
  redemptions = λ db rs h. h;
  grant = λ user_id amount source ref now db h. credit-IsSolvent user_id amount source ref now db h;
  ticket = λ env a b s db h. subst IsSolvent (sym (try_grant_frame env a b s db)) h;
}

module _ (env : Env) (tg : ℤ) (code : String) (draws : List String) (now : String) (db : Db) where
  -- A redemption, accepted or refused or raising, leaves every user's ledger explaining the
  -- balance, if it did before.
  pub redeem_promo-IsAudited :
      (v : ℕ) (opening : ℤ)
      → IsAudited v opening db
      → IsAudited v opening (redeem_promo env tg code draws now db).1
  redeem_promo-IsAudited v o h =
      redeem_promo_keeps (IsAudited v o) (IsAudited-keeps v o) env tg code draws now db h

  -- A redemption never makes a balance negative.
  pub redeem_promo-IsSolvent : IsSolvent db → IsSolvent (redeem_promo env tg code draws now db).1
  redeem_promo-IsSolvent h = redeem_promo_keeps IsSolvent IsSolvent-keeps env tg code draws now db h
