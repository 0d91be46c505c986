-- ===== src/Merge/Decide.antt =====
-- `_classify` and `_decide` of merge.py. The module says of a profile whether it is paid, and which
-- profile leads after a merge.
use xray_vpn_bot.Prelude.{ℕ, suc, zero, Option, none, some, if◌then◌else◌}
use xray_vpn_bot.Panel.{Profile, is_paid}

pub data Tier : Type 0 where
  pro free absent : Tier

unfoldable pub classify : Option Profile → Tier
classify none = absent
classify (some p) = if is_paid p then pro else free

pub data MergeCode : Type 0 where
  merged_pro merged_free linked already_owned : MergeCode

-- The tuple that `_decide` returns.
pub record Decision : Type 0 where
  pub survivor : ℕ
  pub loser : ℕ
  pub chosen : Option ℕ
  pub code : MergeCode

-- `a or b`: 0 is false.
abbrev pub id_or : Option ℕ → Option ℕ → Option ℕ
id_or none b = b
id_or (some zero) b = b
id_or (some (suc n)) b = some (suc n)

-- The Telegram row survives in every branch.
unfoldable pub decide : Tier → Tier → Option ℕ → Option ℕ → ℕ → ℕ → Decision
decide pro pro a_rw t_rw android tg = record {
  survivor = tg;
  loser = android;
  chosen = id_or t_rw a_rw;
  code = merged_pro;
}
decide pro free a_rw t_rw android tg = record {
  survivor = tg;
  loser = android;
  chosen = a_rw;
  code = merged_pro;
}
decide free pro a_rw t_rw android tg = record {
  survivor = tg;
  loser = android;
  chosen = t_rw;
  code = merged_pro;
}
decide free free a_rw t_rw android tg = record {
  survivor = tg;
  loser = android;
  chosen = id_or t_rw a_rw;
  code = merged_free;
}
decide pro absent a_rw t_rw android tg = record {
  survivor = tg;
  loser = android;
  chosen = a_rw;
  code = linked;
}
decide free absent a_rw t_rw android tg = record {
  survivor = tg;
  loser = android;
  chosen = a_rw;
  code = linked;
}
decide absent pro a_rw t_rw android tg = record {
  survivor = tg;
  loser = android;
  chosen = t_rw;
  code = linked;
}
decide absent free a_rw t_rw android tg = record {
  survivor = tg;
  loser = android;
  chosen = t_rw;
  code = linked;
}
decide absent absent a_rw t_rw android tg = record {
  survivor = tg;
  loser = android;
  chosen = none;
  code = linked;
}

-- The tiers in the order of their worth.
abbrev pub rank : Tier → ℕ
rank absent = 0
rank free = 1
rank pro = 2
