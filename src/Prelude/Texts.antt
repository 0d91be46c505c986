-- ===== src/Prelude/Texts.antt =====
-- Text that the program walks: a list of code points.
use Prim.Native.Char.{code}
use Prim.Native.Nat.{ℕ, suc, zero}
use Prim.Native.String.{String}
use mathlib.Core.Path.{◌≡◌, refl}
use mathlib.Core.Logic.{◌↔◌, ◌≢◌}
use mathlib.Core.Bool.{Bool, true, false, ◌&&◌, ◌||◌}
use mathlib.Core.Option.{Option, none, some}
use mathlib.Core.List.{List, [], ◌∷◌, ◌++◌}
use native.Mathlib.Omega.{arith}
use xray_vpn_bot.Prelude.Tests.{◌==◌, if◌then◌else◌}
use xray_vpn_bot.Prelude.Lists.{All}

abbrev pub Text : Type 0
Text = List ℕ

abbrev pub codes : String → Text
codes String.[] = []
codes (String.◌∷◌ c s) = code c ∷ codes s

abbrev pub text_eq : Text → Text → Bool
text_eq [] [] = true
text_eq [] (y ∷ ys) = false
text_eq (x ∷ xs) [] = false
text_eq (x ∷ xs) (y ∷ ys) = x == y && text_eq xs ys

-- s.startswith(prefix)
abbrev pub starts_with : Text → Text → Bool
starts_with s [] = true
starts_with [] (p ∷ ps) = false
starts_with (c ∷ s) (p ∷ ps) = c == p && starts_with s ps

-- `needle in s`
abbrev pub contains : Text → Text → Bool
contains needle [] = starts_with [] needle
contains needle (c ∷ s) = starts_with (c ∷ s) needle || contains needle s

-- s.partition(sep): what stands before the first separator, and after it if there is one
abbrev pub partition : ℕ → Text → Text × Option Text
partition sep [] = ([], none)
partition sep (c ∷ s) =
    let rest = partition sep s in if c == sep then ([], some s) else (c ∷ rest.0, rest.1)

-- s.split(sep, limit)
abbrev pub split : ℕ → ℕ → Text → List Text
split sep zero s = s ∷ []
split sep (suc limit) s = elim (partition sep s).1 [
  | none ↦ (partition sep s).0 ∷ []
  | some rest ↦ (partition sep s).0 ∷ split sep limit rest
]

pub text_eq_iff : (s t : Text) → (text_eq s t ≡ true) ↔ (s ≡ t)
text_eq_iff [] [] = ground arith
text_eq_iff [] (y ∷ ys) = ground arith
text_eq_iff (x ∷ xs) [] = ground arith
text_eq_iff (x ∷ xs) (y ∷ ys) = ground (arith, text_eq_iff xs ys)

-- A text without the separator, followed by one, is cut there.
pub partition-append :
    (sep : ℕ) (s rest : Text)
    → All (λ c. c ≢ sep) s
    → partition sep (s ++ sep ∷ rest) ≡ (s, some rest)
partition-append sep [] rest h = ground arith
partition-append sep (c ∷ s) rest h = ground (arith, partition-append sep s rest h.1)

pub starts_with-append : (p s : Text) → starts_with (p ++ s) p ≡ true
starts_with-append [] s = refl
starts_with-append (c ∷ p) s = ground (arith, starts_with-append p s)

pub contains-append_left : (p s : Text) → contains p (p ++ s) ≡ true
contains-append_left [] [] = refl
contains-append_left [] (c ∷ s) = refl
contains-append_left (c ∷ p) s = ground (arith, starts_with-append p s)
