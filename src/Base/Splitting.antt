-- ===== src/Base/Splitting.antt =====
-- Cutting a text at a separator, `str::split`.
use Prim.Native.Nat.{ℕ}
use mathlib.Core.Path.{◌≡◌, refl}
use mathlib.Core.Logic.{inl, inr}
use mathlib.Core.Bool.{Bool, true, not, ◌&&◌}
use mathlib.Core.List.{[], ◌∷◌, ◌++◌, List}
use native.Mathlib.Omega.{arith}
use addrsyncd.Base.Tests.{◌==◌, Bool-cases}
use addrsyncd.Base.Texts.{Text, split}

unfoldable pub lacks : ℕ → Text → Bool
lacks sep [] = true
lacks sep (c ∷ cs) = not (c == sep) && lacks sep cs

pub lacks-append : (sep : ℕ) (s t : Text) → lacks sep (s ++ t) ≡ (lacks sep s && lacks sep t)
unfolding lacks
lacks-append sep [] t = refl
lacks-append sep (c ∷ cs) t = ground (arith, lacks-append sep cs t)

-- There is always a first part.
pub split_cons : (sep : ℕ) (s : Text) → (a : Text) × (parts : List Text) × (split sep s ≡ a ∷ parts)
unfolding split
split_cons sep [] = ([], [], refl)
split_cons sep (c ∷ cs) =
    let (a, parts, e) = split_cons sep cs in
    elim (Bool-cases (c == sep)) [
      | inl here ↦ ([], split sep cs, rw here refl)
      | inr other ↦ (c ∷ a, parts, rw (other, e) refl)
    ]

pub split-append :
    (sep : ℕ) (s rest : Text)
    → lacks sep s ≡ true
    → split sep (s ++ (sep ∷ rest)) ≡ s ∷ split sep rest
unfolding split lacks
split-append sep [] rest h = ground arith
split-append sep (c ∷ cs) rest h = ground (arith, split-append sep cs rest)
