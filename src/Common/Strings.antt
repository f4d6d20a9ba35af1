-- ===== src/Common/Strings.antt =====
-- `strings.Contains`, on the bytes of the two strings.
use mathlib.Core.Path.{◌≡◌, refl}
use mathlib.Core.Bool.{Bool, true, false, ◌&&◌, ◌||◌}
use mathlib.Core.List.{[], ◌∷◌, ◌++◌}
use native.Mathlib.Omega.{arith}
use mx_chain_communication_g.Common.Keys.{Bytes}
use mx_chain_communication_g.Common.Tests.{◌==◌}

unfoldable pub starts_with : Bytes → Bytes → Bool
starts_with s [] = true
starts_with [] (p ∷ ps) = false
starts_with (c ∷ s) (p ∷ ps) = c == p && starts_with s ps

unfoldable pub contains : Bytes → Bytes → Bool
unfolding starts_with
contains [] sub = starts_with [] sub
contains (c ∷ s) sub = starts_with (c ∷ s) sub || contains s sub

starts_with-append : (p s : Bytes) → starts_with (p ++ s) p ≡ true
unfolding starts_with
starts_with-append [] s = refl
starts_with-append (c ∷ p) s = ground (arith, starts_with-append p s)

pub contains-append : (p s : Bytes) → contains (p ++ s) p ≡ true
unfolding contains
contains-append [] [] = refl
contains-append [] (c ∷ s) = refl
contains-append (c ∷ p) s = ground (arith, starts_with-append p s)

-- A string is contained wherever it occurs.
pub contains-middle : (a p s : Bytes) → contains (a ++ (p ++ s)) p ≡ true
unfolding contains
contains-middle [] p s = contains-append p s
contains-middle (c ∷ a) p s = ground (arith, contains-middle a p s)
