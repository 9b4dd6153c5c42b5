-- ===== src/Base/Strings.antt =====
-- Strings and the parts of them between the characters that are one delimiter.
use Prim.Native.Nat.{ℕ}
use mathlib.Core.Path.{◌≡◌, refl}
use mathlib.Core.Bool.{true, false}
use mathlib.Core.List.{List, [], ◌∷◌, ◌++◌}
use native.Mathlib.Omega.{arith}
use fuse_cpp_ramfs.Base.Tests.{◌==◌, if◌then◌else◌}
use fuse_cpp_ramfs.Base.Maps.{Name}

-- A character goes to the front of the first piece.
abbrev pub push : ℕ → List Name → List Name
push c [] = (c ∷ []) ∷ []
push c (p ∷ ps) = (c ∷ p) ∷ ps

-- The parts of a string between the characters that are `delim`.
unfoldable pub pieces : ℕ → Name → List Name
pieces delim [] = [] ∷ []
pieces delim (c ∷ cs) = if c == delim then [] ∷ pieces delim cs else push c (pieces delim cs)

-- The character is not in the string.
abbrev pub Without : ℕ → Name → Type 0
Without c [] = Unit
Without c (d ∷ ds) = ((d == c) ≡ false) × Without c ds

pub Without-append : (c : ℕ) (a b : Name) → Without c a → Without c b → Without c (a ++ b)
Without-append c [] b h k = k
Without-append c (d ∷ a) b h k = (h.0, Without-append c a b h.1 k)

pub pieces-Without : (c : ℕ) (s : Name) → Without c s → pieces c s ≡ s ∷ []
unfolding pieces
pieces-Without c [] h = refl
pieces-Without c (d ∷ ds) h = rw h.0 (rw (pieces-Without c ds h.1))

pub pieces-append : (c : ℕ) (a b : Name) → Without c a → pieces c (a ++ c ∷ b) ≡ a ∷ pieces c b
unfolding pieces
pieces-append c [] b h = rw (same_char c)
  where
    same_char : (n : ℕ) → (n == n) ≡ true
    same_char n = ground arith
pieces-append c (d ∷ ds) b h = rw h.0 (rw (pieces-append c ds b h.1))
