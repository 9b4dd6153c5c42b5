-- ===== src/Options/Number/Digits.antt =====
-- The loop of `SizeStr2Number` of src/util.cpp over the digits of a number.
use fuse_cpp_ramfs.Base.{
  ℕ, ◌+◌, ◌-◌, ◌*◌, ◌%◌, ◌≡◌, ◌∙◌, refl, ap, false, List, [], ◌∷◌, ◌++◌, add64, mul64, word_mod,
  arith,
}
use mathlib.Core.List.{reverse, reverse-cons}
use native.Mathlib.Nat.{div-add-mod}
use fuse_cpp_ramfs.Options.Number.{not_digit, gather}

-- All characters are digits.
abbrev pub Digits : List ℕ → Type 0
Digits [] = Unit
Digits (c ∷ cs) = (not_digit c ≡ false) × Digits cs

-- The number that digits stand for, read from the front.
unfoldable pub decimal : ℕ → List ℕ → ℕ
decimal n [] = n
decimal n (c ∷ cs) = decimal (n * 10 + (c - b'0')) cs

-- The same, read from the back: the digits are in the opposite order.
pub backwards : List ℕ → ℕ
backwards [] = 0
backwards (c ∷ cs) = (c - b'0') + 10 * backwards cs

-- Wrapping a term before a product changes nothing modulo 2^64.
wrap_sum : (a b u : ℕ) → ((a % word_mod + b) * u) % word_mod ≡ ((a + b) * u) % word_mod
wrap_sum a b u = omega (arith, ap (λ (t : ℕ). t * u) (div-add-mod a word_mod))

wrap_product :
    (s m b u : ℕ) → ((s + (m % word_mod) * b) * u) % word_mod ≡ ((s + m * b) * u) % word_mod
wrap_product s m b u = omega (arith, ap (λ (t : ℕ). t * b * u) (div-add-mod m word_mod))

pub gather-backwards :
    (unit : ℕ) (cs : List ℕ) (size magnitude : ℕ)
    → Digits cs
    → gather unit cs size magnitude ≡ ((size + magnitude * backwards cs) * unit) % word_mod
unfolding gather backwards add64 mul64
gather-backwards unit [] size magnitude h = ap (λ t. (t * unit) % word_mod) (omega arith)
gather-backwards unit (c ∷ cs) size magnitude h = rw h.0 (
    gather-backwards unit cs (add64 size (mul64 magnitude (c - b'0'))) (mul64 magnitude 10) h.1
    ∙ wrap_product (add64 size (mul64 magnitude (c - b'0'))) (magnitude * 10) (backwards cs) unit
    ∙ wrap_sum (size + mul64 magnitude (c - b'0')) (magnitude * 10 * backwards cs) unit
    ∙ ap (λ t. (t * unit) % word_mod) (omega arith)
    ∙ wrap_sum (magnitude * (c - b'0')) (size + magnitude * 10 * backwards cs) unit
    ∙ ap (λ t. (t * unit) % word_mod) (omega arith))

decimal-append :
    (n : ℕ) (xs : List ℕ) (c : ℕ) → decimal n (xs ++ c ∷ []) ≡ decimal n xs * 10 + (c - b'0')
unfolding decimal
decimal-append n [] c = refl
decimal-append n (x ∷ xs) c = decimal-append (n * 10 + (x - b'0')) xs c

pub backwards-reverse : (cs : List ℕ) → backwards cs ≡ decimal 0 (reverse cs)
unfolding backwards decimal
backwards-reverse [] = refl
backwards-reverse (c ∷ cs) =
    rw (reverse-cons c cs)
      (rw (decimal-append 0 (reverse cs) c) (omega (arith, backwards-reverse cs)))

Digits-append : (xs ys : List ℕ) → Digits xs → Digits ys → Digits (xs ++ ys)
Digits-append [] ys h k = k
Digits-append (x ∷ xs) ys h k = (h.0, Digits-append xs ys h.1 k)

pub Digits-reverse : (xs : List ℕ) → Digits xs → Digits (reverse xs)
Digits-reverse [] h = tt
Digits-reverse (x ∷ xs) h =
    rw (reverse-cons x xs) (Digits-append (reverse xs) (x ∷ []) (Digits-reverse xs h.1) (h.0, tt))
