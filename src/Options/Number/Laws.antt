-- ===== src/Options/Number/Laws.antt =====
-- What `SizeStr2Number` of src/util.cpp makes of a number with a unit.
use fuse_cpp_ramfs.Base.{
  ℕ, zero, suc, ◌+◌, ◌*◌, ◌%◌, ◌≤◌, ◌<◌, ◌≡◌, ◌∙◌, refl, ap, true, false, Option, none, some, List,
  [], ◌∷◌, ◌++◌, ◌==◌, length, replicate, take, word_mod, arith, inl, inr, Bool-cases,
  length-append, length-replicate,
}
use mathlib.Core.List.{
  reverse, reverse-cons, reverse-append, append-nil, append_assoc, reverse-reverse,
}
use mathlib.Core.Path.{ap₂, subst}
use fuse_cpp_ramfs.Options.Number.{
  not_digit, unit_of, gather, from_unit, skip_spaces, size_str_to_number,
}
use fuse_cpp_ramfs.Options.Number.Digits.{
  Digits, decimal, gather-backwards, backwards-reverse, Digits-reverse,
}

skip_spaces-replicate :
    (before : List ℕ) (n : ℕ) (cs : List ℕ)
    → skip_spaces before (replicate n b' ' ++ cs) ≡ skip_spaces before cs
unfolding skip_spaces
skip_spaces-replicate before zero cs = refl
skip_spaces-replicate before (suc n) cs = skip_spaces-replicate before n cs

replicate-snoc : (n c : ℕ) → replicate n c ++ c ∷ [] ≡ c ∷ replicate n c
replicate-snoc zero c = refl
replicate-snoc (suc n) c = ap (◌∷◌ c) (replicate-snoc n c)

reverse-replicate : (n c : ℕ) → reverse (replicate n c) ≡ replicate n c
reverse-replicate zero c = refl
reverse-replicate (suc n) c =
    reverse-cons c (replicate n c)
    ∙ ap (λ cs. cs ++ c ∷ []) (reverse-replicate n c)
    ∙ replicate-snoc n c

take_all : (n : ℕ) (xs : List ℕ) → length xs ≤ n → take n xs ≡ xs
take_all zero [] h = refl
take_all (suc n) [] h = refl
take_all zero (x ∷ xs) h = absurd (omega arith)
take_all (suc n) (x ∷ xs) h = ap (◌∷◌ x) (take_all n xs (omega arith))

-- The unit behind a number: a letter, or none.
abbrev pub suffix_text : Option ℕ → List ℕ
suffix_text none = []
suffix_text (some u) = u ∷ []

abbrev pub suffix_unit : Option ℕ → Option ℕ
suffix_unit none = some 1
suffix_unit (some u) = unit_of u

letter-not_digit :
    (u unit : ℕ) → unit_of u ≡ some unit → (not_digit u ≡ true) × ((u == b' ') ≡ false)
unfolding unit_of
letter-not_digit u unit h = ground arith

abbrev StartsInDigit : List ℕ → Type 0
StartsInDigit [] = ⊥
StartsInDigit (c ∷ cs) = not_digit c ≡ false

Digits-StartsInDigit : (cs rest : List ℕ) → Digits cs → 0 < length cs → StartsInDigit (cs ++ rest)
Digits-StartsInDigit [] rest d h = absurd (omega arith)
Digits-StartsInDigit (c ∷ cs) rest d h = d.0

length-reverse : (cs : List ℕ) → length (reverse cs) ≡ length cs
length-reverse [] = refl
length-reverse (c ∷ cs) =
    rw (reverse-cons c cs) (omega (arith, length-append (reverse cs) (c ∷ []), length-reverse cs))

-- The number, where the string ends in a unit or in none.
from_suffix :
    (before : List ℕ) (cs : List ℕ) (u : Option ℕ) (unit : ℕ)
    → suffix_unit u ≡ some unit
    → 0 < length cs
    → (u ≡ none → StartsInDigit cs)
    → skip_spaces before (suffix_text u ++ cs) ≡ some (gather unit cs 0 1)
unfolding skip_spaces from_unit
from_suffix before [] u unit e h d = absurd (omega arith)
from_suffix before (c ∷ cs) none unit e h d = ground (arith, d refl)
from_suffix before (c ∷ cs) (some u) unit e h d =
    let (letter, no_space) = letter-not_digit u unit e in
    rw no_space (rw letter (rw (e, from_unit)))

-- A string with a unit and spaces behind it, from the back.
from_back :
    (option_max : ℕ) (before : List ℕ) (cs : List ℕ) (u : Option ℕ) (n : ℕ)
    → length cs + 1 + n ≤ option_max
    → size_str_to_number option_max before (cs ++ suffix_text u ++ replicate n b' ')
      ≡ skip_spaces before (suffix_text u ++ reverse cs)
unfolding size_str_to_number
from_back option_max before cs u n h =
    ap (λ s. skip_spaces before (reverse s)) (take_all option_max _ fits)
    ∙ ap (skip_spaces before) (
        reverse-append (cs ++ suffix_text u) (replicate n b' ')
        ∙ ap₂ (λ x y. x ++ y) (reverse-replicate n b' ')
            (reverse-append cs (suffix_text u) ∙ ap (λ s. s ++ reverse cs) (one u)))
    ∙ skip_spaces-replicate before n (suffix_text u ++ reverse cs)
  where
    one : (v : Option ℕ) → reverse (suffix_text v) ≡ suffix_text v
    one none = refl
    one (some c) = refl

    short : (v : Option ℕ) → length (suffix_text v) ≤ 1
    short none = omega arith
    short (some c) = omega arith

    fits : length (cs ++ suffix_text u ++ replicate n b' ') ≤ option_max
    fits = omega (
      arith,
      length-append (cs ++ suffix_text u) (replicate n b' '),
      length-append cs (suffix_text u),
      length-replicate {A = ℕ} n b' ',
      short u,
    )

-- A decimal number of at least one digit, with a unit or none and any number of spaces behind it,
-- that with one more character is no longer than `OPTION_MAX`, is read as the product of the number
-- and the unit modulo 2^64.
pub size_str_to_number-decimal :
    (option_max : ℕ) (before ds : List ℕ) (u : Option ℕ) (unit n : ℕ)
    → Digits ds
    → 0 < length ds
    → suffix_unit u ≡ some unit
    → length ds + 1 + n ≤ option_max
    → size_str_to_number option_max before (ds ++ suffix_text u ++ replicate n b' ')
      ≡ some ((decimal 0 ds * unit) % word_mod)
size_str_to_number-decimal option_max before ds u unit n d pos e h =
    from_back option_max before ds u n h
    ∙ from_suffix before (reverse ds) u unit e (omega (arith, length-reverse ds)) (λ _.
      subst StartsInDigit (append-nil (reverse ds)) (
        Digits-StartsInDigit (reverse ds) [] (Digits-reverse ds d)
          (omega (arith, length-reverse ds))))
    ∙ ap some (
        gather-backwards unit (reverse ds) 0 1 (Digits-reverse ds d)
        ∙ ap (λ m. (m * unit) % word_mod)
            (omega (arith, backwards-reverse (reverse ds), ap (decimal 0) (reverse-reverse ds))))

gather-zero :
    (unit : ℕ) (xs : List ℕ) (c : ℕ) (ys : List ℕ) (size magnitude : ℕ)
    → not_digit c ≡ true
    → gather unit (xs ++ c ∷ ys) size magnitude ≡ 0
unfolding gather
gather-zero unit [] c ys size magnitude h = rw h
gather-zero unit (x ∷ xs) c ys size magnitude h = elim (Bool-cases (not_digit x)) [
  | inl e ↦ rw e
  | inr e ↦ rw e (gather-zero unit xs c ys _ _ h)
]

-- Where another character stands among or before the digits, the number is 0, whatever the unit.
pub size_str_to_number-malformed :
    (option_max : ℕ) (before xs : List ℕ) (c : ℕ) (ds : List ℕ) (u : Option ℕ) (unit n : ℕ)
    → not_digit c ≡ true
    → Digits ds
    → (u ≡ none → 0 < length ds)
    → suffix_unit u ≡ some unit
    → length (xs ++ c ∷ ds) + 1 + n ≤ option_max
    → size_str_to_number option_max before ((xs ++ c ∷ ds) ++ suffix_text u ++ replicate n b' ')
      ≡ some 0
size_str_to_number-malformed option_max before xs c ds u unit n foreign d pos e h =
    from_back option_max before (xs ++ c ∷ ds) u n h
    ∙ ap (λ s. skip_spaces before (suffix_text u ++ s)) split
    ∙ from_suffix before (reverse ds ++ c ∷ reverse xs) u unit e
        (omega (arith, length-append (reverse ds) (c ∷ reverse xs)))
        (λ k.
          Digits-StartsInDigit (reverse ds) (c ∷ reverse xs) (Digits-reverse ds d)
            (omega (arith, pos k, length-reverse ds)))
    ∙ ap some (gather-zero unit (reverse ds) c (reverse xs) 0 1 foreign)
  where
    split : reverse (xs ++ c ∷ ds) ≡ reverse ds ++ c ∷ reverse xs
    split =
        reverse-append xs (c ∷ ds)
        ∙ ap (λ s. s ++ reverse xs) (reverse-cons c ds)
        ∙ append_assoc (reverse ds) (c ∷ []) (reverse xs)
