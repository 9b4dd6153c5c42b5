-- ===== src/Base/Maps.antt =====
-- Byte strings (`std::string`) and the ordered map `std::map<std::string, V>` as the list of its
-- entries in iteration order.
use Prim.Native.Nat.{ℕ}
use mathlib.Core.Path.{◌≡◌, refl}
use mathlib.Core.Logic.{◌↔◌, inl, inr}
use mathlib.Core.Bool.{Bool, true, false, ◌&&◌, ◌||◌}
use mathlib.Core.Option.{Option, none, some}
use mathlib.Core.List.{List, [], ◌∷◌}
use native.Mathlib.Omega.{arith}
use fuse_cpp_ramfs.Base.Tests.{ltb, ◌==◌, if◌then◌else◌, Bool-cases}

-- The bytes of a string, without the terminating zero.
abbrev pub Name : Type 0
Name = List ℕ

unfoldable pub name_eq : Name → Name → Bool
name_eq [] [] = true
name_eq (x ∷ xs) (y ∷ ys) = x == y && name_eq xs ys
name_eq _ _ = false

-- `std::less<std::string>`: the lexicographic order of the bytes.
unfoldable pub name_lt : Name → Name → Bool
name_lt [] [] = false
name_lt [] (y ∷ ys) = true
name_lt (x ∷ xs) [] = false
name_lt (x ∷ xs) (y ∷ ys) = ltb x y || (x == y && name_lt xs ys)

pub name_eq_iff : (a b : Name) → (name_eq a b ≡ true) ↔ (a ≡ b)
unfolding name_eq
name_eq_iff [] [] = ground arith
name_eq_iff [] (y ∷ ys) = ground arith
name_eq_iff (x ∷ xs) [] = ground arith
name_eq_iff (x ∷ xs) (y ∷ ys) = ground (arith, name_eq_iff xs ys)

pub name_eq_refl : (a : Name) → name_eq a a ≡ true
name_eq_refl a = (name_eq_iff a a).1 refl

pub name_lt_trans : (a b c : Name) → name_lt a b ≡ true → name_lt b c ≡ true → name_lt a c ≡ true
unfolding name_lt
name_lt_trans [] [] c h k = cc
name_lt_trans [] (y ∷ ys) [] h k = cc
name_lt_trans [] (y ∷ ys) (z ∷ zs) h k = refl
name_lt_trans (x ∷ xs) [] c h k = cc
name_lt_trans (x ∷ xs) (y ∷ ys) [] h k = cc
name_lt_trans (x ∷ xs) (y ∷ ys) (z ∷ zs) h k = ground (arith, name_lt_trans xs ys zs)

pub name_lt_ne : (a b : Name) → name_lt a b ≡ true → name_eq a b ≡ false
unfolding name_lt name_eq
name_lt_ne [] [] h = cc
name_lt_ne [] (y ∷ ys) h = refl
name_lt_ne (x ∷ xs) [] h = cc
name_lt_ne (x ∷ xs) (y ∷ ys) h = ground (arith, name_lt_ne xs ys)

pub name_lt_total : (a b : Name) → name_eq a b ≡ false → name_lt a b ≡ false → name_lt b a ≡ true
unfolding name_lt name_eq
name_lt_total [] [] e h = cc
name_lt_total [] (y ∷ ys) e h = cc
name_lt_total (x ∷ xs) [] e h = refl
name_lt_total (x ∷ xs) (y ∷ ys) e h = ground (arith, name_lt_total xs ys)

abbrev pub Map {ℓ} : Type ℓ → Type ℓ
Map V = List (Name × V)

module _ {ℓ} {V : Type ℓ} where
  -- `m.find(k)`
  unfoldable pub lookup : Name → Map V → Option V
  lookup k [] = none
  lookup k ((j, v) ∷ m) = if name_eq k j then some v else lookup k m

  -- `m[k] = v`
  unfoldable pub insert : Name → V → Map V → Map V
  insert k v [] = (k, v) ∷ []
  insert k v ((j, w) ∷ m) =
      if name_eq k j
      then (k, v) ∷ m
      else if name_lt k j
      then (k, v) ∷ (j, w) ∷ m
      else (j, w) ∷ insert k v m

  -- `m.erase(m.find(k))`
  unfoldable pub erase : Name → Map V → Map V
  erase k [] = []
  erase k ((j, w) ∷ m) = if name_eq k j then m else (j, w) ∷ erase k m

  -- The key stands before every key of the map.
  abbrev pub Above : Name → Map V → Type 0
  Above k [] = Unit
  Above k ((j, w) ∷ m) = (name_lt k j ≡ true) × Above k m

  -- The entries stand in the order of their keys, and no key stands twice.
  abbrev pub IsMap : Map V → Type 0
  IsMap [] = Unit
  IsMap ((k, v) ∷ m) = Above k m × IsMap m

  pub lookup-insert :
      (k j : Name) (v : V) (m : Map V)
      → lookup j (insert k v m) ≡ (if name_eq j k then some v else lookup j m)
  unfolding lookup insert
  lookup-insert k j v [] = refl
  lookup-insert k j v ((i, w) ∷ m) = ground (
    arith,
    name_eq_iff k j,
    name_eq_iff j k,
    name_eq_iff k i,
    name_eq_iff j i,
    lookup-insert k j v m,
  )

  pub lookup-erase_ne :
      (k j : Name) (m : Map V) → name_eq j k ≡ false → lookup j (erase k m) ≡ lookup j m
  unfolding lookup erase
  lookup-erase_ne k j [] h = refl
  lookup-erase_ne k j ((i, w) ∷ m) h =
      ground (arith, name_eq_iff j k, name_eq_iff k i, name_eq_iff j i, lookup-erase_ne k j m h)

  pub Above-trans : (i k : Name) (m : Map V) → name_lt i k ≡ true → Above k m → Above i m
  Above-trans i k [] h a = tt
  Above-trans i k ((j, w) ∷ m) h a = (name_lt_trans i k j h a.0, Above-trans i k m h a.1)

  pub lookup-Above : (k : Name) (m : Map V) → Above k m → lookup k m ≡ none
  unfolding lookup
  lookup-Above k [] a = refl
  lookup-Above k ((j, w) ∷ m) a = ground (arith, name_lt_ne k j, lookup-Above k m a.1)

  insert-Above :
      (i k : Name) (v : V) (m : Map V) → name_lt i k ≡ true → Above i m → Above i (insert k v m)
  unfolding insert
  insert-Above i k v [] h a = (h, tt)
  insert-Above i k v ((j, w) ∷ m) h a = elim (Bool-cases (name_eq k j)) [
    | inl e ↦ rw e (h, a.1)
    | inr e ↦ rw e (elim (Bool-cases (name_lt k j)) [
      | inl l ↦ rw l (h, a)
      | inr l ↦ rw l (a.0, insert-Above i k v m h a.1)
    ])
  ]

  pub insert-IsMap : (k : Name) (v : V) (m : Map V) → IsMap m → IsMap (insert k v m)
  unfolding insert
  insert-IsMap k v [] h = (tt, tt)
  insert-IsMap k v ((j, w) ∷ m) h = elim (Bool-cases (name_eq k j)) [
    | inl e ↦ rw (e, (name_eq_iff k j).0 e) h
    | inr e ↦ rw e (elim (Bool-cases (name_lt k j)) [
      | inl l ↦ rw l ((l, Above-trans k j m l h.0), h)
      | inr l ↦ rw l (insert-Above j k v m (name_lt_total k j e l) h.0, insert-IsMap k v m h.1)
    ])
  ]

  erase-Above : (i k : Name) (m : Map V) → Above i m → Above i (erase k m)
  unfolding erase
  erase-Above i k [] a = tt
  erase-Above i k ((j, w) ∷ m) a = elim (Bool-cases (name_eq k j)) [
    | inl e ↦ rw e a.1
    | inr e ↦ rw e (a.0, erase-Above i k m a.1)
  ]

  pub erase-IsMap : (k : Name) (m : Map V) → IsMap m → IsMap (erase k m)
  unfolding erase
  erase-IsMap k [] h = tt
  erase-IsMap k ((j, w) ∷ m) h = elim (Bool-cases (name_eq k j)) [
    | inl e ↦ rw e h.1
    | inr e ↦ rw e (erase-Above j k m h.0, erase-IsMap k m h.1)
  ]

  pub lookup-erase_self : (k : Name) (m : Map V) → IsMap m → lookup k (erase k m) ≡ none
  unfolding lookup erase
  lookup-erase_self k [] h = refl
  lookup-erase_self k ((j, w) ∷ m) h =
      ground (arith, name_eq_iff k j, lookup-Above k m, lookup-erase_self k m h.1)

  -- Taking out a new entry gives the map back.
  pub erase-insert : (k : Name) (v : V) (m : Map V) → lookup k m ≡ none → erase k (insert k v m) ≡ m
  unfolding lookup insert erase
  erase-insert k v [] h = rw (name_eq_refl k)
  erase-insert k v ((j, w) ∷ m) h =
      ground (arith, name_eq_refl k, name_eq_iff k j, erase-insert k v m)
