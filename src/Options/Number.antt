-- ===== src/Options/Number.antt =====
-- `SizeStr2Number` of src/util.cpp.
pub mod Digits
pub mod Laws
use fuse_cpp_ramfs.Base.{
  ℕ, ◌-◌, ◌^◌, Bool, Option, none, some, List, [], ◌∷◌, ◌||◌, ◌==◌, ltb, if◌then◌else◌, take, add64,
  mul64, Name,
}
use mathlib.Core.List.{reverse}
use mathlib.Core.Option

-- `c >= '0' && c <= '9'`, negated.
abbrev pub not_digit : ℕ → Bool
not_digit c = ltb c b'0' || ltb b'9' c

-- The unit that a letter stands for.
unfoldable pub unit_of : ℕ → Option ℕ
unit_of c =
    if c == b'k' || c == b'K'
    then some (2 ^ 10)
    else if c == b'm' || c == b'M'
    then some (2 ^ 20)
    else if c == b'g' || c == b'G'
    then some (2 ^ 30)
    else if c == b't' || c == b'T'
    then some (2 ^ 40)
    else if c == b'p' || c == b'P'
    then some (2 ^ 50)
    else if c == b'e' || c == b'E'
    then some (2 ^ 60)
    else none

-- The loop that gathers the number, over the characters from the last one to the first.
unfoldable pub gather : ℕ → List ℕ → ℕ → ℕ → ℕ
unfolding add64 mul64
gather unit [] size magnitude = mul64 size unit
gather unit (cur ∷ rest) size magnitude =
    if not_digit cur
    then 0
    else gather unit rest (add64 size (mul64 magnitude (cur - b'0'))) (mul64 magnitude 10)

-- The number, from the last character that is no space on: `with_it` are the characters of the
-- string from it to the front, and `others` those before it.
unfoldable pub from_unit : ℕ → List ℕ → List ℕ → ℕ
unfolding unit_of gather
from_unit uc with_it others =
    if not_digit uc
    then (elim (unit_of uc) [ none ↦ 0 | some unit ↦ gather unit others 0 1 ])
    else gather 1 with_it 0 1

-- The loop over the spaces, where it has left the string at its front: what stands before the
-- string in its buffer, the nearest first. `none` is that it leaves the buffer.
unfoldable pub before_string : List ℕ → Option ℕ
unfolding from_unit
before_string [] = none
before_string (c ∷ cs) = if c == b' ' then before_string cs else some (from_unit c [] [])

-- The loop over the spaces in the string.
unfoldable pub skip_spaces : List ℕ → List ℕ → Option ℕ
unfolding before_string from_unit
skip_spaces before [] = before_string before
skip_spaces before (c ∷ cs) =
    if c == b' ' then skip_spaces before cs else some (from_unit c (c ∷ cs) cs)

-- `SizeStr2Number`, of a string with what stands before it; `option_max` is `OPTION_MAX`.
unfoldable pub size_str_to_number : ℕ → List ℕ → Name → Option ℕ
unfolding skip_spaces
size_str_to_number option_max before str = skip_spaces before (reverse (take option_max str))
