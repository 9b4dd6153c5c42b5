-- ===== src/Options/Parse/Fits.antt =====
-- The new buffer of `ramfs_parse_options` in src/util.cpp is large enough.
use fuse_cpp_ramfs.Base.{pieces, push}
use fuse_cpp_ramfs.Base.{
  ℕ, zero, suc, ◌+◌, ◌≤◌, ◌<◌, ◌≡◌, ◌≢◌, refl, ap, Bool, true, false, Option, none, some, List, [],
  ◌∷◌, ◌++◌, length, take, ◌==◌, if◌then◌else◌, Name, arith, inl, inr, Bool-cases, length-append,
  length-take,
}
use mathlib.Core.List.{reverse}
use mathlib.Core.Path.{subst}
use fuse_cpp_ramfs.Memory.{spliced, splice-spliced, length-spliced}
use fuse_cpp_ramfs.Options.{
  FuseRamfsOptions, Result, done, fault, freed_access, unfinished, exit, ◌>>=◌, found,
}
use fuse_cpp_ramfs.Options.Number.{from_unit, skip_spaces, size_str_to_number}
use fuse_cpp_ramfs.Options.Parse.{
  Out, nonempty, tokens, put, value_of, copied, set_capacity, set_inodes, take_option, next,
  take_token, take_tokens, same, size_key, inodes_key, subtype_key,
}

-- The characters of the parts, with one more for each.
unfoldable pub total : List Name → ℕ
total [] = 0
total (p ∷ ps) = suc (length p) + total ps

pub total-append : (ts us : List Name) → total (ts ++ us) ≡ total ts + total us
unfolding total
total-append [] us = omega arith
total-append (t ∷ ts) us = omega (arith, total-append ts us)

total-push : (c : ℕ) (ps : List Name) → 0 < total ps → total (push c ps) ≡ suc (total ps)
unfolding total
total-push c [] h = absurd (omega arith)
total-push c (p ∷ ps) h = omega arith

total-pieces : (delim : ℕ) (str : Name) → total (pieces delim str) ≡ suc (length str)
unfolding total pieces
total-pieces delim [] = refl
total-pieces delim (c ∷ cs) = elim (Bool-cases (c == delim)) [
  | inl e ↦ rw e (omega (arith, total-pieces delim cs))
  | inr e ↦ rw e (
      omega (
        arith,
        total-push c (pieces delim cs) (omega (arith, total-pieces delim cs)),
        total-pieces delim cs,
      ))
]

total-nonempty : (ps : List Name) → total (nonempty ps) ≤ total ps
unfolding total nonempty
total-nonempty [] = omega arith
total-nonempty ([] ∷ ps) = omega (arith, total-nonempty ps)
total-nonempty ((c ∷ p) ∷ ps) = omega (arith, total-nonempty ps)

pub total-tokens : (delim : ℕ) (str : Name) → total (tokens delim str) ≤ suc (length str)
unfolding tokens
total-tokens delim str = omega (arith, total-pieces delim str, total-nonempty (pieces delim str))

-- What is copied of an option is no longer than its token and one more character.
pub length-copied :
    (option_max : ℕ) (key : Name) (rest : List Name)
    → length (copied option_max key (value_of rest)) ≤ total (key ∷ rest)
unfolding total copied
length-copied option_max key [] =
    omega (arith, length-append (take option_max key) (b',' ∷ []), length-take option_max key)
length-copied option_max key (v ∷ vs) = omega (
  arith,
  length-append (take option_max key) (b'=' ∷ (take option_max v ++ b',' ∷ [])),
  length-take option_max key,
  length-append (take option_max v) (b',' ∷ []),
  length-take option_max v,
)

-- Every option has a key.
abbrev pub Keyed : List Name → Type 0
Keyed [] = Unit
Keyed (t ∷ ts) = (tokens b'=' t ≢ []) × Keyed ts

-- The options are read, and the buffer is written up to at most `m` further characters.
abbrev pub Fits : ℕ → ℕ → ℕ → Result (FuseRamfsOptions × Out) → Type 0
Fits size ptr m (done (opt, (buf, ptr'))) = (length buf ≡ size) × (ptr ≤ ptr') × (ptr' ≤ ptr + m)
Fits size ptr m fault = ⊥
Fits size ptr m freed_access = ⊥
Fits size ptr m unfinished = ⊥
Fits size ptr m (exit n) = ⊥

pub put_fits :
    (bytes buf : List ℕ) (ptr : ℕ)
    → ptr + length bytes ≤ length buf
    → put bytes (buf, ptr) ≡ done (spliced ptr bytes buf, ptr + length bytes)
unfolding put
put_fits bytes buf ptr h = rw (splice-spliced ptr bytes buf h, put)

skip_spaces_found : (cs : List ℕ) → (n : ℕ) × (skip_spaces (0 ∷ []) cs ≡ some n)
unfolding skip_spaces
skip_spaces_found [] = (from_unit 0 [] [], refl)
skip_spaces_found (c ∷ cs) = elim (Bool-cases (c == b' ')) [
  | inl e ↦ rw e (skip_spaces_found cs)
  | inr e ↦ rw e (from_unit c (c ∷ cs) cs, refl)
]

-- The value of an option is always read.
number_found :
    (option_max : ℕ) (v : Name) → (n : ℕ) × (size_str_to_number option_max (0 ∷ []) v ≡ some n)
unfolding size_str_to_number
number_found option_max v = skip_spaces_found (reverse (take option_max v))

module _ (option_max : ℕ) (opt : FuseRamfsOptions) (buf : List ℕ) (ptr m : ℕ) where
  set_capacity-Fits :
      (v : Option Name)
      → Fits (length buf) ptr m (set_capacity option_max opt v >>= λ opt'. done (opt', (buf, ptr)))
  unfolding set_capacity
  set_capacity-Fits none = (refl, omega arith, omega arith)
  set_capacity-Fits (some v) =
      let (n, e) = number_found option_max v in rw (e, found) (refl, omega arith, omega arith)

  set_inodes-Fits :
      (v : Option Name)
      → Fits (length buf) ptr m (set_inodes option_max opt v >>= λ opt'. done (opt', (buf, ptr)))
  unfolding set_inodes
  set_inodes-Fits none = (refl, omega arith, omega arith)
  set_inodes-Fits (some v) =
      let (n, e) = number_found option_max v in rw (e, found) (refl, omega arith, omega arith)

  put-Fits :
      (bytes : List ℕ)
      → length bytes ≤ m
      → ptr + m ≤ length buf
      → Fits (length buf) ptr m (put bytes (buf, ptr) >>= λ out'. done (opt, out'))
  put-Fits bytes h k =
      rw (put_fits bytes buf ptr (omega arith))
        (length-spliced ptr bytes buf (omega arith), omega arith, omega arith)

Fits-if :
    (size ptr m : ℕ) (b : Bool) (x y : Result (FuseRamfsOptions × Out))
    → Fits size ptr m x
    → Fits size ptr m y
    → Fits size ptr m (if b then x else y)
Fits-if size ptr m true x y p q = p
Fits-if size ptr m false x y p q = q

take_option-Fits :
    (option_max : ℕ) (key : Name) (rest : List Name) (opt : FuseRamfsOptions) (buf : List ℕ)
    (ptr m : ℕ)
    → total (key ∷ rest) ≤ m
    → ptr + m ≤ length buf
    → Fits (length buf) ptr m (take_option option_max key (value_of rest) opt (buf, ptr))
unfolding take_option
take_option-Fits option_max key rest opt buf ptr m h k =
    Fits-if (length buf) ptr m (same option_max key size_key) _ _
      (set_capacity-Fits option_max opt buf ptr m (value_of rest))
      (Fits-if (length buf) ptr m (same option_max key inodes_key) _ _
        (set_inodes-Fits option_max opt buf ptr m (value_of rest))
        (Fits-if (length buf) ptr m (same option_max key subtype_key) _ _
          (refl, omega arith, omega arith)
          (put-Fits option_max opt buf ptr m (copied option_max key (value_of rest))
            (omega (arith, length-copied option_max key rest)) k)))

-- The tokens are no more than their characters.
pub length-total : (ts : List Name) → length ts ≤ total ts
unfolding total
length-total [] = omega arith
length-total (t ∷ ts) = omega (arith, length-total ts)

weaken :
    (size p p' a b : ℕ) (r : Result (FuseRamfsOptions × Out))
    → Fits size p' b r
    → p ≤ p'
    → p' ≤ p + a
    → Fits size p (a + b) r
weaken size p p' a b (done (o, (buf', q))) f l u = (f.0, omega arith, omega arith)
weaken size p p' a b fault f l u = f
weaken size p p' a b freed_access f l u = f
weaken size p p' a b unfinished f l u = f
weaken size p p' a b (exit n) f l u = f

-- An option that fits, and then others that fit.
then-Fits :
    (size ptr a b : ℕ) (ts : List Name)
    (k : List Name → FuseRamfsOptions → Out → Result (FuseRamfsOptions × Out))
    → ((opt' : FuseRamfsOptions) (buf' : List ℕ) (ptr' : ℕ)
        → length buf' ≡ size
        → ptr' ≤ ptr + a
        → Fits size ptr' b (k ts opt' (buf', ptr')))
    → (r : Result (FuseRamfsOptions × Out)) → Fits size ptr a r
    → Fits size ptr (a + b) (next ts r >>= λ s. k s.0 s.1.0 s.1.1)
then-Fits size ptr a b ts k ih (done (opt', (buf', ptr'))) f =
    weaken size ptr ptr' a b _ (ih opt' buf' ptr' f.0 f.2) f.1 f.2
then-Fits size ptr a b ts k ih fault f = f
then-Fits size ptr a b ts k ih freed_access f = f
then-Fits size ptr a b ts k ih unfinished f = f
then-Fits size ptr a b ts k ih (exit n) f = f

pub keyed-cases :
    (t : Name)
    → tokens b'=' t ≢ []
    → (key : Name) × (rest : List Name) × (tokens b'=' t ≡ key ∷ rest)
keyed-cases t keyed = split (tokens b'=' t) refl
  where
    split :
        (ts : List Name)
        → tokens b'=' t ≡ ts
        → (key : Name) × (rest : List Name) × (tokens b'=' t ≡ key ∷ rest)
    split [] e = absurd (keyed e)
    split (key ∷ rest) e = (key, rest, e)

-- An option with a key, read from its token.
pub take_keyed-Fits :
    (option_max : ℕ) (t key : Name) (rest : List Name) (opt : FuseRamfsOptions) (size : ℕ)
    (buf : List ℕ) (ptr : ℕ)
    → tokens b'=' t ≡ key ∷ rest
    → length buf ≡ size
    → ptr + suc (length t) ≤ size
    → Fits size ptr (suc (length t)) (take_option option_max key (value_of rest) opt (buf, ptr))
take_keyed-Fits option_max t key rest opt size buf ptr e sized h =
    subst
      (λ n. Fits n ptr (suc (length t)) (take_option option_max key (value_of rest) opt (buf, ptr)))
      sized
      (take_option-Fits option_max key rest opt buf ptr (suc (length t))
        (omega (arith, ap total e, total-tokens b'=' t)) (omega arith))

pub take_tokens-Fits :
    (rounds option_max : ℕ) (ts : List Name) (opt : FuseRamfsOptions) (size : ℕ) (buf : List ℕ)
    (ptr : ℕ)
    → Keyed ts
    → length ts < rounds
    → length buf ≡ size
    → ptr + total ts ≤ size
    → Fits size ptr (total ts) (take_tokens rounds option_max ts opt (buf, ptr))
unfolding take_tokens take_token total
take_tokens-Fits zero option_max ts opt size buf ptr keyed more sized h = absurd (omega arith)
take_tokens-Fits (suc rounds) option_max [] opt size buf ptr keyed more sized h =
    (sized, omega arith, omega arith)
take_tokens-Fits (suc rounds) option_max (t ∷ ts) opt size buf ptr keyed more sized h =
    let (key, rest, e) = keyed-cases t keyed.0 in
    rw (e, take_token)
      (then-Fits size ptr (suc (length t)) (total ts) ts (take_tokens rounds option_max)
        (λ opt' buf' ptr' sized' near.
          take_tokens-Fits rounds option_max ts opt' size buf' ptr' keyed.1 (omega arith) sized'
            (omega arith))
        (take_option option_max key (value_of rest) opt (buf, ptr))
        (take_keyed-Fits option_max t key rest opt size buf ptr e sized (omega arith)))
