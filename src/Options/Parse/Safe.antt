-- ===== src/Options/Parse/Safe.antt =====
-- `ramfs_parse_options` of src/util.cpp on a string that begins with switches.
use fuse_cpp_ramfs.Base.{
  ℕ, zero, suc, ◌+◌, ◌-◌, ◌≤◌, ◌<◌, ◌≡◌, ◌∙◌, ◌⊎◌, refl, ap, some, List, [], ◌∷◌, length, set,
  get_elem?, ◌==◌, if◌then◌else◌, min, Name, arith, inl, inr, Bool-cases, Option-cases, length-set,
}
use fuse_cpp_ramfs.Memory.{spliced, length-spliced}
use fuse_cpp_ramfs.Options.{
  FuseRamfsOptions, Result, done, fault, freed_access, unfinished, exit, ◌>>=◌, ◌>>◌, found,
}
use fuse_cpp_ramfs.Options.Parse.{
  Out, tokens, put, switches, prefix_of, verify, last_byte, erase_switch, parse_rounds,
  parse_options,
}
use fuse_cpp_ramfs.Options.Parse.Fits.{
  Keyed, Fits, put_fits, total, total-tokens, length-total, take_tokens-Fits,
}

-- A capacity and a number of inodes that the file system can start with; zero stands for the
-- default.
abbrev pub Usable : FuseRamfsOptions → Type 0
Usable opt = ((opt.capacity ≡ 0) ⊎ (1024 ≤ opt.capacity)) × ((opt.inodes ≡ 0) ⊎ (2 ≤ opt.inodes))

-- The options are read into usable values and a buffer of this size, or the process ends with 1.
abbrev pub Parsed : ℕ → Result (List ℕ × FuseRamfsOptions) → Type 0
Parsed size (done (buf, opt)) = (length buf ≡ size) × Usable opt
Parsed size (exit n) = n ≡ 1
Parsed size fault = ⊥
Parsed size freed_access = ⊥
Parsed size unfinished = ⊥

length-switches :
    (s front rest : Name)
    → switches s ≡ some (front, rest)
    → (length front + length rest ≡ length s) × (1 ≤ length front)
unfolding switches
length-switches [] front rest h = cc
length-switches (c ∷ cs) front rest h = elim (Option-cases (switches cs)) [
  | inl e ↦ ground (arith, e, h)
  | inr ((f, r), e) ↦ ground (arith, e, h, length-switches cs f r e)
]

pub length-prefix_of :
    (s front rest : Name)
    → prefix_of s ≡ some (front, rest)
    → (length front + length rest ≡ length s) × (0 < length front → 2 ≤ length front)
unfolding prefix_of
length-prefix_of [] front rest h = ground arith
length-prefix_of (c ∷ cs) front rest h = elim (Bool-cases (c == b'-')) [
  | inl e ↦ elim (Option-cases (switches cs)) [
    | inl f ↦ ground (arith, e, f, h)
    | inr ((front', rest'), f) ↦ ground (arith, e, f, h, length-switches cs front' rest' f)
  ]
  | inr e ↦ ground (arith, e, h)
]

get_elem_found : (xs : List ℕ) (n : ℕ) → n < length xs → (c : ℕ) × (get_elem? xs n ≡ some c)
get_elem_found [] n h = absurd (omega arith)
get_elem_found (x ∷ xs) zero h = (x, refl)
get_elem_found (x ∷ xs) (suc n) h = get_elem_found xs n (omega arith)

-- Where two characters have been written, the erasure of the switch stays in the buffer.
erase_switch-length :
    (buf : List ℕ) (ptr : ℕ)
    → 2 ≤ ptr
    → ptr ≤ length buf
    → (buf' : List ℕ) × (erase_switch (buf, ptr) ≡ done buf') × (length buf' ≡ length buf)
unfolding erase_switch last_byte
erase_switch-length buf zero h k = absurd (omega arith)
erase_switch-length buf (suc zero) h k = absurd (omega arith)
erase_switch-length buf (suc (suc p)) h k =
    let (c, e) = get_elem_found buf (suc p) (omega arith) in
    let (d, f) = get_elem_found (set buf (suc p) 0) p (omega (arith, length-set buf (suc p) 0)) in
    rw e (rw one (rw two (rw f (erased c d))))
  where
    one : suc (suc p) - 1 ≡ suc p
    one = omega arith

    two : suc (suc p) - 2 ≡ p
    two = omega arith

    erased :
        (c d : ℕ)
        → (buf' : List ℕ) × ((if c == b'o'
              then done (if d == b'-' then set (set buf (suc p) 0) p 0 else set buf (suc p) 0)
              else done buf)
            ≡ done buf')
          × (length buf' ≡ length buf)
    erased c d = elim (Bool-cases (c == b'o')) [
      | inl e ↦ rw e (elim (Bool-cases (d == b'-')) [
        | inl g ↦ rw g (
          set (set buf (suc p) 0) p 0,
          refl,
          length-set (set buf (suc p) 0) p 0 ∙ length-set buf (suc p) 0,
        )
        | inr g ↦ rw g (set buf (suc p) 0, refl, length-set buf (suc p) 0)
      ])
      | inr e ↦ rw e (buf, refl, refl)
    ]

verify_cases :
    (opt : FuseRamfsOptions) → (verify opt ≡ exit 1) ⊎ ((verify opt ≡ done tt) × Usable opt)
unfolding verify
verify_cases opt = ground arith

-- After the options: the values are tested, and the switch is erased.
finish-Parsed :
    (opt : FuseRamfsOptions) (buf : List ℕ) (ptr size : ℕ)
    → length buf ≡ size
    → 2 ≤ ptr
    → ptr ≤ length buf
    → Parsed size (verify opt >> (erase_switch (buf, ptr) >>= λ b. done (b, opt)))
finish-Parsed opt buf ptr size e h k = elim (verify_cases opt) [
  | inl q ↦ rw q refl
  | inr (q, u) ↦ let (buf', r, l) = erase_switch-length buf ptr h k in rw q (rw r (l ∙ e, u))
]

pub put_front :
    (front buf : List ℕ)
    → length front ≤ length buf
    → put front (buf, 0) ≡ done (spliced 0 front buf, length front)
put_front front buf h =
    put_fits front buf 0 (omega arith) ∙ ap (λ k. done (spliced 0 front buf, k)) (omega arith)

after_tokens-Parsed :
    (size ptr m : ℕ) (r : Result (FuseRamfsOptions × Out))
    → Fits size ptr m r
    → 2 ≤ ptr
    → ptr + m ≤ size
    → Parsed size
        (r >>= λ read. verify read.0 >> (erase_switch read.1 >>= λ buf. done (buf, read.0)))
after_tokens-Parsed size ptr m (done (opt, (buf, ptr'))) f h k =
    finish-Parsed opt buf ptr' size f.0 (omega arith) (omega arith)
after_tokens-Parsed size ptr m fault f h k = absurd f
after_tokens-Parsed size ptr m freed_access f h k = absurd f
after_tokens-Parsed size ptr m unfinished f h k = absurd f
after_tokens-Parsed size ptr m (exit n) f h k = absurd f

-- An option string that begins with switches, is no longer than `OPTION_MAX`, and has a key in
-- every option, is read with no access outside of a buffer where `new` gives memory of the size
-- that is asked for: the process ends with 1, or the buffer is as long as the string with its zero,
-- the capacity is zero or at least 1024, and the number of inodes is zero or at least 2.
pub parse_options-Parsed :
    (option_max : ℕ) (fresh : ℕ → List ℕ) (optstr front rest : Name) (opt : FuseRamfsOptions)
    → ((n : ℕ) → length (fresh n) ≡ n)
    → length optstr ≤ option_max
    → prefix_of optstr ≡ some (front, rest)
    → 0 < length front
    → Keyed (tokens b',' rest)
    → Parsed (length optstr + 1) (parse_options option_max fresh optstr opt)
unfolding parse_options parse_rounds
parse_options-Parsed option_max fresh optstr front rest opt sized short e pos keyed =
    rw (e, found)
      (rw written (
        after_tokens-Parsed (length optstr + 1) (length front) (total (tokens b',' rest)) _
          (take_tokens-Fits (length optstr + 2) option_max (tokens b',' rest) opt
            (length optstr + 1) (spliced 0 front buf) (length front) keyed enough new_size
            (omega (arith, lengths.0, total-tokens b',' rest)))
          (lengths.1 pos) (omega (arith, lengths.0, total-tokens b',' rest))))
  where
    n : ℕ
    n = min (length optstr) option_max + 1

    buf : List ℕ
    buf = fresh n

    lengths : (length front + length rest ≡ length optstr) × (0 < length front → 2 ≤ length front)
    lengths = length-prefix_of optstr front rest e

    written : put front (buf, 0) ≡ done (spliced 0 front buf, length front)
    written = put_front front buf (omega (arith, sized n, lengths.0))

    new_size : length (spliced 0 front buf) ≡ length optstr + 1
    new_size =
        omega (arith, length-spliced 0 front buf (omega (arith, sized n, lengths.0)), sized n)

    enough : length (tokens b',' rest) < length optstr + 2
    enough = omega (arith, length-total (tokens b',' rest), total-tokens b',' rest, lengths.0)
