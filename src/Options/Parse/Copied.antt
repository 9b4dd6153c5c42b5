-- ===== src/Options/Parse/Copied.antt =====
-- `ramfs_parse_options` of src/util.cpp on options that it does not know: they are copied.
use fuse_cpp_ramfs.Base.{
  ℕ, zero, suc, ◌+◌, ◌≤◌, ◌<◌, ◌≡◌, ◌∙◌, refl, sym, ap, false, Option, none, some, List, [], ◌∷◌,
  ◌++◌, length, take, drop, get_elem?, min, Name, arith, length-append,
}
use mathlib.Core.List.{append_assoc, append-nil}
use fuse_cpp_ramfs.Options.{FuseRamfsOptions, done, found}
use fuse_cpp_ramfs.Options.Parse.{
  tokens, prefix_of, value_of, copied, take_option, take_token, take_tokens, parse_rounds, verify,
  last_byte, erase_switch, parse_options, same, size_key, inodes_key, subtype_key,
}
use fuse_cpp_ramfs.Options.Parse.Fits.{total, total-tokens, length-copied, length-total}
use fuse_cpp_ramfs.Options.Parse.Safe.{length-prefix_of}
use fuse_cpp_ramfs.Options.Parse.Written.{written, put-written}

-- What is copied of one option and of several.
abbrev pub copy_of : ℕ → List Name → List ℕ
copy_of option_max [] = []
copy_of option_max (key ∷ rest) = copied option_max key (value_of rest)

abbrev pub copies : ℕ → List Name → List ℕ
copies option_max [] = []
copies option_max (t ∷ ts) = copy_of option_max (tokens b'=' t) ++ copies option_max ts

-- Every option has a key that is none of the three.
abbrev pub Unknown : ℕ → List Name → Type 0
Unknown option_max [] = Unit
Unknown option_max (t ∷ ts) =
    ((key : Name) × (rest : List Name) × (tokens b'=' t ≡ key ∷ rest)
      × (same option_max key size_key ≡ false)
      × (same option_max key inodes_key ≡ false)
      × (same option_max key subtype_key ≡ false))
    × Unknown option_max ts

take_option-written :
    (option_max : ℕ) (t key : Name) (rest : List Name) (opt : FuseRamfsOptions) (out base : List ℕ)
    → tokens b'=' t ≡ key ∷ rest
    → same option_max key size_key ≡ false
    → same option_max key inodes_key ≡ false
    → same option_max key subtype_key ≡ false
    → length out + suc (length t) ≤ length base
    → let out' = out ++ copied option_max key (value_of rest) in
      (take_option option_max key (value_of rest) opt (written out base, length out)
        ≡ done (opt, (written out' base, length out')))
      × (length out' ≤ length out + suc (length t))
unfolding take_option
take_option-written option_max t key rest opt out base e size inodes subtype h = (
  rw size (rw inodes (rw subtype (rw (put-written out bytes base (omega (arith, short))) refl))),
  omega (arith, short, length-append out bytes),
)
  where
    bytes : List ℕ
    bytes = copied option_max key (value_of rest)

    short : length bytes ≤ suc (length t)
    short = omega (arith, length-copied option_max key rest, ap total e, total-tokens b'=' t)

take_tokens-written :
    (rounds option_max : ℕ) (ts : List Name) (opt : FuseRamfsOptions) (out base : List ℕ)
    → length ts < rounds
    → Unknown option_max ts
    → length out + total ts ≤ length base
    → let out' = out ++ copies option_max ts in
      take_tokens rounds option_max ts opt (written out base, length out)
      ≡ done (opt, (written out' base, length out'))
unfolding take_tokens take_token total
take_tokens-written zero option_max ts opt out base more u h = absurd (omega arith)
take_tokens-written (suc rounds) option_max [] opt out base more u h =
    ap (λ o. done (opt, (written o base, length o))) (sym (append-nil out))
take_tokens-written (suc rounds) option_max (t ∷ ts) opt out base more u h =
    let (key, rest, e, size, inodes, subtype) = u.0 in
    let bytes = copied option_max key (value_of rest) in
    let (one, room) =
      take_option-written option_max t key rest opt out base e size inodes subtype (omega arith) in
    rw (e, take_token)
      (rw one (
        take_tokens-written rounds option_max ts opt (out ++ bytes) base (omega arith) u.1
          (omega arith)
        ∙ ap (λ o. done (opt, (written o base, length o)))
            (append_assoc out bytes (copies option_max ts))))

-- What is copied of options ends in a comma.
copied-comma :
    (option_max : ℕ) (key : Name) (v : Option Name)
    → (xs : List ℕ) × (copied option_max key v ≡ xs ++ b',' ∷ [])
unfolding copied
copied-comma option_max key none = (take option_max key, refl)
copied-comma option_max key (some value) = (
  take option_max key ++ b'=' ∷ take option_max value,
  sym (append_assoc (take option_max key) (b'=' ∷ take option_max value) (b',' ∷ [])),
)

copies-comma :
    (option_max : ℕ) (t : Name) (ts : List Name)
    → Unknown option_max (t ∷ ts)
    → (xs : List ℕ) × (copies option_max (t ∷ ts) ≡ xs ++ b',' ∷ [])
copies-comma option_max t [] u =
    let (key, rest, e, size, inodes, subtype) = u.0 in
    let (xs, f) = copied-comma option_max key (value_of rest) in
    (xs, rw e (append-nil (copied option_max key (value_of rest)) ∙ f))
copies-comma option_max t (t' ∷ ts) u =
    let (xs, f) = copies-comma option_max t' ts u.1 in
    (
      copy_of option_max (tokens b'=' t) ++ xs,
      ap (λ ys. copy_of option_max (tokens b'=' t) ++ ys) f
          ∙ sym (append_assoc (copy_of option_max (tokens b'=' t)) xs (b',' ∷ [])),
    )

get-append : (xs : List ℕ) (c : ℕ) (ys : List ℕ) → get_elem? (xs ++ c ∷ ys) (length xs) ≡ some c
get-append [] c ys = refl
get-append (x ∷ xs) c ys = get-append xs c ys

-- A switch that options follow is not erased.
erase_switch-comma :
    (buf : List ℕ) (n : ℕ) → get_elem? buf n ≡ some b',' → erase_switch (buf, suc n) ≡ done buf
unfolding erase_switch last_byte
erase_switch-comma buf n e = rw (e, found) refl

erase_switch-written :
    (out xs base : List ℕ)
    → out ≡ xs ++ b',' ∷ []
    → erase_switch (written out base, length out) ≡ done (written out base)
erase_switch-written out xs base e =
    ap (λ n. erase_switch (written out base, n)) last
    ∙ erase_switch-comma (written out base) (length xs) (
        ap (λ o. get_elem? (o ++ drop (length out) base) (length xs)) e
        ∙ ap (λ ys. get_elem? ys (length xs)) (append_assoc xs (b',' ∷ []) (drop (length out) base))
        ∙ get-append xs b',' (drop (length out) base))
  where
    last : length out ≡ suc (length xs)
    last = omega (arith, ap length e, length-append xs (b',' ∷ []))

-- An option string that is no longer than `OPTION_MAX`, with at least one option, in which every
-- option has a key that is none of the three, is read, for values that are usable and with memory
-- of the size that is asked for, with no change of the values: the new buffer begins with the
-- switches and then each option with a comma behind it, and the rest of it is as `new` has given it,
-- with no zero.
pub parse_options-copied :
    (option_max : ℕ) (fresh : ℕ → List ℕ) (optstr front rest : Name) (opt : FuseRamfsOptions)
    (t : Name) (ts : List Name)
    → ((n : ℕ) → length (fresh n) ≡ n)
    → length optstr ≤ option_max
    → prefix_of optstr ≡ some (front, rest)
    → tokens b',' rest ≡ t ∷ ts
    → Unknown option_max (t ∷ ts)
    → verify opt ≡ done tt
    → let out = front ++ copies option_max (t ∷ ts) in
      parse_options option_max fresh optstr opt
      ≡ done (out ++ drop (length out) (fresh (length optstr + 1)), opt)
unfolding parse_options parse_rounds
parse_options-copied option_max fresh optstr front rest opt t ts sized short e split unknown fine =
    rw (e, found)
      (rw size (
        rw (put-written [] front base fits) (
          rw split (
            rw read (
              rw fine (
                let (xs, f) = copies-comma option_max t ts unknown in
                rw
                  (erase_switch-written (front ++ copies option_max (t ∷ ts)) (front ++ xs) base
                    (ap (λ ys. front ++ ys) f ∙ sym (append_assoc front xs (b',' ∷ []))))
                  refl))))))
  where
    base : List ℕ
    base = fresh (length optstr + 1)

    size : min (length optstr) option_max + 1 ≡ length optstr + 1
    size = omega arith

    lengths : length front + length rest ≡ length optstr
    lengths = (length-prefix_of optstr front rest e).0

    fits : 0 + length front ≤ length base
    fits = omega (arith, sized (length optstr + 1), lengths)

    enough : length (t ∷ ts) < length optstr + 2
    enough = omega (arith, length-total (t ∷ ts), ap total split, total-tokens b',' rest, lengths)

    read :
        take_tokens (length optstr + 2) option_max (t ∷ ts) opt (written front base, length front)
        ≡ done (
          opt,
          (
            written (front ++ copies option_max (t ∷ ts)) base,
            length (front ++ copies option_max (t ∷ ts)),
          ),
        )
    read =
        take_tokens-written (length optstr + 2) option_max (t ∷ ts) opt front base enough unknown (
          omega (arith, sized (length optstr + 1), lengths, total-tokens b',' rest, ap total split))
