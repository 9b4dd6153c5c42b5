-- ===== src/Options/Parse/Endless.antt =====
-- Where the loop of `ramfs_parse_options` in src/util.cpp does not end.
use fuse_cpp_ramfs.Base.{
  ℕ, zero, suc, ◌+◌, ◌≤◌, ◌≡◌, refl, ap, min, List, [], ◌∷◌, ◌++◌, length, Name, arith, some,
}
use fuse_cpp_ramfs.Memory.{spliced, length-spliced}
use fuse_cpp_ramfs.Options.{
  FuseRamfsOptions, Result, done, fault, freed_access, unfinished, exit, ◌>>=◌, found,
}
use fuse_cpp_ramfs.Options.Parse.{
  Out, tokens, value_of, prefix_of, take_option, next, take_token, take_tokens, parse_rounds,
}
use fuse_cpp_ramfs.Options.Parse.Fits.{
  Keyed, Fits, total, total-append, total-tokens, keyed-cases, take_keyed-Fits,
}
use fuse_cpp_ramfs.Options.Parse.Safe.{length-prefix_of, put_front}

-- An option is read, and what follows it does not end.
then-unfinished :
    (size ptr a : ℕ) (ts : List Name)
    (k : List Name → FuseRamfsOptions → Out → Result (FuseRamfsOptions × Out))
    → ((opt' : FuseRamfsOptions) (buf' : List ℕ) (ptr' : ℕ)
        → length buf' ≡ size
        → ptr' ≤ ptr + a
        → k ts opt' (buf', ptr') ≡ unfinished)
    → (r : Result (FuseRamfsOptions × Out)) → Fits size ptr a r
    → (next ts r >>= λ s. k s.0 s.1.0 s.1.1) ≡ unfinished
then-unfinished size ptr a ts k ih (done (opt', (buf', ptr'))) f = ih opt' buf' ptr' f.0 f.2
then-unfinished size ptr a ts k ih fault f = absurd f
then-unfinished size ptr a ts k ih freed_access f = absurd f
then-unfinished size ptr a ts k ih unfinished f = refl
then-unfinished size ptr a ts k ih (exit n) f = absurd f

-- Every round on a token without a key leads to another one, by induction on the rounds.
take_tokens-keyless :
    (rounds option_max : ℕ) (t : Name) (us : List Name) (opt : FuseRamfsOptions) (out : Out)
    → tokens b'=' t ≡ []
    → take_tokens rounds option_max (t ∷ us) opt out ≡ unfinished
unfolding take_tokens take_token
take_tokens-keyless zero option_max t us opt out bare = refl
take_tokens-keyless (suc rounds) option_max t us opt out bare =
    rw (bare, take_token) (take_tokens-keyless rounds option_max t us opt out bare)

-- The options before it are read, as far as there are rounds.
take_tokens-unfinished :
    (rounds option_max : ℕ) (ts : List Name) (t : Name) (us : List Name) (opt : FuseRamfsOptions)
    (size : ℕ) (buf : List ℕ) (ptr : ℕ)
    → Keyed ts
    → length buf ≡ size
    → ptr + total ts ≤ size
    → tokens b'=' t ≡ []
    → take_tokens rounds option_max (ts ++ t ∷ us) opt (buf, ptr) ≡ unfinished
unfolding take_tokens take_token total
take_tokens-unfinished zero option_max ts t us opt size buf ptr keyed sized h bare = refl
take_tokens-unfinished (suc rounds) option_max [] t us opt size buf ptr keyed sized h bare =
    take_tokens-keyless (suc rounds) option_max t us opt (buf, ptr) bare
take_tokens-unfinished (suc rounds) option_max (t' ∷ ts) t us opt size buf ptr keyed sized h bare =
    let (key, rest, e) = keyed-cases t' keyed.0 in
    rw (e, take_token)
      (then-unfinished size ptr (suc (length t')) (ts ++ t ∷ us) (take_tokens rounds option_max)
        (λ opt' buf' ptr' sized' near.
          take_tokens-unfinished rounds option_max ts t us opt' size buf' ptr' keyed.1 sized'
            (omega arith) bare)
        (take_option option_max key (value_of rest) opt (buf, ptr))
        (take_keyed-Fits option_max t' key rest opt size buf ptr e sized (omega arith)))

-- Where an option string is no longer than `OPTION_MAX`, `new` gives memory of the size that is
-- asked for, and an option without a key, as "=" is, follows options that have one, the parsing of
-- the string does not end, however many rounds of its loop are looked at.
pub parse_rounds-unfinished :
    (rounds option_max : ℕ) (fresh : ℕ → List ℕ) (optstr front rest : Name) (opt : FuseRamfsOptions)
    (ts : List Name) (t : Name) (us : List Name)
    → ((n : ℕ) → length (fresh n) ≡ n)
    → length optstr ≤ option_max
    → prefix_of optstr ≡ some (front, rest)
    → tokens b',' rest ≡ ts ++ t ∷ us
    → Keyed ts
    → tokens b'=' t ≡ []
    → parse_rounds rounds option_max fresh optstr opt ≡ unfinished
unfolding parse_rounds
parse_rounds-unfinished rounds option_max fresh optstr front rest opt ts t us sized short e split
      keyed bare =
    rw (e, found)
      (rw (put_front front buf (omega (arith, sized n, lengths))) (rw split (rw read refl)))
  where
    n : ℕ
    n = min (length optstr) option_max + 1

    buf : List ℕ
    buf = fresh n

    lengths : length front + length rest ≡ length optstr
    lengths = (length-prefix_of optstr front rest e).0

    room : length front + total ts ≤ length (spliced 0 front buf)
    room = omega (
      arith,
      length-spliced 0 front buf (omega (arith, sized n, lengths)),
      sized n,
      lengths,
      total-tokens b',' rest,
      ap total split,
      total-append ts (t ∷ us),
    )

    read :
        take_tokens rounds option_max (ts ++ t ∷ us) opt (spliced 0 front buf, length front)
        ≡ unfinished
    read =
        take_tokens-unfinished rounds option_max ts t us opt (length (spliced 0 front buf))
          (spliced 0 front buf) (length front) keyed refl room bare
