-- ===== src/Options/Parse/Known.antt =====
-- `ramfs_parse_options` of src/util.cpp on one option that it knows.
use fuse_cpp_ramfs.Base.{Without, Without-append, pieces-Without, pieces-append}
use fuse_cpp_ramfs.Base.{
  ℕ, zero, suc, ◌+◌, ◌≤◌, ◌<◌, ◌≡◌, ◌∙◌, refl, ap, some, List, [], ◌∷◌, ◌++◌, length, min, drop,
  Name, arith,
}
use fuse_cpp_ramfs.Memory.{spliced}
use fuse_cpp_ramfs.Options.{FuseRamfsOptions, done}
use fuse_cpp_ramfs.Options.Parse.{
  Out, nonempty, tokens, switches, prefix_of, take_option, take_token, take_tokens, verify,
  last_byte, erase_switch, parse_rounds, parse_options,
}
use fuse_cpp_ramfs.Options.Parse.Safe.{put_front}

-- One token, and two.
tokens-Without : (c x : ℕ) (s : Name) → Without c (x ∷ s) → tokens c (x ∷ s) ≡ (x ∷ s) ∷ []
unfolding tokens nonempty
tokens-Without c x s h = ap nonempty (pieces-Without c (x ∷ s) h)

tokens-append :
    (c x : ℕ) (a : Name) (y : ℕ) (b : Name)
    → Without c (x ∷ a)
    → Without c (y ∷ b)
    → tokens c ((x ∷ a) ++ c ∷ y ∷ b) ≡ (x ∷ a) ∷ (y ∷ b) ∷ []
unfolding tokens nonempty
tokens-append c x a y b h k =
    ap nonempty (pieces-append c (x ∷ a) (y ∷ b) h ∙ ap (◌∷◌ (x ∷ a)) (pieces-Without c (y ∷ b) k))

one_token :
    (rounds option_max : ℕ) (t key value : Name) (opt opt' : FuseRamfsOptions) (out : Out)
    → 1 < rounds
    → tokens b'=' t ≡ key ∷ value ∷ []
    → take_option option_max key (some value) opt out ≡ done (opt', out)
    → take_tokens rounds option_max (t ∷ []) opt out ≡ done (opt', out)
unfolding take_tokens take_token
one_token zero option_max t key value opt opt' out more e h = absurd (omega arith)
one_token (suc zero) option_max t key value opt opt' out more e h = absurd (omega arith)
one_token (suc (suc rounds)) option_max t key value opt opt' out more e h =
    rw (e, take_token) (rw h refl)

-- The one option is read, nothing is copied, and the switch is erased.
parse_rounds-known :
    (rounds option_max : ℕ) (fresh : ℕ → List ℕ) (x : ℕ) (key : Name) (y : ℕ) (value : Name)
    (opt opt' : FuseRamfsOptions)
    → 1 < rounds
    → ((n : ℕ) → length (fresh n) ≡ n)
    → 0 < option_max
    → Without b'=' (x ∷ key)
    → Without b'=' (y ∷ value)
    → Without b',' (x ∷ key)
    → Without b',' (y ∷ value)
    → ((out : Out) → take_option option_max (x ∷ key) (some (y ∷ value)) opt out ≡ done (opt', out))
    → verify opt' ≡ done tt
    → (rest : List ℕ) × (parse_rounds rounds option_max fresh
          (b'-' ∷ b'o' ∷ ((x ∷ key) ++ b'=' ∷ y ∷ value))
          opt
        ≡ done (0 ∷ 0 ∷ rest, opt'))
unfolding parse_rounds prefix_of switches erase_switch last_byte
parse_rounds-known rounds option_max fresh x key y value opt opt' more sized pos ek ev ck cv taken
      fine =
    (drop 2 buf, rw (put_front o_switch buf room) (rw one (rw read (rw fine refl))))
  where
    assign : Name
    assign = (x ∷ key) ++ b'=' ∷ y ∷ value

    o_switch : Name
    o_switch = b'-' ∷ b'o' ∷ []

    buf : List ℕ
    buf = fresh (min (length (b'-' ∷ b'o' ∷ assign)) option_max + 1)

    room : 2 ≤ length buf
    room = omega (arith, sized (min (length (b'-' ∷ b'o' ∷ assign)) option_max + 1))

    one : tokens b',' assign ≡ assign ∷ []
    one =
        tokens-Without b',' x (key ++ b'=' ∷ y ∷ value)
          (Without-append b',' (x ∷ key) (b'=' ∷ y ∷ value) ck (refl, cv))

    read :
        take_tokens rounds option_max (assign ∷ []) opt (spliced 0 o_switch buf, 2)
        ≡ done (opt', (spliced 0 o_switch buf, 2))
    read =
        one_token rounds option_max assign (x ∷ key) (y ∷ value) opt opt'
          (spliced 0 o_switch buf, 2) more (tokens-append b'=' x key y value ek ev)
          (taken (spliced 0 o_switch buf, 2))

pub parse_options-known :
    (option_max : ℕ) (fresh : ℕ → List ℕ) (x : ℕ) (key : Name) (y : ℕ) (value : Name)
    (opt opt' : FuseRamfsOptions)
    → ((n : ℕ) → length (fresh n) ≡ n)
    → 0 < option_max
    → Without b'=' (x ∷ key)
    → Without b'=' (y ∷ value)
    → Without b',' (x ∷ key)
    → Without b',' (y ∷ value)
    → ((out : Out) → take_option option_max (x ∷ key) (some (y ∷ value)) opt out ≡ done (opt', out))
    → verify opt' ≡ done tt
    → (rest : List ℕ) × (parse_options option_max fresh
          (b'-' ∷ b'o' ∷ ((x ∷ key) ++ b'=' ∷ y ∷ value))
          opt
        ≡ done (0 ∷ 0 ∷ rest, opt'))
unfolding parse_options
parse_options-known option_max fresh x key y value opt opt' =
    parse_rounds-known (length (b'-' ∷ b'o' ∷ ((x ∷ key) ++ b'=' ∷ y ∷ value)) + 2) option_max fresh
      x key y value opt opt' (omega arith)
