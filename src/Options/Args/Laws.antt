-- ===== src/Options/Args/Laws.antt =====
-- What `erase_arg` of src/util.cpp leaves of the arguments.
use fuse_cpp_ramfs.Base.{
  ℕ, suc, ◌+◌, ◌-◌, ◌≡◌, ◌∙◌, refl, sym, ap, Bool, false, some, List, [], ◌∷◌, ◌++◌, length, set,
  get_elem?, leb, arith, length-append, le→leb,
}
use mathlib.Core.List.{append_assoc}
use mathlib.Core.Path.{ap₂}
use fuse_cpp_ramfs.Options.{CharPtr, null, done}
use fuse_cpp_ramfs.Options.Args.{FuseArgs, shift_args, erase_arg}

last : CharPtr → List CharPtr → CharPtr
last x [] = x
last x (y ∷ ys) = last y ys

next-append :
    (front : List CharPtr) (x y : CharPtr) (rest : List CharPtr)
    → get_elem? (front ++ x ∷ y ∷ rest) (length front + 1) ≡ some y
next-append [] x y rest = refl
next-append (f ∷ front) x y rest =
    ap (get_elem? (f ∷ (front ++ x ∷ y ∷ rest))) step ∙ next-append front x y rest
  where
    step : suc (length front) + 1 ≡ suc (length front + 1)
    step = omega arith

set-append :
    (front : List CharPtr) (x y : CharPtr) (rest : List CharPtr)
    → set (front ++ x ∷ rest) (length front) y ≡ front ++ y ∷ rest
set-append [] x y rest = refl
set-append (f ∷ front) x y rest = ap (◌∷◌ f) (set-append front x y rest)

-- The arguments are moved by one, and the last one stands twice.
shift_args-append :
    (front : List CharPtr) (x : CharPtr) (mid rest : List CharPtr)
    → shift_args (length mid) (length front) (front ++ x ∷ (mid ++ rest))
      ≡ done (front ++ (mid ++ last x mid ∷ rest))
unfolding shift_args last
shift_args-append front x [] rest = refl
shift_args-append front x (y ∷ ys) rest =
    rw (next-append front x y (ys ++ rest), shift_args)
      (rw (set-append front x y (y ∷ (ys ++ rest))) (
        ap₂ (shift_args (length ys)) more (moved (y ∷ (ys ++ rest)))
        ∙ shift_args-append (front ++ y ∷ []) y ys rest
        ∙ ap done (sym (moved (ys ++ last y ys ∷ rest)))))
  where
    more : length front + 1 ≡ length (front ++ y ∷ [])
    more = omega (arith, length-append front (y ∷ []))

    moved : (zs : List CharPtr) → front ++ y ∷ zs ≡ (front ++ y ∷ []) ++ zs
    moved zs = sym (append_assoc front (y ∷ []) zs)

set_last :
    (front mid : List CharPtr) (x y : CharPtr) (rest : List CharPtr)
    → set (front ++ (mid ++ x ∷ rest)) (length front + length mid) y ≡ front ++ (mid ++ y ∷ rest)
set_last front mid x y rest =
    ap₂ (λ xs n. set xs n y) (sym (append_assoc front mid (x ∷ rest)))
      (omega (arith, length-append front mid))
    ∙ set-append (front ++ mid) x y rest
    ∙ append_assoc front mid (y ∷ rest)

-- The erasure of an argument leaves those before it and behind it in their order, with one argument
-- fewer, a null pointer at the end of them, and what stood behind them unchanged; an index past the
-- arguments changes nothing.
pub erase_arg-append :
    (front : List CharPtr) (x : CharPtr) (mid rest : List CharPtr) (allocated : Bool) (past : ℕ)
    → let args : FuseArgs = record {
      argc = length front + suc (length mid);
      argv = front ++ x ∷ (mid ++ rest);
      allocated = allocated;
    } in
      (erase_arg args (length front)
        ≡ done (record {
          argc = length front + length mid;
          argv = front ++ (mid ++ null ∷ rest);
          allocated = allocated;
        }))
      × (erase_arg args (length front + suc (length mid) + past) ≡ done args)
unfolding erase_arg
erase_arg-append front x mid rest allocated past = (
  rw below (
      rw rounds (
        rw (shift_args-append front x mid rest) (
          rw count (
            ap
              (λ argv.
                done
                  (record { argc = length front + length mid; argv = argv; allocated = allocated }))
              (set_last front mid (last x mid) null rest))))),
  rw (
      le→leb (length front + suc (length mid)) (length front + suc (length mid) + past)
        (omega arith)),
)
  where
    below : leb (length front + suc (length mid)) (length front) ≡ false
    below = ground arith

    count : length front + suc (length mid) - 1 ≡ length front + length mid
    count = omega arith

    rounds : length front + suc (length mid) - 1 - length front ≡ length mid
    rounds = omega arith
