-- ===== src/Options/Parse/Written.antt =====
-- The new buffer of `ramfs_parse_options` in src/util.cpp while it is written from its start.
use fuse_cpp_ramfs.Base.{
  ℕ, zero, suc, ◌+◌, ◌≤◌, ◌≡◌, ◌∙◌, refl, sym, ap, List, [], ◌∷◌, ◌++◌, length, drop, arith,
  length-append, length-drop, take-append, take-length,
}
use mathlib.Core.List.{append_assoc}
use mathlib.Core.Path.{ap₂}
use fuse_cpp_ramfs.Memory.{spliced}
use fuse_cpp_ramfs.Options.{done}
use fuse_cpp_ramfs.Options.Parse.{put}
use fuse_cpp_ramfs.Options.Parse.Fits.{put_fits}

drop-append : (xs ys : List ℕ) (n : ℕ) → drop (length xs + n) (xs ++ ys) ≡ drop n ys
drop-append [] ys n = ap (λ k. drop k ys) (omega arith)
drop-append (x ∷ xs) ys n = ap (λ k. drop k (x ∷ (xs ++ ys))) step ∙ drop-append xs ys n
  where
    step : suc (length xs) + n ≡ suc (length xs + n)
    step = omega arith

drop_nil : (n : ℕ) → drop {A = ℕ} n [] ≡ []
drop_nil zero = refl
drop_nil (suc n) = refl

drop-drop : (m n : ℕ) (xs : List ℕ) → drop n (drop m xs) ≡ drop (m + n) xs
drop-drop zero n xs = ap (λ k. drop k xs) (omega arith)
drop-drop (suc m) n [] = drop_nil n ∙ sym (drop_nil (suc m + n))
drop-drop (suc m) n (x ∷ xs) = drop-drop m n xs ∙ ap (λ k. drop k (x ∷ xs)) step
  where
    step : suc (m + n) ≡ suc m + n
    step = omega arith

-- The start of a buffer has been written.
abbrev pub written : List ℕ → List ℕ → List ℕ
written out base = out ++ drop (length out) base

length-written :
    (out base : List ℕ) → length out ≤ length base → length (written out base) ≡ length base
length-written out base h =
    omega (arith, length-append out (drop (length out) base), length-drop (length out) base)

spliced-written :
    (out bytes base : List ℕ)
    → spliced (length out) bytes (written out base) ≡ written (out ++ bytes) base
spliced-written out bytes base =
    ap₂ (λ xs ys. xs ++ (bytes ++ ys))
      (take-append (length out) out (drop (length out) base) (omega arith) ∙ take-length out)
      (drop-append out (drop (length out) base) (length bytes)
        ∙ drop-drop (length out) (length bytes) base
        ∙ ap (λ k. drop k base) (sym (length-append out bytes)))
    ∙ sym (append_assoc out bytes (drop (length (out ++ bytes)) base))

pub put-written :
    (out bytes base : List ℕ)
    → length out + length bytes ≤ length base
    → put bytes (written out base, length out)
      ≡ done (written (out ++ bytes) base, length (out ++ bytes))
put-written out bytes base h =
    put_fits bytes (written out base) (length out)
      (omega (arith, length-written out base (omega arith)))
    ∙ ap done (ap₂ (λ b n. (b, n)) (spliced-written out bytes base) (sym (length-append out bytes)))
