-- ===== src/Handlers/Readdir/Fill.antt =====
-- The loop of `FuseReadDir` in src/fuse_cpp_ramfs.cpp.
use fuse_cpp_ramfs.Base.{
  ℕ, zero, suc, ◌+◌, ◌≤◌, ◌<◌, ◌≡◌, ◌∙◌, refl, Bool, true, false, Option, none, some, List, [], ◌∷◌,
  ◌++◌, length, ltb, if◌then◌else◌, inl, inr, Option-cases, arith, Name, Map, length-append, lt→ltb,
  le→ltb_false, ap, le_of_ltb-false,
}
use mathlib.Core.List.{append_assoc, append-nil}
use fuse_cpp_ramfs.State.{Stat, Fs}
use fuse_cpp_ramfs.Handlers.Readdir.{entry_stat, step_back, add_entries}

-- All children of a context, in their order.
abbrev pub children_from : Map ℕ → Map ℕ → Map ℕ
children_from [] pending = pending
children_from (e ∷ sent) pending = children_from sent (e ∷ pending)

-- The reply fits, and the children are those that they were.
abbrev pub Filled : ℕ → Map ℕ → Option (List ℕ × Map ℕ × Map ℕ) → Type 0
Filled n ch none = Unit
Filled n ch (some (bytes, sent, pending)) = (length bytes ≤ n) × (children_from sent pending ≡ ch)

Filled-if :
    (n : ℕ) (ch : Map ℕ) (b : Bool) (x y : Option (List ℕ × Map ℕ × Map ℕ))
    → (b ≡ true → Filled n ch x)
    → (b ≡ false → Filled n ch y)
    → Filled n ch (if b then x else y)
Filled-if n ch true x y p q = p refl
Filled-if n ch false x y p q = q refl

step_back-Filled :
    (n : ℕ) (bytes : List ℕ) (sent pending : Map ℕ)
    → length bytes ≤ n
    → Filled n (children_from sent pending) (step_back bytes sent pending)
unfolding step_back
step_back-Filled n bytes [] pending h = tt
step_back-Filled n bytes (e ∷ sent) pending h = (h, refl)

module _ (entry : Name → Stat → List ℕ) (fs : Fs) where
  -- No entry is written past the end of the buffer, and no child of the copy is lost.
  pub add_entries-Filled :
      (has_buf : Bool) (n left : ℕ) (bytes : List ℕ) (sent pending : Map ℕ)
      → length bytes ≤ n
      → Filled n
          (children_from sent pending)
          (add_entries entry fs has_buf n left bytes sent pending)
  unfolding add_entries
  add_entries-Filled has_buf n left bytes sent [] h = (h, refl)
  add_entries-Filled has_buf n zero bytes sent (e ∷ pending) h = (h, refl)
  add_entries-Filled has_buf n (suc left) bytes sent ((name, ino) ∷ pending) h =
      elim (Option-cases (entry_stat ino fs)) [
        | inl e ↦
            rw (e, add_entries)
              (add_entries-Filled has_buf n (suc left) bytes ((name, ino) ∷ sent) pending h)
        | inr (st, e) ↦
            let all = children_from sent ((name, ino) ∷ pending) in
            let rest =
              add_entries-Filled has_buf n left (bytes ++ entry name st) ((name, ino) ∷ sent)
                pending in
            rw (e, add_entries)
              (Filled-if n all (ltb n (length (bytes ++ entry name st))) _ _
                (λ _. step_back-Filled n bytes sent ((name, ino) ∷ pending) h)
                (λ fits.
                  Filled-if n all has_buf _ none (λ _. rest (le_of_ltb-false _ _ fits)) (λ _. tt)))
      ]

  -- The bytes of the entries of the children that are not deleted, and their number.
  unfoldable pub live_bytes : Map ℕ → List ℕ
  live_bytes [] = []
  live_bytes ((name, ino) ∷ ch) = elim (entry_stat ino fs) [
    | none ↦ live_bytes ch
    | some st ↦ entry name st ++ live_bytes ch
  ]

  unfoldable pub live_count : Map ℕ → ℕ
  live_count [] = 0
  live_count ((name, ino) ∷ ch) = elim (entry_stat ino fs) [
    | none ↦ live_count ch
    | some st ↦ suc (live_count ch)
  ]

  live-dead :
      (name : Name) (ino : ℕ) (ch : Map ℕ)
      → entry_stat ino fs ≡ none
      → (live_bytes ((name, ino) ∷ ch) ≡ live_bytes ch)
        × (live_count ((name, ino) ∷ ch) ≡ live_count ch)
  unfolding live_bytes live_count
  live-dead name ino ch e = (rw (e, live_bytes), rw (e, live_count))

  live-found :
      (name : Name) (ino : ℕ) (ch : Map ℕ) (st : Stat)
      → entry_stat ino fs ≡ some st
      → (live_bytes ((name, ino) ∷ ch) ≡ entry name st ++ live_bytes ch)
        × (live_count ((name, ino) ∷ ch) ≡ suc (live_count ch))
  unfolding live_bytes live_count
  live-found name ino ch st e = (rw (e, live_bytes), rw (e, live_count))

  -- Where the entries fit, the loop sends them all.
  pub add_entries-live_bytes :
      (n left : ℕ) (bytes : List ℕ) (sent pending : Map ℕ)
      → length bytes + length (live_bytes pending) ≤ n
      → live_count pending < left
      → add_entries entry fs true n left bytes sent pending
        ≡ some (bytes ++ live_bytes pending, children_from pending sent, [])
  unfolding add_entries live_bytes
  add_entries-live_bytes n left bytes sent [] h c = rw append-nil
  add_entries-live_bytes n zero bytes sent (e ∷ pending) h c = absurd (omega arith)
  add_entries-live_bytes n (suc left) bytes sent ((name, ino) ∷ pending) h c =
      elim (Option-cases (entry_stat ino fs)) [
        | inl e ↦
            let (b, k) = live-dead name ino pending e in
            rw (e, add_entries, b)
              (add_entries-live_bytes n (suc left) bytes ((name, ino) ∷ sent) pending
                (omega (arith, ap (length {A = ℕ}) b)) (omega (arith, k)))
        | inr (st, e) ↦
            let (b, k) = live-found name ino pending st e in
            let room : length (bytes ++ entry name st) + length (live_bytes pending) ≤ n = omega (
              arith,
              ap (length {A = ℕ}) b,
              length-append bytes (entry name st),
              length-append (entry name st) (live_bytes pending),
            ) in
            rw (e, add_entries, b)
              (rw (le→ltb_false n (length (bytes ++ entry name st)) (omega arith)) (
                add_entries-live_bytes n left (bytes ++ entry name st) ((name, ino) ∷ sent) pending
                  room (omega (arith, k))
                ∙ rw append_assoc))
      ]

  -- Where the next entry fits alone but not with the one after it, the loop sends it and goes back
  -- to it.
  pub add_entries-resends :
      (n left : ℕ) (sent : Map ℕ) (a b : Name) (i j : ℕ) (pending : Map ℕ) (s t : Stat)
      → entry_stat i fs ≡ some s
      → entry_stat j fs ≡ some t
      → length (entry a s) ≤ n
      → n < length (entry a s) + length (entry b t)
      → add_entries entry fs true n (suc (suc left)) [] sent ((a, i) ∷ (b, j) ∷ pending)
        ≡ some (entry a s, sent, (a, i) ∷ (b, j) ∷ pending)
  unfolding add_entries step_back
  add_entries-resends n left sent a b i j pending s t e f h k =
      rw (e, add_entries)
        (rw (le→ltb_false n (length (entry a s)) h) (
          rw (f, add_entries)
            (rw (
              lt→ltb n (length (entry a s ++ entry b t))
                (omega (arith, length-append (entry a s) (entry b t)))))))
