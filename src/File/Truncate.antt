-- ===== src/File/Truncate.antt =====
-- `File::FileTruncate` of src/file.cpp on a well-formed file.
use fuse_cpp_ramfs.Base.{
  ℕ, ◌+◌, ◌-◌, ◌*◌, ◌/◌, ◌^◌, ◌≤◌, ◌<◌, ◌≡◌, ◌≢◌, ◌⊎◌, ◌∙◌, sym, ap, refl, true, false, Option,
  none, some, List, [], ◌∷◌, ◌++◌, length, take, drop, replicate, arith, ltb, ◌==◌, inl, inr,
  Bool-cases, Option-cases, mul64, sub64, min, take-take, take-append, length-take,
  length-replicate,
}
use fuse_cpp_ramfs.Base.{zero, suc, ltb→lt, le_of_ltb-false}
use fuse_cpp_ramfs.Table.Laws.{get-update_used_blocks}
use mathlib.Core.Path.{subst}
use fuse_cpp_ramfs.State.{Inode, Fs, Env, Code, success, plus, minus, enospc, einval}
use fuse_cpp_ramfs.Space.{
  buf_block_size, used_blocks, size, get_nblocks, check_has_space_for, update_used_blocks,
}
use fuse_cpp_ramfs.Table.{change_inode}
use fuse_cpp_ramfs.Memory.{spliced, splice-spliced, length-spliced, take-drop-spliced}
use fuse_cpp_ramfs.File.{stored, truncated_buffer, cleared, truncate_to, file_truncate}
use fuse_cpp_ramfs.File.Layout.{IsFile, FileAt, Reallocs, on_file-FileAt, stored-FileAt}
use fuse_cpp_ramfs.Directory.Size.{get_nblocks_exact}

-- The number of blocks changes and is not zero, and `realloc` gives no memory for the new blocks.
abbrev pub NoMemory : Env → Inode → List ℕ → ℕ → Type 0
NoMemory env i buf n =
    ((n + 511) / 512 ≢ used_blocks i)
    × ((n + 511) / 512 ≢ 0)
    × (env.realloc buf (buf_block_size * ((n + 511) / 512)) ≡ none)

abbrev pub Memory : Env → Inode → List ℕ → ℕ → Type 0
Memory env i buf n =
    ((n + 511) / 512 ≡ used_blocks i)
    ⊎ ((n + 511) / 512 ≡ 0)
    ⊎ (env.realloc buf (buf_block_size * ((n + 511) / 512)) ≢ none)

-- The buffer has the new blocks, and the bytes that the file keeps.
abbrev Holds : Inode → List ℕ → ℕ → List ℕ → Type 0
Holds i buf n grown =
    (length grown ≡ buf_block_size * ((n + 511) / 512))
    × (take (min (size i) n) grown ≡ take (min (size i) n) buf)

request_exact : (n : ℕ) → n < 2 ^ 55 → mul64 n buf_block_size ≡ buf_block_size * n
unfolding mul64
request_exact n h = omega arith

nothing : (k : ℕ) (buf : List ℕ) → k ≡ 0 → take k [] ≡ take k buf
nothing k buf e = rw e

same_prefix : (k n : ℕ) (xs ys : List ℕ) → k ≤ n → take n xs ≡ take n ys → take k xs ≡ take k ys
same_prefix k n xs ys h e = sym (take-take k n xs h) ∙ (ap (take k) e ∙ take-take k n ys h)

take-replicate : (n : ℕ) → take {A = ℕ} n (replicate n 0) ≡ replicate n 0
take-replicate zero = refl
take-replicate (suc n) = ap (◌∷◌ 0) (take-replicate n)

module _ (env : Env) (i : Inode) (buf : List ℕ) (n : ℕ) (l : IsFile i buf) (m : Reallocs env)
    (small : n < 2 ^ 62) where
  truncated_buffer-Holds :
      (NoMemory env i buf n × (truncated_buffer env buf (used_blocks i) ((n + 511) / 512) ≡ none))
      ⊎ (Memory env i buf n
          × (grown : List ℕ) × (truncated_buffer env buf (used_blocks i) ((n + 511) / 512)
              ≡ some grown)
          × Holds i buf n grown)
  unfolding truncated_buffer
  truncated_buffer-Holds = elim (Bool-cases ((n + 511) / 512 == used_blocks i)) [
    | inl same ↦ rw same (inr (inl (ground arith), buf, refl, (ground (arith, l.room), refl)))
    | inr other ↦ rw other (elim (Bool-cases ((n + 511) / 512 == 0)) [
      | inl z ↦ rw z (
          inr (
            inr (inl (ground arith)),
            [],
            refl,
            (ground arith, nothing (min (size i) n) buf (ground arith)),
          ))
      | inr p ↦
          rw (p, request_exact ((n + 511) / 512) (omega arith))
            (elim (Option-cases (env.realloc buf (buf_block_size * ((n + 511) / 512)))) [
              | inl r ↦ rw r (inl ((ground arith, ground arith, refl), refl))
              | inr (g, r) ↦ rw r (
                  inr (
                    inr (inr (λ z. cc)),
                    g,
                    refl,
                    (
                      m.sized _ _ _ r,
                      same_prefix (min (size i) n)
                          (min (length buf) (buf_block_size * ((n + 511) / 512))) g buf
                          (omega (arith, l.fits)) (m.keeps _ _ _ r),
                    ),
                  ))
            ])
    ])
  ]

  cleared-Holds :
      (grown : List ℕ)
      → Holds i buf n grown
      → (b : List ℕ) × (cleared grown (size i) n ≡ some b)
        × Holds i buf n b
        × (take (n - size i) (drop (size i) b) ≡ replicate (n - size i) 0)
  unfolding cleared
  cleared-Holds grown h = elim (Bool-cases (ltb (size i) n)) [
    | inl g ↦
        rw (g, splice-spliced (size i) zeros grown (room g))
          (
            spliced (size i) zeros grown,
            refl,
            (length-spliced (size i) zeros grown (room g) ∙ h.0, before g),
            take-drop-spliced (n - size i) (size i) zeros grown (room g)
                  (omega (arith, length-replicate {A = ℕ} (n - size i) 0))
                ∙ take-replicate (n - size i),
          )
    | inr g ↦ rw g (grown, refl, h, rw (none_new g))
  ]
    where
      zeros : List ℕ
      zeros = replicate (n - size i) 0

      room : ltb (size i) n ≡ true → size i + length zeros ≤ length grown
      room g = omega (arith, ltb→lt _ _ g, length-replicate {A = ℕ} (n - size i) 0, h.0)

      before :
          ltb (size i) n ≡ true
          → take (min (size i) n) (spliced (size i) zeros grown) ≡ take (min (size i) n) buf
      before g =
          take-append (min (size i) n) (take (size i) grown)
            (zeros ++ drop (size i + length zeros) grown)
            (omega (arith, length-take (size i) grown, room g))
          ∙ take-take (min (size i) n) (size i) grown (omega arith)
          ∙ h.1

      none_new : ltb (size i) n ≡ false → n - size i ≡ 0
      none_new g = omega (arith, le_of_ltb-false _ _ g)

-- Refused with no change for want of space or of memory, or a well-formed file of the new size, which
-- has the bytes that it had as far as they fit, and zeros behind them; each with its condition.
abbrev pub Truncates : Env → Fs → ℕ → Inode → List ℕ → ℕ → Option (Code × Fs) → Type 0
Truncates env fs this i buf n r =
    ((check_has_space_for (some i) (sub64 n (size i)) fs ≡ false) × (r ≡ some (minus enospc, fs)))
    ⊎ ((check_has_space_for (some i) (sub64 n (size i)) fs ≡ true)
        × NoMemory env i buf n
        × (r ≡ some (plus einval, fs)))
    ⊎ ((check_has_space_for (some i) (sub64 n (size i)) fs ≡ true)
        × Memory env i buf n
        × (fs' : Fs) × (i' : Inode) × (buf' : List ℕ) × (r ≡ some (success, fs'))
        × FileAt fs' this i' buf'
        × (size i' ≡ n)
        × (take (min (size i) n) buf' ≡ take (min (size i) n) buf)
        × (take (n - size i) (drop (size i) buf') ≡ replicate (n - size i) 0))

module _ (env : Env) (fs : Fs) (this : ℕ) (i : Inode) (buf : List ℕ) (n : ℕ)
    (at : FileAt fs this i buf) (m : Reallocs env) (small : n < 2 ^ 62) where
  truncate_to-Truncates : Truncates env fs this i buf n (truncate_to env this i buf n fs)
  unfolding truncate_to
  truncate_to-Truncates = elim (Bool-cases (check_has_space_for (some i) (sub64 n (size i)) fs)) [
    | inr full ↦ rw full (inl (refl, refl))
    | inl space ↦ (elim (truncated_buffer-Holds env i buf n at.layout m small) [
      | inl (short, r) ↦ inr (inl (space, short, rw space (rw (of_blocks ∙ r) refl)))
      | inr (enough, grown, r, h) ↦
          subst (Truncates env fs this i buf n) (sym (reached grown space (of_blocks ∙ r)))
            (with_cleared space enough grown (cleared-Holds env i buf n at.layout m small grown h))
    ])
  ]
    where
      blocks : ℕ
      blocks = get_nblocks n buf_block_size

      exact : blocks ≡ (n + 511) / 512
      exact = get_nblocks_exact n (omega arith)

      of_blocks :
          truncated_buffer env buf (used_blocks i) blocks
          ≡ truncated_buffer env buf (used_blocks i) ((n + 511) / 512)
      of_blocks = ap (truncated_buffer env buf (used_blocks i)) exact

      fs' : Fs
      fs' = update_used_blocks (sub64 blocks (used_blocks i)) fs

      reached :
          (grown : List ℕ)
          → check_has_space_for (some i) (sub64 n (size i)) fs ≡ true
          → truncated_buffer env buf (used_blocks i) blocks ≡ some grown
          → truncate_to env this i buf n fs ≡ (elim (cleared grown (size i) n) [
            | none ↦ none
            | some b ↦ some (success, change_inode this (stored env.now b blocks n) fs')
          ])
      reached grown space r = rw space (rw r refl)

      with_cleared :
          check_has_space_for (some i) (sub64 n (size i)) fs ≡ true
          → Memory env i buf n
          → (grown : List ℕ)
          → (b : List ℕ) × (cleared grown (size i) n ≡ some b)
            × Holds i buf n b
            × (take (n - size i) (drop (size i) b) ≡ replicate (n - size i) 0)
          → Truncates env fs this i buf n (elim (cleared grown (size i) n) [
            | none ↦ none
            | some b ↦ some (success, change_inode this (stored env.now b blocks n) fs')
          ])
      with_cleared space enough grown (b, e, h, z) = rw e (
          inr (
            inr (
              space,
              enough,
              change_inode this (stored env.now b blocks n) fs',
              stored env.now b blocks n i,
              b,
              refl,
              stored-FileAt env fs this i at.found fs' b blocks n
                  (get-update_used_blocks (sub64 blocks (used_blocks i)) fs this ∙ at.found)
                  (omega (arith, h.0, exact)) (omega (arith, h.0)) (omega (arith, exact)),
              refl,
              h.1,
              z,
            )))

  -- The truncation of a well-formed file to a size below 2^62, with a `realloc` that keeps its
  -- promises, never faults. It is refused with `ENOSPC` exactly if `CheckHasSpaceFor` finds no space,
  -- and else with `EINVAL` exactly if the number of blocks changes to one other than zero for which
  -- `realloc` gives no memory, both with no change. In all other cases it leaves a well-formed file
  -- of that size, which has the bytes that it had as far as they fit, and zeros
  -- from its old size to the new one.
  pub file_truncate-Truncates : Truncates env fs this i buf n (file_truncate env this n fs)
  unfolding file_truncate
  file_truncate-Truncates =
      rw (on_file-FileAt this (λ j b. truncate_to env this j b n) fs i buf at) truncate_to-Truncates
