-- ===== src/File/Write.antt =====
-- `File::WriteAndReply` of src/file.cpp on a well-formed file.
use fuse_cpp_ramfs.Base.{
  ◌∙◌, ℕ, ◌+◌, ◌*◌, ◌^◌, ◌<◌, ◌≤◌, ◌≡◌, ◌≢◌, ◌⊎◌, refl, Bool, none, ltb→lt, le_of_ltb-false, true,
  false, Option, some, List, [], ◌∷◌, length, arith, ltb, if◌then◌else◌, inl, inr, Bool-cases,
  Option-cases, sub64, add64, mul64,
}
use mathlib.Core.Path.{subst}
use fuse_cpp_ramfs.Base.{ap, sym}
use fuse_cpp_ramfs.State.{Inode, Fs, Env, reply_write, reply_err, plus, enospc, Reply}
use fuse_cpp_ramfs.Space.{buf_block_size, used_blocks, size, check_has_space_for}
use fuse_cpp_ramfs.Attr.{has_no_links}
use fuse_cpp_ramfs.Handlers.Enter.{with_live-found}
use fuse_cpp_ramfs.Handlers.Data.{write_and_reply, fuse_write}
use fuse_cpp_ramfs.File.{file_write_to, file_write, store_bytes}
use fuse_cpp_ramfs.File.Layout.{
  on_file-FileAt, FileAt, Reallocs, Stores, write_blocks, write_blocks_bounds, store_bytes-grows,
  store_bytes-stays,
}

-- The arithmetic of a write that ends below 2^62: no overflow.
sum_exact : (a b : ℕ) → a + b < 2 ^ 62 → add64 a b ≡ a + b
unfolding add64
sum_exact a b h = omega arith

capacity_exact :
    (blocks : ℕ) → blocks < 2 ^ 55 → mul64 buf_block_size blocks ≡ buf_block_size * blocks
unfolding mul64
capacity_exact blocks h = omega arith

request_exact :
    (blocks : ℕ) → blocks < 2 ^ 55 → mul64 blocks buf_block_size ≡ buf_block_size * blocks
unfolding mul64
request_exact blocks h = omega arith

module _ (env : Env) (fs : Fs) (this : ℕ) (i : Inode) (buf bytes : List ℕ) (off : ℕ) where
  -- The write ends past the blocks that the file has.
  abbrev pub Grows : Type 0
  Grows = buf_block_size * used_blocks i < off + length bytes

  abbrev pub space : Bool
  space = check_has_space_for (some i) (sub64 (off + length bytes) (size i)) fs

  -- What `realloc` gives for the new blocks.
  abbrev pub memory : Option (List ℕ)
  memory = env.realloc buf (mul64 (write_blocks (off + length bytes)) buf_block_size)

  -- Refused for want of space or of memory, or stored, each with its condition.
  abbrev pub Outcome : Option (List Reply × Fs) → Type 0
  Outcome r =
      (Grows × (space ≡ false) × (r ≡ some (reply_err (plus enospc) ∷ [], fs)))
      ⊎ (Grows × (space ≡ true) × (memory ≡ none) × (r ≡ some (reply_write 0 ∷ [], fs)))
      ⊎ (((off + length bytes ≤ buf_block_size * used_blocks i)
            ⊎ (Grows × (space ≡ true) × (memory ≢ none)))
          × Stores this i bytes off
              (if ltb (buf_block_size * used_blocks i) (off + length bytes)
                then off + length bytes
                else size i)
              r)

  file_write_to-Outcome :
      FileAt fs this i buf
      → Reallocs env
      → off + length bytes < 2 ^ 62
      → Outcome (file_write_to env this i buf bytes off fs)
  unfolding file_write_to
  file_write_to-Outcome at m h =
      rw
        (
          sum_exact off (length bytes) h,
          capacity_exact (used_blocks i) (omega (arith, at.layout.small)),
        )
        (elim (Bool-cases (ltb (buf_block_size * used_blocks i) new_size)) [
          | inl g ↦
              rw g (elim (Bool-cases (check_has_space_for (some i) (sub64 new_size (size i)) fs)) [
                | inl space ↦
                    rw space
                      (elim (Option-cases (env.realloc buf (mul64 new_blocks buf_block_size))) [
                        | inl r ↦ rw r (inr (inl (past g, refl, refl, refl)))
                        | inr (grown, r) ↦
                            rw (r, sum_exact off (length bytes) h)
                              (inr (inr (inr (past g, refl, λ z. cc), stored grown r)))
                      ])
                | inr full ↦ rw full (inl (past g, refl, refl))
              ])
          | inr g ↦ rw g (
              inr (
                inr (
                  inl (le_of_ltb-false _ _ g),
                  store_bytes-stays env fs this i at.found buf bytes off new_size new_blocks
                      (ground (arith, at.layout.room)) at.layout,
                )))
        ])
    where
      past : ltb (buf_block_size * used_blocks i) (off + length bytes) ≡ true → Grows
      past g = ltb→lt _ _ g

      new_size : ℕ
      new_size = off + length bytes

      new_blocks : ℕ
      new_blocks = write_blocks new_size

      stored :
          (grown : List ℕ)
          → env.realloc buf (mul64 new_blocks buf_block_size) ≡ some grown
          → Stores this i bytes off new_size
              (store_bytes env this i grown true bytes off new_size new_blocks fs)
      stored grown r =
          store_bytes-grows env fs this i at.found grown bytes off new_size new_blocks
            (omega (arith, sized, (write_blocks_bounds new_size h).0)) sized
            (omega (arith, sized, (write_blocks_bounds new_size h).0))
            (write_blocks_bounds new_size h).1
        where
          sized : length grown ≡ buf_block_size * new_blocks
          sized =
              m.sized buf (mul64 new_blocks buf_block_size) grown r
              ∙ request_exact new_blocks (omega (arith, (write_blocks_bounds new_size h).1))

-- On a well-formed file of any number of links but zero, with a `realloc` that keeps its promises,
-- a write that ends below 2^62 never faults. Where it ends past the blocks that the file has, it is
-- refused with `ENOSPC` exactly if `CheckHasSpaceFor` finds no space for the growth, and else writes
-- zero bytes exactly if `realloc` gives no memory for the new blocks, both with no change. In all
-- other cases it replies with the number of the bytes, and leaves a well-formed file in which they
-- stand from the offset on. The size is the end of the write if that lies past the
-- blocks that the file had, and is what it was otherwise.
pub fuse_write-Outcome :
    (env : Env) (fs : Fs) (this : ℕ) (i : Inode) (buf bytes : List ℕ) (off : ℕ)
    → FileAt fs this i buf
    → has_no_links i ≡ false
    → Reallocs env
    → off + length bytes < 2 ^ 62
    → Outcome env fs this i buf bytes off (fuse_write env this (some bytes) off fs)
unfolding fuse_write write_and_reply file_write
fuse_write-Outcome env fs this i buf bytes off at links m h =
    subst (Outcome env fs this i buf bytes off)
      (sym (
        with_live-found this (λ j. write_and_reply env this j.kind bytes off) fs i at.found links
        ∙ ap (λ k. write_and_reply env this k bytes off fs) at.is_file
        ∙ on_file-FileAt this (λ j b. file_write_to env this j b bytes off) fs i buf at))
      (file_write_to-Outcome env fs this i buf bytes off at m h)
