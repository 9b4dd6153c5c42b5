-- ===== src/File/RoundTrip.antt =====
-- A write and then a read of the same range: `File::WriteAndReply` and `File::ReadAndReply` of
-- src/file.cpp through `FuseWrite` and `FuseRead`.
use fuse_cpp_ramfs.Base.{
  ℕ, ◌+◌, ◌-◌, ◌*◌, ◌^◌, ◌≤◌, ◌<◌, ◌≡◌, ◌∙◌, sym, false, Option, some, List, [], ◌∷◌, length, take,
  drop, arith, ltb, if◌then◌else◌, inl, inr, min, lt→ltb, le→ltb_false, take-length, length-take,
  take-take,
}
use fuse_cpp_ramfs.State.{Inode, Fs, Env, reply_buf, reply_write, Reply}
use fuse_cpp_ramfs.Space.{buf_block_size, used_blocks, size}
use fuse_cpp_ramfs.Attr.{has_no_links}
use fuse_cpp_ramfs.Handlers.Data.{fuse_read, fuse_write}
use fuse_cpp_ramfs.File.Layout.{FileAt, Reallocs}
use fuse_cpp_ramfs.File.Write.{fuse_write-Outcome}
use fuse_cpp_ramfs.File.Read.{after_read, fuse_read-FileAt}

take_prefix : (k n : ℕ) (xs ys : List ℕ) → k ≤ n → take n xs ≡ ys → take k xs ≡ take k ys
take_prefix k n xs ys h e = rw (← e) (sym (take-take k n xs h))

same_state :
    (rs : List Reply) (gs fs : Fs)
    → ◌≡◌ {A = Option (List Reply × Fs)} (some (rs, gs)) (some (rs, fs))
    → gs ≡ fs
same_state rs gs fs e = cc

module _ (env env' : Env) (fs fs' : Fs) (this : ℕ) (i : Inode) (buf bytes : List ℕ) (off : ℕ)
    (at : FileAt fs this i buf) (links : has_no_links i ≡ false) (m : Reallocs env)
    (small : off + length bytes < 2 ^ 62) (some_bytes : 0 < length bytes)
    (done : fuse_write env this (some bytes) off fs
      ≡ some (reply_write (length bytes) ∷ [], fs')) where
  -- The size of the file after the write.
  abbrev new_size : ℕ
  new_size =
      if ltb (buf_block_size * used_blocks i) (off + length bytes)
      then off + length bytes
      else size i

  abbrev Reads : Fs → Type 0
  Reads gs =
      (gs' : Fs) × (fuse_read env' this (length bytes) off gs
        ≡ some (reply_buf (take (min (length bytes) (new_size - off)) bytes) ∷ [], gs'))

  stored-Reads :
      (gs : Fs) (j : Inode) (b : List ℕ)
      → FileAt gs this j b
      → take (length bytes) (drop off b) ≡ bytes
      → size j ≡ new_size
      → has_no_links j ≡ has_no_links i
      → Reads gs
  stored-Reads gs j b at' content e l = (
    after_read env' this j off gs,
    fuse_read-FileAt env' gs this j b (length bytes) off at' (l ∙ links) small
        ∙ rw (
          e,
          take_prefix (min (length bytes) (new_size - off)) (length bytes) (drop off b) bytes
              (omega arith) content,
        ),
  )

  read_after_write : Reads fs'
  read_after_write = elim (fuse_write-Outcome env fs this i buf bytes off at links m small) [
    | inl (grows, full, r) ↦ absurd (ground (arith, r, done))
    | inr (inl (grows, space, short, r)) ↦ absurd (ground (arith, r, done))
    | inr (inr (fits, (gs, j, b, e, at', content, s, l))) ↦
        rw (← same_state (reply_write (length bytes) ∷ []) gs fs' (sym e ∙ done))
          (stored-Reads gs j b at' content s l)
  ]

  -- Where a write of at least one byte to a well-formed file with links, that ends below 2^62, with
  -- a `realloc` that keeps its promises, succeeds past the blocks that the file had, a read of its
  -- range sends its bytes.
  pub read-write_grows :
      buf_block_size * used_blocks i < off + length bytes
      → (gs : Fs) × (fuse_read env' this (length bytes) off fs' ≡ some (reply_buf bytes ∷ [], gs))
  read-write_grows g = (
    read_after_write.0,
    read_after_write.1 ∙ rw (lt→ltb _ _ g, all_kept) (rw (take-length bytes)),
  )
    where
      all_kept : min (length bytes) (off + length bytes - off) ≡ length bytes
      all_kept = omega arith

  -- Where a write of at least one byte to a well-formed file with links, that ends below 2^62, with
  -- a `realloc` that keeps its promises, succeeds inside the blocks that the file has but ends past
  -- its size, a read of its range sends fewer bytes than were written: those before the old size.
  pub write_inside_blocks_is_lost :
      off + length bytes ≤ buf_block_size * used_blocks i
      → size i < off + length bytes
      → (gs : Fs) × (fuse_read env' this (length bytes) off fs'
          ≡ some (reply_buf (take (size i - off) bytes) ∷ [], gs))
        × (length (take (size i - off) bytes) < length bytes)
  write_inside_blocks_is_lost g h = (
    read_after_write.0,
    read_after_write.1 ∙ rw (le→ltb_false _ _ g, cut),
    omega (arith, length-take (size i - off) bytes),
  )
    where
      cut : min (length bytes) (size i - off) ≡ size i - off
      cut = omega arith
