-- ===== src/Keeps/File.antt =====
-- The methods of a file keep every invariant that bears the changes of inodes.
use fuse_cpp_ramfs.Base.{
  arith, ℕ, ◌+◌, ◌/◌, ◌%◌, ◌≡◌, refl, Bool, true, false, some, List, length, ◌==◌, inl, inr,
  Option-cases, if◌then◌else◌, not, leb, ltb, sub64, add64, mul64, signed_lt,
}
use fuse_cpp_ramfs.State.{Inode, Fs, M, Env}
use fuse_cpp_ramfs.Table.{get_inode}
use fuse_cpp_ramfs.Space.{used_blocks, size, get_nblocks, buf_block_size, check_has_space_for}
use fuse_cpp_ramfs.Memory.{splice}
use fuse_cpp_ramfs.Attr.{with_attr}
use fuse_cpp_ramfs.File.{
  buffer_of, stored, truncated_buffer, cleared, truncate_to, on_file, file_truncate, store_bytes,
  file_write_to, file_write, touch_atim, file_read_from, file_read,
}
use fuse_cpp_ramfs.Keeps.{Post, Keeps, Frame, Post-if}

module _ (P : Fs → Type 0) (frame : Frame P) where
  on_file-Keeps :
      {A : Type 0} (this : ℕ) (k : Inode → List ℕ → M A)
      → ((i : Inode) (buf : List ℕ) (fs : Fs)
          → get_inode this fs ≡ some i
          → P fs
          → Post P (k i buf fs))
      → Keeps P (on_file this k)
  on_file-Keeps this k h fs p = elim (Option-cases (get_inode this fs)) [
    | inl e ↦ rw (e, on_file) tt
    | inr (i, e) ↦
        rw (e, on_file)
          (elim (Option-cases (buffer_of i.kind)) [
            | inl c ↦ rw c tt
            | inr (buf, c) ↦ rw c (h i buf fs e p)
          ])
  ]

  pub file_truncate-Keeps :
      (env : Env) (this new_size : ℕ) → Keeps P (file_truncate env this new_size)
  unfolding file_truncate truncate_to
  file_truncate-Keeps env this new_size = on_file-Keeps this _ λ i buf fs e p.
      Post-if P (not (check_has_space_for (some i) (sub64 new_size (size i)) fs)) _ _ p
        (elim (Option-cases
          (truncated_buffer env buf (used_blocks i) (get_nblocks new_size buf_block_size))) [
            | inl r ↦ rw r p
            | inr (grown, r) ↦ rw r (elim (Option-cases (cleared grown (size i) new_size)) [
              | inl c ↦ rw c tt
              | inr (buf', c) ↦ rw c (
                  frame.keep_blocks this
                    (stored env.now buf' (get_nblocks new_size buf_block_size) new_size) fs i e p)
            ])
          ])

  store_bytes-Keeps :
      (env : Env) (this : ℕ) (i : Inode) (buf : List ℕ) (grows : Bool) (bytes : List ℕ)
      (off new_size new_blocks : ℕ) (fs : Fs)
      → get_inode this fs ≡ some i
      → P fs
      → Post P (store_bytes env this i buf grows bytes off new_size new_blocks fs)
  unfolding store_bytes
  store_bytes-Keeps env this i buf grows bytes off new_size new_blocks fs e p =
      elim (Option-cases (splice off bytes buf)) [
        | inl c ↦ rw (c, store_bytes) tt
        | inr (buf', c) ↦
            rw (c, store_bytes)
              (Post-if P grows _ _
                (frame.keep_blocks this (stored env.now buf' new_blocks new_size) fs i e p)
                (frame.keep_attr this (stored env.now buf' (used_blocks i) (size i)) fs
                  (λ j f. ground arith) p))
      ]

  pub file_write-Keeps :
      (env : Env) (this : ℕ) (bytes : List ℕ) (off : ℕ) → Keeps P (file_write env this bytes off)
  unfolding file_write file_write_to
  file_write-Keeps env this bytes off = on_file-Keeps this _ λ i buf fs e p.
      let new_size = add64 off (length bytes) in
      let new_blocks =
        new_size / buf_block_size + (if new_size % buf_block_size == 0 then 0 else 1) in
      Post-if P (ltb (mul64 buf_block_size (used_blocks i)) new_size) _ _
        (Post-if P (not (check_has_space_for (some i) (sub64 new_size (size i)) fs)) _ _ p
          (elim (Option-cases (env.realloc buf (mul64 new_blocks buf_block_size))) [
            | inl r ↦ rw r p
            | inr (grown, r) ↦
                rw r (store_bytes-Keeps env this i grown true bytes off new_size new_blocks fs e p)
          ]))
        (store_bytes-Keeps env this i buf false bytes off new_size new_blocks fs e p)

  pub file_read-Keeps : (env : Env) (this count off : ℕ) → Keeps P (file_read env this count off)
  unfolding file_read file_read_from
  file_read-Keeps env this count off = on_file-Keeps this _ λ i buf fs e p.
      Post-if P (signed_lt (size i) off) _ _ p (
        Post-if P
          (leb (off + (if ltb (size i) (add64 off count) then sub64 (size i) off else count))
            (length buf))
          _ _ (frame.keep_attr this (with_attr (touch_atim env.now)) fs (λ j _. refl) p) tt)
