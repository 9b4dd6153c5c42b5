-- ===== src/File/Layout.antt =====
-- The buffer of a file against its size and blocks, and how the methods of src/file.cpp keep them.
use fuse_cpp_ramfs.Base.{
  take-length, ◌∙◌, ℕ, ◌+◌, ◌*◌, ◌/◌, ◌%◌, ◌^◌, ◌≤◌, ◌<◌, ◌≡◌, refl, true, false, Option, some,
  List, [], ◌∷◌, length, take, drop, arith, ◌==◌, if◌then◌else◌, sub64, min, ap,
}
use fuse_cpp_ramfs.State.{M, Inode, Fs, Env, file, Reply, reply_write}
use fuse_cpp_ramfs.Table.{get_inode, change_inode}
use fuse_cpp_ramfs.Table.Laws.{get-change_self}
use fuse_cpp_ramfs.Space.{buf_block_size, used_blocks, size, update_used_blocks}
use fuse_cpp_ramfs.Attr.{has_no_links}
use fuse_cpp_ramfs.Memory.{spliced, splice-spliced, length-spliced, take-drop-spliced}
use fuse_cpp_ramfs.File.{buffer_of, on_file, stored, store_bytes, on_file}

-- The buffer holds the blocks of the file, the size lies in it, and it is addressed with no
-- overflow.
pub record IsFile (i : Inode) (buf : List ℕ) : Type 0 where
  pub room : length buf ≡ buf_block_size * used_blocks i
  pub fits : size i ≤ length buf
  pub small : used_blocks i < 2 ^ 54

-- A well-formed file with the buffer `buf` stands at a number.
pub record FileAt (fs : Fs) (this : ℕ) (i : Inode) (buf : List ℕ) : Type 0 where
  pub found : get_inode this fs ≡ some i
  pub is_file : i.kind ≡ file buf
  pub layout : IsFile i buf

-- `realloc` gives a block of the size that was asked for, with the bytes that it had as far as they
-- fit.
pub record Reallocs (env : Env) : Type 0 where
  pub sized :
      (buf : List ℕ) (n : ℕ) (buf' : List ℕ) → env.realloc buf n ≡ some buf' → length buf' ≡ n
  pub keeps :
      (buf : List ℕ) (n : ℕ) (buf' : List ℕ)
      → env.realloc buf n ≡ some buf'
      → take (min (length buf) n) buf' ≡ take (min (length buf) n) buf

-- The blocks that `WriteAndReply` asks for.
abbrev pub write_blocks : ℕ → ℕ
write_blocks new_size =
    new_size / buf_block_size + (if new_size % buf_block_size == 0 then 0 else 1)

pub write_blocks_bounds :
    (n : ℕ)
    → n < 2 ^ 62
    → (n ≤ buf_block_size * write_blocks n)
      × (write_blocks n < 2 ^ 54)
      × (buf_block_size * write_blocks n < n + buf_block_size)
write_blocks_bounds n h = ground arith

-- The bytes are in the file, which is well formed and has the size `bytes`.
abbrev pub Stores : ℕ → Inode → List ℕ → ℕ → ℕ → Option (List Reply × Fs) → Type 0
Stores this i bytes off new_size r =
    (fs' : Fs) × (i' : Inode) × (buf' : List ℕ) × (r ≡ some (reply_write (length bytes) ∷ [], fs'))
    × FileAt fs' this i' buf'
    × (take (length bytes) (drop off buf') ≡ bytes)
    × (size i' ≡ new_size)
    × (has_no_links i' ≡ has_no_links i)

module _ (env : Env) (fs : Fs) (this : ℕ) (i : Inode) (found : get_inode this fs ≡ some i) where
  -- A file after the change of its buffer, blocks and size.
  pub stored-FileAt :
      (fs' : Fs) (buf : List ℕ) (blocks bytes : ℕ)
      → get_inode this fs' ≡ some i
      → length buf ≡ buf_block_size * blocks
      → bytes ≤ length buf
      → blocks < 2 ^ 54
      → FileAt
          (change_inode this (stored env.now buf blocks bytes) fs')
          this
          (stored env.now buf blocks bytes i)
          buf
  stored-FileAt fs' buf blocks bytes e r f s = record {
    found = get-change_self this (stored env.now buf blocks bytes) fs' e;
    is_file = refl;
    layout = record { room = r; fits = f; small = s };
  }

  get-update_used_blocks : (n : ℕ) → get_inode this (update_used_blocks n fs) ≡ some i
  unfolding get_inode update_used_blocks
  get-update_used_blocks n = found

  pub store_bytes-grows :
      (buf bytes : List ℕ) (off new_size new_blocks : ℕ)
      → off + length bytes ≤ length buf
      → length buf ≡ buf_block_size * new_blocks
      → new_size ≤ length buf
      → new_blocks < 2 ^ 54
      → Stores this i bytes off new_size
          (store_bytes env this i buf true bytes off new_size new_blocks fs)
  unfolding store_bytes
  store_bytes-grows buf bytes off new_size new_blocks h r f s =
      let buf' = spliced off bytes buf in
      rw (splice-spliced off bytes buf h, store_bytes)
        (
          change_inode this (stored env.now buf' new_blocks new_size)
              (update_used_blocks (sub64 new_blocks (used_blocks i)) fs),
          stored env.now buf' new_blocks new_size i,
          buf',
          refl,
          stored-FileAt (update_used_blocks (sub64 new_blocks (used_blocks i)) fs) buf' new_blocks
              new_size (get-update_used_blocks (sub64 new_blocks (used_blocks i)))
              (length-spliced off bytes buf h ∙ r) (omega (arith, length-spliced off bytes buf h))
              s,
          take-drop-spliced (length bytes) off bytes buf h (omega arith) ∙ take-length bytes,
          refl,
          refl,
        )

  pub store_bytes-stays :
      (buf bytes : List ℕ) (off new_size new_blocks : ℕ)
      → off + length bytes ≤ length buf
      → IsFile i buf
      → Stores this i bytes off
          (size i)
          (store_bytes env this i buf false bytes off new_size new_blocks fs)
  unfolding store_bytes
  store_bytes-stays buf bytes off new_size new_blocks h l =
      let buf' = spliced off bytes buf in
      rw (splice-spliced off bytes buf h, store_bytes)
        (
          change_inode this (stored env.now buf' (used_blocks i) (size i)) fs,
          stored env.now buf' (used_blocks i) (size i) i,
          buf',
          refl,
          stored-FileAt fs buf' (used_blocks i) (size i) found
              (length-spliced off bytes buf h ∙ l.room)
              (omega (arith, l.fits, length-spliced off bytes buf h)) l.small,
          take-drop-spliced (length bytes) off bytes buf h (omega arith) ∙ take-length bytes,
          refl,
          refl,
        )

-- A method of a well-formed file is called with its inode and its buffer.
pub on_file-FileAt :
    {A : Type 0} (this : ℕ) (k : Inode → List ℕ → M A) (fs : Fs) (i : Inode) (buf : List ℕ)
    → FileAt fs this i buf
    → on_file this k fs ≡ k i buf fs
on_file-FileAt this k fs i buf at = rw (at.found, on_file) (rw (ap buffer_of at.is_file))
