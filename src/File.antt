-- ===== src/File.antt =====
-- Regular files: src/file.hpp and src/file.cpp. `this` is the number of the file's inode; the bytes
-- of `m_buf` are kept in its kind.
pub mod Layout
pub mod Write
pub mod Truncate
pub mod RoundTrip
pub mod Read
use fuse_cpp_ramfs.Base.{
  ℕ, ◌+◌, ◌-◌, ◌/◌, ◌%◌, Bool, true, false, not, Option, none, some, List, [], length, take, drop,
  replicate, leb, ltb, ◌==◌, if◌then◌else◌, add64, sub64, mul64, signed_lt,
}
use fuse_cpp_ramfs.State.{
  enospc, einval, Code, success, plus, minus, Kind, Inode, file, Fs, M, pure, fault, ◌>>=◌, ◌>>◌,
  modify, Handler, reply, error, reply_write, reply_buf, Env, Stat,
}
use fuse_cpp_ramfs.Table.{get_inode, change_inode}
use fuse_cpp_ramfs.Space.{
  buf_block_size, get_nblocks, used_blocks, size, update_used_blocks, check_has_space_for,
}
use fuse_cpp_ramfs.Memory.{splice}
use fuse_cpp_ramfs.Attr.{with_attr, with_kind}

-- `m_buf` of a file; no other inode has one.
abbrev pub buffer_of : Kind → Option (List ℕ)
buffer_of (file buf) = some buf
buffer_of _ = none

-- The new contents, blocks, size and times of a file.
abbrev pub stored : ℕ → List ℕ → ℕ → ℕ → Inode → Inode
stored now buf blocks bytes i = with_kind (file buf) (
    with_attr (λ a. record a { st_blocks = blocks; st_size = bytes; st_ctim = now; st_mtim = now })
      i)

-- The buffer of `FileTruncate` after the `realloc`, which is not called where the number of blocks
-- stays; `none` is the return with `EINVAL`.
unfoldable pub truncated_buffer : Env → List ℕ → ℕ → ℕ → Option (List ℕ)
unfolding mul64
truncated_buffer env buf old_blocks new_blocks =
    if new_blocks == old_blocks
    then some buf
    else if new_blocks == 0
    then some []
    else env.realloc buf (mul64 new_blocks buf_block_size)

-- The bytes from the old size on are cleared.
unfoldable pub cleared : List ℕ → ℕ → ℕ → Option (List ℕ)
unfolding splice
cleared buf old_size new_size =
    if ltb old_size new_size
    then splice old_size (replicate (new_size - old_size) 0) buf
    else some buf

-- `File::FileTruncate`, for the inode `i` that `this` points to, with the buffer `buf`.
unfoldable pub truncate_to : Env → ℕ → Inode → List ℕ → ℕ → M Code
truncate_to env this i buf new_size fs =
    let new_blocks = get_nblocks new_size buf_block_size in
    if not (check_has_space_for (some i) (sub64 new_size (size i)) fs)
    then pure (minus enospc) fs
    else elim (truncated_buffer env buf (used_blocks i) new_blocks) [
      | none ↦ pure (plus einval) fs
      | some grown ↦ elim (cleared grown (size i) new_size) [
        | none ↦ none
        | some buf' ↦ some (
          success,
          change_inode this (stored env.now buf' new_blocks new_size)
              (update_used_blocks (sub64 new_blocks (used_blocks i)) fs),
        )
      ]
    ]

-- A call of a method of `File` on `this`.
abbrev pub on_file : {A : Type 0} → ℕ → (Inode → List ℕ → M A) → M A
on_file this k fs = elim (get_inode this fs) [
  | none ↦ none
  | some i ↦ elim (buffer_of i.kind) [ none ↦ none | some buf ↦ k i buf fs ]
]

unfoldable pub file_truncate : Env → ℕ → ℕ → M Code
unfolding truncate_to get_inode
file_truncate env this new_size = on_file this λ i buf. truncate_to env this i buf new_size

-- The end of `WriteAndReply`, from the copy on. `grows` is `newSize > originalCapacity`.
unfoldable pub store_bytes : Env → ℕ → Inode → List ℕ → Bool → List ℕ → ℕ → ℕ → ℕ → Handler
store_bytes env this i buf grows bytes off new_size new_blocks fs = elim (splice off bytes buf) [
  | none ↦ none
  | some buf' ↦
      if grows
      then reply (reply_write (length bytes)) (
          change_inode this (stored env.now buf' new_blocks new_size)
            (update_used_blocks (sub64 new_blocks (used_blocks i)) fs))
      else reply (reply_write (length bytes))
          (change_inode this (stored env.now buf' (used_blocks i) (size i)) fs)
]

-- `File::WriteAndReply`; `size` is the length of the bytes.
unfoldable pub file_write_to : Env → ℕ → Inode → List ℕ → List ℕ → ℕ → Handler
file_write_to env this i buf bytes off fs =
    let new_size = add64 off (length bytes) in
    let new_blocks =
      new_size / buf_block_size + (if new_size % buf_block_size == 0 then 0 else 1) in
    if ltb (mul64 buf_block_size (used_blocks i)) new_size
    then if not (check_has_space_for (some i) (sub64 new_size (size i)) fs)
      then error enospc fs
      else elim (env.realloc buf (mul64 new_blocks buf_block_size)) [
        | none ↦ reply (reply_write 0) fs
        | some grown ↦ store_bytes env this i grown true bytes off new_size new_blocks fs
      ]
    else store_bytes env this i buf false bytes off new_size new_blocks fs

unfoldable pub file_write : Env → ℕ → List ℕ → ℕ → Handler
unfolding file_write_to get_inode
file_write env this bytes off = on_file this λ i buf. file_write_to env this i buf bytes off

abbrev pub touch_atim : ℕ → Stat → Stat
touch_atim now a = record a { st_atim = now }

-- `File::ReadAndReply`. A read outside of the buffer is a fault.
unfoldable pub file_read_from : Env → ℕ → Inode → List ℕ → ℕ → ℕ → Handler
file_read_from env this i buf count off fs =
    if signed_lt (size i) off
    then reply (reply_buf []) fs
    else let bytes_read = if ltb (size i) (add64 off count) then sub64 (size i) off else count in
      if leb (off + bytes_read) (length buf)
      then reply (reply_buf (take bytes_read (drop off buf)))
          (change_inode this (with_attr (touch_atim env.now)) fs)
      else none

unfoldable pub file_read : Env → ℕ → ℕ → ℕ → Handler
unfolding file_read_from get_inode
file_read env this count off = on_file this λ i buf. file_read_from env this i buf count off
