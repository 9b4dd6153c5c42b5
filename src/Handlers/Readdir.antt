-- ===== src/Handlers/Readdir.antt =====
-- `FuseReadDir` of src/fuse_cpp_ramfs.cpp. The sizes are those of objects in memory, so the sum of
-- the buffer's and an entry's does not overflow.
pub mod Fill
pub mod Bounds
pub mod Listing
pub mod Whole
use fuse_cpp_ramfs.Base.{
  ℕ, zero, suc, ◌+◌, Bool, true, false, Option, none, some, List, [], ◌∷◌, ◌++◌, length, ltb,
  if◌then◌else◌, Name, Map,
}
use fuse_cpp_ramfs.State.{
  enomem, plus, Stat, ReadDirCtx, Fs, Env, M, ◌>>=◌, Handler, Reply, reply, reply_err, reply_buf,
}
use fuse_cpp_ramfs.Table.{get_inode}
use fuse_cpp_ramfs.Attr.{get_attr, has_no_links}
use fuse_cpp_ramfs.Directory.Readdir.{find_ctx, store_ctx, set_contexts, prepare_readdir}
use fuse_cpp_ramfs.Handlers.Guards.{with_live, with_children}

abbrev pub read_dir_entries_per_response : ℕ
read_dir_entries_per_response = 255

abbrev pub read_dir_buf_size : ℕ
read_dir_buf_size = 384

-- The attributes that are sent with an entry; `none` for a child that is deleted.
unfoldable pub entry_stat : ℕ → Fs → Option Stat
unfolding get_inode
entry_stat ino fs = elim (get_inode ino fs) [
  | none ↦ none
  | some i ↦ if has_no_links i then none else some (record (get_attr i) { st_ino = ino })
]

-- The iterator goes back by one; before the first child there is nothing to go back to.
unfoldable pub step_back : List ℕ → Map ℕ → Map ℕ → Option (List ℕ × Map ℕ × Map ℕ)
step_back bytes [] pending = none
step_back bytes (e ∷ sent) pending = some (bytes, sent, e ∷ pending)

-- The loop, with the number of entries that may still be added, the bytes that were added, and the
-- children before and from the iterator on. Without a buffer, an entry that fits is written through
-- a null pointer.
module _ (entry : Name → Stat → List ℕ) (fs : Fs) (has_buf : Bool) (buf_size : ℕ) where
  unfoldable pub add_entries : ℕ → List ℕ → Map ℕ → Map ℕ → Option (List ℕ × Map ℕ × Map ℕ)
  unfolding entry_stat step_back
  add_entries left bytes sent [] = some (bytes, sent, [])
  add_entries zero bytes sent (e ∷ pending) = some (bytes, sent, e ∷ pending)
  add_entries (suc left) bytes sent ((name, ino) ∷ pending) = elim (entry_stat ino fs) [
    | none ↦ add_entries (suc left) bytes ((name, ino) ∷ sent) pending
    | some stat ↦
        let new = bytes ++ entry name stat in
        let rest = add_entries left new ((name, ino) ∷ sent) pending in
        if ltb buf_size (length new)
        then step_back bytes sent ((name, ino) ∷ pending)
        else if has_buf
        then rest
        else none
  ]

-- The part from the allocation of the buffer on. Where `malloc` fails an error is sent, and the
-- handler goes on.
unfoldable pub send_entries : Env → ℕ → ℕ → Handler
send_entries env size c fs = elim (find_ctx c fs.readdir_states) [
  | none ↦ none
  | some ctx ↦
      let buf_size = if ltb read_dir_buf_size size then read_dir_buf_size else size in
      let refused = if env.malloc_ok then [] else reply_err (plus enomem) ∷ [] in
      let result =
        add_entries (λ name stat. env.dirent name stat ctx.cookie) fs env.malloc_ok buf_size
          read_dir_entries_per_response [] ctx.sent ctx.pending in
      elim result [
        | none ↦ none
        | some (bytes, sent, pending) ↦ some (
          refused ++ reply_buf bytes ∷ [],
          set_contexts
              (store_ctx c (record ctx { sent = sent; pending = pending }) fs.readdir_states) fs,
        )
      ]
]

-- What follows `PrepareReaddir`: its exception is answered with an empty buffer.
unfoldable pub send_context : Env → ℕ → Option ℕ → Handler
unfolding send_entries
send_context env size none = reply (reply_buf [])
send_context env size (some c) = send_entries env size c

unfoldable pub fuse_readdir : Env → ℕ → ℕ → ℕ → Handler
unfolding with_live with_children prepare_readdir send_context
fuse_readdir env ino size off =
    with_live ino
      λ i. with_children i λ ch. do ctx ← prepare_readdir env ch off; send_context env size ctx
