-- ===== src/Handlers/Readdir/Listing.antt =====
-- `FuseReadDir` of src/fuse_cpp_ramfs.cpp on a live directory: a whole listing, and a listing that
-- does not come to its end.
use fuse_cpp_ramfs.Base.{
  ℕ, ◌+◌, ◌≤◌, ◌<◌, ◌≡◌, ◌≢◌, ◌∙◌, ap, refl, true, false, some, List, [], ◌∷◌, length, ltb, ◌==◌,
  if◌then◌else◌, arith, Name, Map,
}
use fuse_cpp_ramfs.State.{Handler}
use fuse_cpp_ramfs.Handlers.Guards.{with_children}
use fuse_cpp_ramfs.State.{Inode, ReadDirCtx, Fs, Env, Stat, reply_buf, directory, >>=-some, ◌>>=◌}
use fuse_cpp_ramfs.Table.{get_inode}
use fuse_cpp_ramfs.Attr.{has_no_links}
use fuse_cpp_ramfs.Directory.{children_of}
use fuse_cpp_ramfs.Directory.Readdir.{Contexts, find_ctx, store_ctx, set_contexts, prepare_readdir}
use fuse_cpp_ramfs.Handlers.Enter.{with_live-found, with_children-found}
use fuse_cpp_ramfs.Handlers.Readdir.{
  read_dir_buf_size, entry_stat, add_entries, send_entries, send_context, fuse_readdir,
}
use fuse_cpp_ramfs.Handlers.Readdir.Fill.{live_bytes, live_count, add_entries-resends}

-- The room of a reply.
abbrev pub room_of : ℕ → ℕ
room_of size = if ltb read_dir_buf_size size then read_dir_buf_size else size

store_ctx_same :
    (c : ℕ) (ctx : ReadDirCtx) (m : Contexts) → find_ctx c m ≡ some ctx → store_ctx c ctx m ≡ m
unfolding find_ctx store_ctx
store_ctx_same c ctx [] h = refl
store_ctx_same c ctx ((k, old) ∷ m) h = ground (arith, store_ctx_same c ctx m)

entry_stat-set_contexts :
    (ino : ℕ) (m : Contexts) (fs : Fs) → entry_stat ino (set_contexts m fs) ≡ entry_stat ino fs
unfolding entry_stat
entry_stat-set_contexts ino m fs = refl

pub live-set_contexts :
    (entry : Name → Stat → List ℕ) (m : Contexts) (fs : Fs) (ch : Map ℕ)
    → (live_bytes entry (set_contexts m fs) ch ≡ live_bytes entry fs ch)
      × (live_count entry (set_contexts m fs) ch ≡ live_count entry fs ch)
unfolding live_bytes live_count
live-set_contexts entry m fs [] = (refl, refl)
live-set_contexts entry m fs ((name, ino) ∷ ch) =
    ground (arith, entry_stat-set_contexts ino m fs, live-set_contexts entry m fs ch)

pub not_zero : (c : ℕ) → c ≢ 0 → (c == 0) ≡ false
not_zero c h = ground arith

module _ (env : Env) (ino size : ℕ) (fs : Fs) (i : Inode) (ch : Map ℕ)
    (found : get_inode ino fs ≡ some i) (links : has_no_links i ≡ false)
    (is_directory : i.kind ≡ directory ch) where
  pub enter :
      (off : ℕ)
      → fuse_readdir env ino size off fs ≡ (prepare_readdir env ch off >>= send_context env size) fs
  unfolding fuse_readdir
  enter off =
      with_live-found ino (λ p. with_children p body) fs i found links
      ∙ with_children-found i body fs ch (ap children_of is_directory)
    where
      body : Map ℕ → Handler
      body entries = prepare_readdir env entries off >>= send_context env size

  -- What is sent from a context that is in the table.
  pub sent_from :
      (c : ℕ) (ctx : ReadDirCtx) (bytes : List ℕ) (sent pending : Map ℕ) (gs : Fs)
      → env.malloc_ok ≡ true
      → find_ctx c gs.readdir_states ≡ some ctx
      → add_entries
          (λ name stat. env.dirent name stat ctx.cookie)
          gs
          true
          (room_of size)
          255
          []
          ctx.sent
          ctx.pending
        ≡ some (bytes, sent, pending)
      → send_entries env size c gs
        ≡ some (
          reply_buf bytes ∷ [],
          set_contexts
              (store_ctx c (record ctx { sent = sent; pending = pending }) gs.readdir_states)
              gs,
        )
  unfolding send_entries
  sent_from c ctx bytes sent pending gs m e a = rw (e, send_entries) (rw (m, a) (rw m))

  -- The second entry behind the iterator does not fit with the first: the reading of this context
  -- never goes on.
  pub fuse_readdir-resends :
      (c k j l : ℕ) (a b : Name) (sent pending : Map ℕ) (s t : Stat)
      → env.malloc_ok ≡ true
      → c ≢ 0
      → find_ctx c fs.readdir_states
        ≡ some (record { cookie = k; sent = sent; pending = (a, j) ∷ (b, l) ∷ pending })
      → entry_stat j fs ≡ some s
      → entry_stat l fs ≡ some t
      → length (env.dirent a s k) ≤ room_of size
      → room_of size < length (env.dirent a s k) + length (env.dirent b t k)
      → fuse_readdir env ino size c fs ≡ some (reply_buf (env.dirent a s k) ∷ [], fs)
  unfolding prepare_readdir send_context
  fuse_readdir-resends c k j l a b sent pending s t m ne e f g h over =
      enter c
      ∙ >>=-some (prepare_readdir env ch c) (send_context env size) fs prepared
      ∙ sent_from c ctx (env.dirent a s k) sent ctx.pending fs m e (
          add_entries-resends (λ name stat. env.dirent name stat k) fs (room_of size) 253 sent a b j
            l pending s t f g h over)
      ∙ ap (λ st. some (reply_buf (env.dirent a s k) ∷ [], set_contexts st fs))
          (store_ctx_same c ctx fs.readdir_states e)
    where
      ctx : ReadDirCtx
      ctx = record { cookie = k; sent = sent; pending = (a, j) ∷ (b, l) ∷ pending }

      prepared : prepare_readdir env ch c fs ≡ some (some c, fs)
      prepared = rw (not_zero c ne, e)
