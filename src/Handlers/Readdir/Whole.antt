-- ===== src/Handlers/Readdir/Whole.antt =====
-- A whole listing by `FuseReadDir` of src/fuse_cpp_ramfs.cpp: the call that opens it, and the call
-- that ends it.
use fuse_cpp_ramfs.Base.{
  ℕ, ◌≤◌, ◌<◌, ◌≡◌, ◌≢◌, ◌∙◌, ap, true, false, none, some, List, [], ◌∷◌, length, ◌==◌, arith, Name,
  Map,
}
use fuse_cpp_ramfs.State.{Inode, Fs, Env, Stat, reply_buf, directory, >>=-some}
use fuse_cpp_ramfs.Table.{get_inode}
use fuse_cpp_ramfs.Attr.{has_no_links}
use fuse_cpp_ramfs.Directory.Readdir.{
  find_ctx, erase_ctx, store_ctx, set_contexts, new_ctx, fresh_cookie, prepare_readdir,
}
use fuse_cpp_ramfs.Handlers.Readdir.{add_entries, send_context, fuse_readdir}
use fuse_cpp_ramfs.Handlers.Readdir.Fill.{
  children_from, live_bytes, live_count, add_entries-live_bytes,
}
use fuse_cpp_ramfs.Handlers.Readdir.Listing.{room_of, not_zero, enter, sent_from, live-set_contexts}

same : (c : ℕ) → (c == c) ≡ true
same c = ground arith

module _ (env : Env) (ino size : ℕ) (fs : Fs) (i : Inode) (ch : Map ℕ)
    (found : get_inode ino fs ≡ some i) (links : has_no_links i ≡ false)
    (is_directory : i.kind ≡ directory ch) (c : ℕ) where
  abbrev pub entry : Name → Stat → List ℕ
  entry name stat = env.dirent name stat c

  abbrev opened : Fs
  opened = set_contexts ((c, new_ctx c ch) ∷ fs.readdir_states) fs

  -- The context when all of its children have been sent.
  abbrev pub read_out : Fs
  read_out =
      set_contexts
        ((c, record { cookie = c; sent = children_from ch []; pending = [] }) ∷ fs.readdir_states)
        fs

  opening :
      env.malloc_ok ≡ true
      → fresh_cookie env.rand fs.readdir_states ≡ some c
      → length (live_bytes entry fs ch) ≤ room_of size
      → live_count entry fs ch < 255
      → fuse_readdir env ino size 0 fs ≡ some (reply_buf (live_bytes entry fs ch) ∷ [], read_out)
  unfolding prepare_readdir send_context find_ctx store_ctx
  opening m fresh fits few =
      enter env ino size fs i ch found links is_directory 0
      ∙ >>=-some (prepare_readdir env ch 0) (send_context env size) fs prepared
      ∙ sent_from env ino size fs i ch found links is_directory c (new_ctx c ch)
          (live_bytes entry fs ch) (children_from ch []) [] opened m (rw (same c)) filled
      ∙ rw (same c)
    where
      prepared : prepare_readdir env ch 0 fs ≡ some (some c, opened)
      prepared = rw fresh

      live :
          (live_bytes entry opened ch ≡ live_bytes entry fs ch)
          × (live_count entry opened ch ≡ live_count entry fs ch)
      live = live-set_contexts entry ((c, new_ctx c ch) ∷ fs.readdir_states) fs ch

      filled :
          add_entries entry opened true (room_of size) 255 [] [] ch
          ≡ some (live_bytes entry fs ch, children_from ch [], [])
      filled =
          add_entries-live_bytes entry opened (room_of size) 255 [] [] ch
            (omega (arith, ap (length {A = ℕ}) live.0)) (omega (arith, live.1))
          ∙ ap (λ bytes. some (bytes, children_from ch [], [])) live.0

  closing :
      (env' : Env) (size' : ℕ)
      → c ≢ 0
      → fuse_readdir env' ino size' c read_out ≡ some (reply_buf [] ∷ [], fs)
  unfolding prepare_readdir send_context find_ctx erase_ctx get_inode
  closing env' size' ne =
      enter env' ino size' read_out i ch found links is_directory c
      ∙ >>=-some (prepare_readdir env' ch c) (send_context env' size') read_out prepared
    where
      known :
          find_ctx c read_out.readdir_states
          ≡ some (record { cookie = c; sent = children_from ch []; pending = [] })
      known = rw (same c)

      gone : erase_ctx c read_out.readdir_states ≡ fs.readdir_states
      gone = rw (same c)

      prepared : prepare_readdir env' ch c read_out ≡ some (none, fs)
      prepared = rw (not_zero c ne, known, gone)

  -- Where `malloc` finds memory, the loop finds a cookie that is not zero, the entries of the
  -- children that are not deleted fit the reply, and there are fewer than 255 of them, the first
  -- call on a live directory sends them all. The call with the cookie then sends an empty buffer,
  -- and leaves the state as it was before.
  pub fuse_readdir-fuse_readdir :
      (env' : Env) (size' : ℕ)
      → env.malloc_ok ≡ true
      → fresh_cookie env.rand fs.readdir_states ≡ some c
      → c ≢ 0
      → length (live_bytes entry fs ch) ≤ room_of size
      → live_count entry fs ch < 255
      → (fs' : Fs) × (fuse_readdir env ino size 0 fs
          ≡ some (reply_buf (live_bytes entry fs ch) ∷ [], fs'))
        × (fuse_readdir env' ino size' c fs' ≡ some (reply_buf [] ∷ [], fs))
  fuse_readdir-fuse_readdir env' size' m fresh ne fits few =
      (read_out, opening m fresh fits few, closing env' size' ne)
