-- ===== src/Keeps/Readdir.antt =====
-- The reading of a directory keeps every invariant that bears a change of the contexts.
use fuse_cpp_ramfs.Base.{
  ℕ, ◌≡◌, refl, Option, none, some, List, [], ◌∷◌, ◌==◌, inl, inr, Option-cases, Map, ltb,
  if◌then◌else◌, ◌++◌,
}
use fuse_cpp_ramfs.State.{ReadDirCtx, Fs, Env, Reply, reply_err, reply_buf, plus, enomem}
use fuse_cpp_ramfs.Directory.Readdir.{
  find_ctx, erase_ctx, store_ctx, set_contexts, new_ctx, fresh_cookie, prepare_readdir,
}
use fuse_cpp_ramfs.Directory.Readdir.Cookies.{
  erase_ctx-Cookies, store_ctx-Cookies, find_ctx-Cookies, fresh_cookie_lem,
}
use fuse_cpp_ramfs.Handlers.Readdir.{
  read_dir_buf_size, read_dir_entries_per_response, add_entries, send_entries, send_context,
  fuse_readdir,
}
use fuse_cpp_ramfs.Keeps.{
  Keeps, Frame, Keeps->>=, Post, Post-if, Keeps-with_live, Keeps-with_children,
}

module _ (P : Fs → Type 0) (frame : Frame P) where
  prepare_readdir-Keeps : (env : Env) (ch : Map ℕ) (off : ℕ) → Keeps P (prepare_readdir env ch off)
  unfolding prepare_readdir
  prepare_readdir-Keeps env ch off fs p = Post-if P (off == 0) _ _ new known
    where
      new :
          Post P (elim (fresh_cookie env.rand fs.readdir_states) as (λ _. Option (Option ℕ × Fs)) [
            | none ↦ none
            | some c ↦ some (some c, set_contexts ((c, new_ctx c ch) ∷ fs.readdir_states) fs)
          ])
      new = elim (Option-cases (fresh_cookie env.rand fs.readdir_states)) [
        | inl e ↦ rw e tt
        | inr (c, e) ↦ rw e (
            frame.keep_contexts ((c, new_ctx c ch) ∷ fs.readdir_states) fs
              (λ h. (fresh_cookie_lem env.rand fs.readdir_states c e, refl, h)) p)
      ]

      ended :
          (c : ℕ) (pending : Map ℕ)
          → Post P (elim pending as (λ _. Option (Option ℕ × Fs)) [
            | [] ↦ some (none, set_contexts (erase_ctx c fs.readdir_states) fs)
            | _ ∷ _ ↦ some (some c, fs)
          ])
      ended c [] =
          frame.keep_contexts (erase_ctx c fs.readdir_states) fs
            (erase_ctx-Cookies c fs.readdir_states) p
      ended c (e ∷ pending) = p

      known : Post P (elim (find_ctx off fs.readdir_states) as (λ _. Option (Option ℕ × Fs)) [
        | none ↦ some (none, fs)
        | some ctx ↦ elim ctx.pending as (λ _. Option (Option ℕ × Fs)) [
          | [] ↦ some (none, set_contexts (erase_ctx off fs.readdir_states) fs)
          | _ ∷ _ ↦ some (some off, fs)
        ]
      ])
      known = elim (Option-cases (find_ctx off fs.readdir_states)) [
        | inl e ↦ rw e p
        | inr (ctx, e) ↦ rw e (ended off ctx.pending)
      ]

  send_entries-Keeps : (env : Env) (size c : ℕ) → Keeps P (send_entries env size c)
  unfolding send_entries
  send_entries-Keeps env size c fs p = elim (Option-cases (find_ctx c fs.readdir_states)) [
    | inl e ↦ rw (e, send_entries) tt
    | inr (ctx, e) ↦
        rw (e, send_entries)
          (stored ctx e (
            add_entries (λ name stat. env.dirent name stat ctx.cookie) fs env.malloc_ok
              (if ltb read_dir_buf_size size then read_dir_buf_size else size)
              read_dir_entries_per_response [] ctx.sent ctx.pending))
  ]
    where
      stored :
          (ctx : ReadDirCtx)
          → find_ctx c fs.readdir_states ≡ some ctx
          → (r : Option (List ℕ × Map ℕ × Map ℕ))
          → Post P (elim r as (λ _. Option (List Reply × Fs)) [
            | none ↦ none
            | some (bytes, sent, pending) ↦ some (
              (if env.malloc_ok then [] else reply_err (plus enomem) ∷ []) ++ reply_buf bytes ∷ [],
              set_contexts
                  (store_ctx c (record ctx { sent = sent; pending = pending }) fs.readdir_states)
                  fs,
            )
          ])
      stored ctx e none = tt
      stored ctx e (some (bytes, sent, pending)) =
          frame.keep_contexts _ fs
            (λ h.
              store_ctx-Cookies c (record ctx { sent = sent; pending = pending }) fs.readdir_states
                (find_ctx-Cookies c fs.readdir_states ctx h e) h)
            p

  send_context-Keeps : (env : Env) (size : ℕ) (ctx : Option ℕ) → Keeps P (send_context env size ctx)
  unfolding send_context
  send_context-Keeps env size none = λ fs p. p
  send_context-Keeps env size (some c) = send_entries-Keeps env size c

  pub fuse_readdir-Keeps : (env : Env) (ino size off : ℕ) → Keeps P (fuse_readdir env ino size off)
  unfolding fuse_readdir
  fuse_readdir-Keeps env ino size off = Keeps-with_live P ino _ λ i. Keeps-with_children P i _ λ ch.
      Keeps->>= P (prepare_readdir env ch off) (send_context env size)
        (prepare_readdir-Keeps env ch off) (send_context-Keeps env size)
