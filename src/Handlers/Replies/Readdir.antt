-- ===== src/Handlers/Replies/Readdir.antt =====
-- The replies of `FuseReadDir` of src/fuse_cpp_ramfs.cpp: how many, and how long.
use fuse_cpp_ramfs.Base.{
  ℕ, ◌≡◌, refl, true, Option, none, some, List, [], ◌∷◌, ◌++◌, ltb, inl, inr, Option-cases,
  if◌then◌else◌, Map,
}
use fuse_cpp_ramfs.State.{ReadDirCtx, Fs, Env, Reply, reply_err, reply_buf, plus, enomem}
use fuse_cpp_ramfs.Directory.Readdir.{find_ctx, store_ctx, set_contexts, prepare_readdir}
use fuse_cpp_ramfs.Handlers.Readdir.{
  read_dir_buf_size, read_dir_entries_per_response, add_entries, send_entries, send_context,
  fuse_readdir,
}
use fuse_cpp_ramfs.Handlers.Replies.{
  OneReply, Answers, Answers->>=, Answers-with_live, Answers-with_children,
}

send_entries-Answers :
    (env : Env) (size c : ℕ) → env.malloc_ok ≡ true → Answers (send_entries env size c)
unfolding send_entries
send_entries-Answers env size c m fs = elim (Option-cases (find_ctx c fs.readdir_states)) [
  | inl e ↦ rw (e, send_entries) tt
  | inr (ctx, e) ↦
      rw (e, send_entries)
        (sent ctx (
          add_entries (λ name stat. env.dirent name stat ctx.cookie) fs env.malloc_ok
            (if ltb read_dir_buf_size size then read_dir_buf_size else size)
            read_dir_entries_per_response [] ctx.sent ctx.pending))
]
  where
    sent :
        (ctx : ReadDirCtx) (r : Option (List ℕ × Map ℕ × Map ℕ))
        → OneReply (elim r as (λ _. Option (List Reply × Fs)) [
          | none ↦ none
          | some (bytes, seen, pending) ↦ some (
            (if env.malloc_ok then [] else reply_err (plus enomem) ∷ []) ++ reply_buf bytes ∷ [],
            set_contexts
                (store_ctx c (record ctx { sent = seen; pending = pending }) fs.readdir_states)
                fs,
          )
        ])
    sent ctx none = tt
    sent ctx (some (bytes, seen, pending)) = rw m refl

send_context-Answers :
    (env : Env) (size : ℕ)
    → env.malloc_ok ≡ true
    → (c : Option ℕ) → Answers (send_context env size c)
unfolding send_context
send_context-Answers env size m none = λ fs. refl
send_context-Answers env size m (some c) = send_entries-Answers env size c m

pub fuse_readdir-Answers :
    (env : Env) (ino size off : ℕ) → env.malloc_ok ≡ true → Answers (fuse_readdir env ino size off)
unfolding fuse_readdir
fuse_readdir-Answers env ino size off m = Answers-with_live ino _ λ i.
    Answers-with_children i _ λ ch.
      Answers->>= (prepare_readdir env ch off) (send_context env size)
        (send_context-Answers env size m)
