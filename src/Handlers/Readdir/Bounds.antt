-- ===== src/Handlers/Readdir/Bounds.antt =====
-- How long the replies of `FuseReadDir` of src/fuse_cpp_ramfs.cpp are.
use fuse_cpp_ramfs.Base.{
  ℕ, ◌≡◌, ◌≤◌, Bool, true, false, Option, none, some, List, [], ◌∷◌, ◌++◌, length, ltb, inl, inr,
  Option-cases, if◌then◌else◌, Name, Map, arith, min,
}
use fuse_cpp_ramfs.State.{
  Inode, ReadDirCtx, Fs, Env, Stat, M, ◌>>=◌, Handler, Reply, reply_err, reply_buf, plus, enomem,
}
use fuse_cpp_ramfs.Table.{get_inode}
use fuse_cpp_ramfs.Attr.{has_no_links}
use fuse_cpp_ramfs.Directory.{children_of}
use fuse_cpp_ramfs.Directory.Readdir.{find_ctx, store_ctx, set_contexts, prepare_readdir}
use fuse_cpp_ramfs.Handlers.Guards.{with_live, with_children}
use fuse_cpp_ramfs.Handlers.Readdir.{
  read_dir_buf_size, read_dir_entries_per_response, add_entries, send_entries, send_context,
  fuse_readdir,
}
use fuse_cpp_ramfs.Handlers.Readdir.Fill.{Filled, add_entries-Filled, children_from}

-- The buffers that are sent have at most this many bytes.
abbrev pub BuffersFit : ℕ → List Reply → Type 0
BuffersFit n [] = Unit
BuffersFit n (reply_buf bytes ∷ rs) = (length bytes ≤ n) × BuffersFit n rs
BuffersFit n (_ ∷ rs) = BuffersFit n rs

abbrev pub SendsAtMost : ℕ → Option (List Reply × Fs) → Type 0
SendsAtMost n none = Unit
SendsAtMost n (some (rs, fs)) = BuffersFit n rs

SendsAtMost-if :
    (n : ℕ) (b : Bool) (x y : Option (List Reply × Fs))
    → SendsAtMost n x
    → SendsAtMost n y
    → SendsAtMost n (if b then x else y)
SendsAtMost-if n true x y p q = p
SendsAtMost-if n false x y p q = q

SendsAtMost->>= :
    {A : Type 0} (n : ℕ) (m : M A) (k : A → Handler)
    → ((a : A) (fs : Fs) → SendsAtMost n (k a fs))
    → (fs : Fs) → SendsAtMost n ((m >>= k) fs)
SendsAtMost->>= {A} n m k h fs = go (m fs)
  where
    go :
        (r : Option (A × Fs))
        → SendsAtMost n
            (elim r as (λ _. Option (List Reply × Fs)) [ none ↦ none | some (a, fs') ↦ k a fs' ])
    go none = tt
    go (some (a, fs')) = h a fs'

with_live-SendsAtMost :
    (n ino : ℕ) (k : Inode → Handler)
    → ((i : Inode) (fs : Fs) → SendsAtMost n (k i fs))
    → (fs : Fs) → SendsAtMost n (with_live ino k fs)
unfolding with_live
with_live-SendsAtMost n ino k h fs = elim (Option-cases (get_inode ino fs)) [
  | inl e ↦ rw (e, with_live) tt
  | inr (i, e) ↦ rw (e, with_live) (SendsAtMost-if n (has_no_links i) _ _ tt (h i fs))
]

with_children-SendsAtMost :
    (n : ℕ) (i : Inode) (k : Map ℕ → Handler)
    → ((ch : Map ℕ) (fs : Fs) → SendsAtMost n (k ch fs))
    → (fs : Fs) → SendsAtMost n (with_children i k fs)
unfolding with_children
with_children-SendsAtMost n i k h fs = elim (Option-cases (children_of i.kind)) [
  | inl e ↦ rw (e, with_children) tt
  | inr (ch, e) ↦ rw (e, with_children) (h ch fs)
]

room-min :
    (size : ℕ) → (if ltb read_dir_buf_size size then read_dir_buf_size else size) ≡ min size 384
room-min size = ground arith

refused-BuffersFit :
    (n : ℕ) (b : Bool) (bytes : List ℕ)
    → length bytes ≤ n
    → BuffersFit n ((if b then [] else reply_err (plus enomem) ∷ []) ++ reply_buf bytes ∷ [])
refused-BuffersFit n true bytes h = (h, tt)
refused-BuffersFit n false bytes h = (h, tt)

send_entries-SendsAtMost :
    (env : Env) (size c : ℕ) (fs : Fs) → SendsAtMost (min size 384) (send_entries env size c fs)
unfolding send_entries
send_entries-SendsAtMost env size c fs = elim (Option-cases (find_ctx c fs.readdir_states)) [
  | inl e ↦ rw (e, send_entries) tt
  | inr (ctx, e) ↦
      let entry : Name → Stat → List ℕ = λ name stat. env.dirent name stat ctx.cookie in
      let room = if ltb read_dir_buf_size size then read_dir_buf_size else size in
      rw (e, send_entries)
        (sent ctx
          (add_entries entry fs env.malloc_ok room read_dir_entries_per_response [] ctx.sent
            ctx.pending)
          (add_entries-Filled entry fs env.malloc_ok room read_dir_entries_per_response [] ctx.sent
            ctx.pending (omega arith)))
]
  where
    sent :
        (ctx : ReadDirCtx) (r : Option (List ℕ × Map ℕ × Map ℕ))
        → Filled
            (if ltb read_dir_buf_size size then read_dir_buf_size else size)
            (children_from ctx.sent ctx.pending)
            r
        → SendsAtMost (min size 384) (elim r as (λ _. Option (List Reply × Fs)) [
          | none ↦ none
          | some (bytes, seen, pending) ↦ some (
            (if env.malloc_ok then [] else reply_err (plus enomem) ∷ []) ++ reply_buf bytes ∷ [],
            set_contexts
                (store_ctx c (record ctx { sent = seen; pending = pending }) fs.readdir_states)
                fs,
          )
        ])
    sent ctx none h = tt
    sent ctx (some (bytes, seen, pending)) h =
        refused-BuffersFit (min size 384) env.malloc_ok bytes (omega (arith, h.0, room-min size))

send_context-SendsAtMost :
    (env : Env) (size : ℕ) (c : Option ℕ) (fs : Fs)
    → SendsAtMost (min size 384) (send_context env size c fs)
unfolding send_context
send_context-SendsAtMost env size none fs = (omega arith, tt)
send_context-SendsAtMost env size (some c) fs = send_entries-SendsAtMost env size c fs

-- A buffer that a reading of a directory sends is no longer than what the caller has room for, and
-- than 384 bytes, whatever the directory holds and the cookie is.
pub fuse_readdir-SendsAtMost :
    (env : Env) (ino size off : ℕ) (fs : Fs)
    → SendsAtMost (min size 384) (fuse_readdir env ino size off fs)
unfolding fuse_readdir
fuse_readdir-SendsAtMost env ino size off = with_live-SendsAtMost (min size 384) ino _ λ i.
    with_children-SendsAtMost (min size 384) i _ λ ch.
      SendsAtMost->>= (min size 384) (prepare_readdir env ch off) (send_context env size)
        (send_context-SendsAtMost env size)
