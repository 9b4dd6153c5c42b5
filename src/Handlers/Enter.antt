-- ===== src/Handlers/Enter.antt =====
-- What the tests at the start of a handler give, where they pass and where they do not.
use fuse_cpp_ramfs.Base.{ℕ, ◌≡◌, inl, inr, none, some, false, Map, arith, Option-cases}
use fuse_cpp_ramfs.State.{Inode, Fs, Handler, error, enoent, enotdir}
use fuse_cpp_ramfs.Table.{get_inode}
use fuse_cpp_ramfs.Attr.{has_no_links}
use fuse_cpp_ramfs.Directory.{children_of, is_live}
use fuse_cpp_ramfs.Handlers.Guards.{with_live, with_children}

pub with_live-found :
    (ino : ℕ) (k : Inode → Handler) (fs : Fs) (i : Inode)
    → get_inode ino fs ≡ some i
    → has_no_links i ≡ false
    → with_live ino k fs ≡ k i fs
unfolding with_live
with_live-found ino k fs i e h = rw (e, with_live) (rw h)

pub with_live-dead :
    (ino : ℕ) (k : Inode → Handler) (fs : Fs)
    → is_live (get_inode ino fs) ≡ false
    → with_live ino k fs ≡ error enoent fs
unfolding with_live
with_live-dead ino k fs h = elim (Option-cases (get_inode ino fs)) [
  | inl e ↦ rw (e, with_live)
  | inr (i, e) ↦ rw (e, with_live) (ground (arith, e, h))
]

pub with_children-found :
    (i : Inode) (k : Map ℕ → Handler) (fs : Fs) (ch : Map ℕ)
    → children_of i.kind ≡ some ch
    → with_children i k fs ≡ k ch fs
unfolding with_children
with_children-found i k fs ch e = rw (e, with_children)

pub with_children-other :
    (i : Inode) (k : Map ℕ → Handler) (fs : Fs)
    → children_of i.kind ≡ none
    → with_children i k fs ≡ error enotdir fs
unfolding with_children
with_children-other i k fs e = rw (e, with_children)
