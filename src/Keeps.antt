-- ===== src/Keeps.antt =====
-- The rule by which an invariant is carried through the steps of a handler: what holds before a
-- step holds after it, unless the step faults.
pub mod Directory
pub mod File
pub mod Handlers
pub mod Rename
pub mod Create
pub mod Readdir
use fuse_cpp_ramfs.Base.{
  ℕ, ◌≡◌, Bool, true, false, Option, none, some, sub64, if◌then◌else◌, Option-cases, Bool-cases,
  inl, inr, Map, List,
}
use fuse_cpp_ramfs.State.{Inode, Fs, M, ◌>>=◌, Handler, Reply, pure}
use fuse_cpp_ramfs.Table.{get_inode, change_inode, delete_inode}
use fuse_cpp_ramfs.Space.{used_blocks, update_used_blocks, update_used_inodes}
use fuse_cpp_ramfs.Attr.{has_no_links}
use fuse_cpp_ramfs.Directory.{children_of}
use fuse_cpp_ramfs.Directory.Readdir.{Contexts, set_contexts}
use fuse_cpp_ramfs.Directory.Readdir.Cookies.{Cookies}
use fuse_cpp_ramfs.Handlers.Guards.{with_live, with_children, call}

abbrev pub Post : {A : Type 0} → (Fs → Type 0) → Option (A × Fs) → Type 0
Post P none = Unit
Post P (some (a, fs)) = P fs

abbrev pub Keeps : {A : Type 0} → (Fs → Type 0) → M A → Type 0
Keeps P m = (fs : Fs) → P fs → Post P (m fs)

-- What an invariant has to bear so that every handler which makes no inode keeps it: a change of an
-- inode that leaves its blocks, one that is counted, the deletion of an inode, and a change of the
-- contexts of the directories that are read.
pub record Frame (P : Fs → Type 0) : Type 0 where
  pub keep_attr :
      (ino : ℕ) (f : Inode → Inode) (fs : Fs)
      → ((i : Inode) → get_inode ino fs ≡ some i → used_blocks (f i) ≡ used_blocks i)
      → P fs
      → P (change_inode ino f fs)
  pub keep_blocks :
      (ino : ℕ) (f : Inode → Inode) (fs : Fs) (i : Inode)
      → get_inode ino fs ≡ some i
      → P fs
      → P (change_inode ino f (update_used_blocks (sub64 (used_blocks (f i)) (used_blocks i)) fs))
  pub keep_delete :
      (ino : ℕ) (fs : Fs) (i : Inode)
      → get_inode ino fs ≡ some i
      → P fs
      → P (
          update_used_blocks
            (sub64 0 (used_blocks i))
            (update_used_inodes (sub64 0 1) (delete_inode ino fs)))
  pub keep_contexts :
      (m : Contexts) (fs : Fs)
      → (Cookies fs.readdir_states → Cookies m)
      → P fs
      → P (set_contexts m fs)

module _ (P : Fs → Type 0) where
  pub Keeps->>= :
      {A B : Type 0} (m : M A) (f : A → M B)
      → Keeps P m
      → ((a : A) → Keeps P (f a))
      → Keeps P (m >>= f)
  Keeps->>= {A} {B} m f hm hf fs p = go (m fs) (hm fs p)
    where
      go :
          (r : Option (A × Fs))
          → Post P r
          → Post P (elim r as (λ _. Option (B × Fs)) [ none ↦ none | some (a, fs') ↦ f a fs' ])
      go none h = tt
      go (some (a, fs')) h = hf a fs' h

  pub Keeps-if :
      {A : Type 0} (b : Bool) (m n : M A) → Keeps P m → Keeps P n → Keeps P (if b then m else n)
  Keeps-if true m n hm hn = hm
  Keeps-if false m n hm hn = hn

  pub Post-if :
      {A : Type 0} (b : Bool) (m n : Option (A × Fs))
      → Post P m
      → Post P n
      → Post P (if b then m else n)
  Post-if true m n hm hn = hm
  Post-if false m n hm hn = hn

  -- The handler goes on with an inode that exists.
  pub Post-with_live :
      (ino : ℕ) (k : Inode → Handler)
      → ((i : Inode) (fs : Fs) → get_inode ino fs ≡ some i → P fs → Post P (k i fs))
      → Keeps P (with_live ino k)
  unfolding with_live
  Post-with_live ino k h fs p = elim (Option-cases (get_inode ino fs)) [
    | inl e ↦ rw (e, with_live) p
    | inr (i, e) ↦ rw (e, with_live) (Post-if (has_no_links i) _ _ p (h i fs e p))
  ]

  pub Keeps-with_live :
      (ino : ℕ) (k : Inode → Handler) → ((i : Inode) → Keeps P (k i)) → Keeps P (with_live ino k)
  Keeps-with_live ino k h = Post-with_live ino k λ i fs e p. h i fs p

  pub Keeps-with_children :
      (i : Inode) (k : Map ℕ → Handler)
      → ((ch : Map ℕ) → Keeps P (k ch))
      → Keeps P (with_children i k)
  unfolding with_children
  Keeps-with_children i k h fs p = elim (Option-cases (children_of i.kind)) [
    | inl e ↦ rw (e, with_children) p
    | inr (ch, e) ↦ rw (e, with_children) (h ch fs p)
  ]

  pub Keeps-error : (r : List Reply) → Keeps P (pure r)
  Keeps-error r fs p = p
