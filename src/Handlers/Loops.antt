-- ===== src/Handlers/Loops.antt =====
-- The loops of the handlers against what they compute: `while (!HasNoLinks()) RemoveHardLink();` of
-- `FuseRmdir` in src/fuse_cpp_ramfs.cpp, and `Directory::IsEmpty` of src/directory.cpp.
use fuse_cpp_ramfs.Base.{
  ℕ, zero, suc, ◌<◌, ◌≡◌, refl, true, false, none, some, [], ◌∷◌, ◌==◌, arith, Name, Map, lookup,
  name_eq, name_eq_iff, IsMap, sub64, word_mod,
}
use fuse_cpp_ramfs.Base.{lookup-Above, name_eq_refl, ◌↔◌}
use fuse_cpp_ramfs.State.{Inode, Fs}
use fuse_cpp_ramfs.Table.{get_inode}
use fuse_cpp_ramfs.Attr.{with_attr, remove_hard_link}
use fuse_cpp_ramfs.Directory.{dot, dot_dot, is_live, is_empty}
use fuse_cpp_ramfs.Handlers.Remove.{drop_links, drop_all_links}

-- The inode with this number of links.
abbrev pub with_links : ℕ → Inode → Inode
with_links n i = with_attr (λ a. record a { st_nlink = n }) i

sub64-suc : (n : ℕ) → suc n < word_mod → sub64 (suc n) 1 ≡ n
unfolding sub64
sub64-suc n h = omega arith

drop_links-with_links :
    (n : ℕ) (i : Inode) → n < word_mod → drop_links n (with_links n i) ≡ with_links 0 i
unfolding drop_links remove_hard_link
drop_links-with_links zero i h = refl
drop_links-with_links (suc n) i h =
    rw (more n, sub64-suc n h) (drop_links-with_links n i (omega arith))
  where
    more : (k : ℕ) → (suc k == 0) ≡ false
    more k = ground arith

-- The loop of `FuseRmdir`, for a number of links that fits a word, ends within as many rounds as
-- there are links, with no links, and changes nothing else.
pub drop_all_links_lem :
    (i : Inode) → i.entry_param.attr.st_nlink < word_mod → drop_all_links i ≡ with_links 0 i
drop_all_links_lem i h = drop_links-with_links i.entry_param.attr.st_nlink i h

-- Nothing but "." and ".." is live.
abbrev pub NoLive : Map ℕ → Fs → Type 0
NoLive ch fs =
    (name : Name) (ino : ℕ)
    → lookup name ch ≡ some ino
    → name_eq name dot ≡ false
    → name_eq name dot_dot ≡ false
    → is_live (get_inode ino fs) ≡ false

is_empty-live :
    (ch : Map ℕ) (fs : Fs) (name : Name) (ino : ℕ)
    → is_empty ch fs ≡ true
    → lookup name ch ≡ some ino
    → name_eq name dot ≡ false
    → name_eq name dot_dot ≡ false
    → is_live (get_inode ino fs) ≡ false
unfolding is_empty lookup
is_empty-live [] fs name ino h e d dd = cc
is_empty-live ((k, v) ∷ ch) fs name ino h e d dd =
    ground (arith, name_eq_iff name k, is_empty-live ch fs name ino)

NoLive-tail :
    (k : Name) (v : ℕ) (ch : Map ℕ) (fs : Fs)
    → lookup k ch ≡ none
    → NoLive ((k, v) ∷ ch) fs
    → NoLive ch fs
unfolding lookup
NoLive-tail k v ch fs a h name ino e = h name ino (ground (arith, name_eq_iff name k))

NoLive-head :
    (k : Name) (v : ℕ) (ch : Map ℕ) (fs : Fs)
    → NoLive ((k, v) ∷ ch) fs
    → name_eq k dot ≡ false
    → name_eq k dot_dot ≡ false
    → is_live (get_inode v fs) ≡ false
unfolding lookup
NoLive-head k v ch fs h = h k v (rw (name_eq_refl k))

NoLive-is_empty : (ch : Map ℕ) (fs : Fs) → IsMap ch → NoLive ch fs → is_empty ch fs ≡ true
unfolding is_empty
NoLive-is_empty [] fs m h = refl
NoLive-is_empty ((k, v) ∷ ch) fs m h = ground (
  arith,
  NoLive-head k v ch fs h,
  NoLive-is_empty ch fs m.1 (NoLive-tail k v ch fs (lookup-Above k ch m.0) h),
)

-- For a map of entries, `IsEmpty` holds exactly where every name but "." and ".." that is found in
-- the map has an inode that is deleted: a null pointer or one with no links.
pub is_empty-NoLive : (ch : Map ℕ) (fs : Fs) → IsMap ch → (is_empty ch fs ≡ true) ↔ NoLive ch fs
is_empty-NoLive ch fs m = ((λ h name ino. is_empty-live ch fs name ino h), NoLive-is_empty ch fs m)
