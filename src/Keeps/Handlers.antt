-- ===== src/Keeps/Handlers.antt =====
-- The handlers that make no inode keep every invariant that bears the changes and the deletion of
-- inodes.
use fuse_cpp_ramfs.Base.{
  ℕ, zero, suc, ◌≡◌, refl, Bool, true, false, Option, none, some, List, ◌==◌, inl, inr,
  Option-cases, if◌then◌else◌, not, Name, ◌&&◌, arith,
}
use fuse_cpp_ramfs.State.{
  Inode, Fs, ◌>>◌, Reply, Env, Abi, Stat, Code, success, Kind, file, directory, symlink, special,
  reply, modify, reply_err,
}
use fuse_cpp_ramfs.Table.{get_inode, change_inode}
use fuse_cpp_ramfs.Table.Laws.{get-change_self}
use fuse_cpp_ramfs.Space.{used_blocks}
use fuse_cpp_ramfs.Attr.{
  has_bit, s_isdir, get_mode, remove_hard_link, forget, reply_entry_of, reply_set_attr, forgotten,
  has_no_links,
}
use fuse_cpp_ramfs.Xattr.{set_xattr, remove_xattr}
use fuse_cpp_ramfs.Directory.{child_inode_number, ino_notfound, remove_child, is_empty}
use fuse_cpp_ramfs.File.{file_truncate}
use fuse_cpp_ramfs.Handlers.Guards.{call, is_file}
use fuse_cpp_ramfs.Handlers.Attributes.{fuse_lookup, fuse_setattr, answer_truncate, without_size}
use fuse_cpp_ramfs.Handlers.Remove.{
  fuse_unlink, drop_link, fuse_rmdir, drop_links, drop_all_links, fuse_forget, reclaim,
}
use fuse_cpp_ramfs.Handlers.Rename.{when}
use fuse_cpp_ramfs.Handlers.Data.{
  write_and_reply, read_and_reply, fuse_write, fuse_read, fuse_setxattr, fuse_removexattr,
}
use fuse_cpp_ramfs.Keeps.{
  Keeps, Frame, Keeps->>=, Post-if, Keeps-if, Post-with_live, Keeps-with_live, Keeps-with_children,
}
use fuse_cpp_ramfs.Keeps.Directory.{remove_child-Keeps}
use fuse_cpp_ramfs.Keeps.File.{file_truncate-Keeps, file_write-Keeps, file_read-Keeps}

drop_links-blocks : (n : ℕ) (i : Inode) → used_blocks (drop_links n i) ≡ used_blocks i
unfolding drop_links
drop_links-blocks zero i = refl
drop_links-blocks (suc n) i = ground (arith, drop_links-blocks n (remove_hard_link i))

set_xattr-blocks :
    (env : Env) (name : Name) (value : List ℕ) (flags position : ℕ) (i : Inode) {r : Inode × Reply}
    → set_xattr env name value flags position i ≡ some r
    → used_blocks r.0 ≡ used_blocks i
unfolding set_xattr
set_xattr-blocks env name value flags position i h = ground arith

remove_xattr-blocks :
    (name : Name) (i : Inode) → used_blocks (remove_xattr name i).0 ≡ used_blocks i
unfolding remove_xattr
remove_xattr-blocks name i = ground arith

module _ (P : Fs → Type 0) (frame : Frame P) where
  pub call-Keeps :
      (ino : ℕ) (method : Inode → Inode × Reply)
      → ((i : Inode) → used_blocks (method i).0 ≡ used_blocks i)
      → Keeps P (call ino method)
  unfolding call
  call-Keeps ino method h fs p = elim (Option-cases (get_inode ino fs)) [
    | inl e ↦ rw (e, call) tt
    | inr (i, e) ↦ rw (e, call) (frame.keep_attr ino (λ j. (method j).0) fs (λ j _. h j) p)
  ]

  pub links-Keeps :
      (ino : ℕ) (f : Inode → Inode)
      → ((i : Inode) → used_blocks (f i) ≡ used_blocks i)
      → Keeps P (modify (change_inode ino f))
  links-Keeps ino f h fs p = frame.keep_attr ino f fs (λ j _. h j) p

  pub when-Keeps :
      (b : Bool) (ino : ℕ) (f : Inode → Inode)
      → ((i : Inode) → used_blocks (f i) ≡ used_blocks i)
      → Keeps P (when b (change_inode ino f))
  when-Keeps true ino f h fs p = links-Keeps ino f h fs p
  when-Keeps false ino f h fs p = p

  pub fuse_lookup-Keeps : (parent : ℕ) (name : Name) → Keeps P (fuse_lookup parent name)
  unfolding fuse_lookup reply_entry_of
  fuse_lookup-Keeps parent name = Keeps-with_live P parent _ λ p. Keeps-with_children P p _ λ ch.
      Keeps-if P (child_inode_number name ch == ino_notfound) _ _ (λ fs h. h)
        (Keeps-with_live P (child_inode_number name ch) _
          λ i. call-Keeps (child_inode_number name ch) reply_entry_of (λ j. refl))

  answer_truncate-Keeps : (ino : ℕ) (code : Code) → Keeps P (answer_truncate ino code)
  unfolding answer_truncate
  answer_truncate-Keeps ino success fs p = elim (Option-cases (get_inode ino fs)) [
    | inl e ↦ rw (e, answer_truncate) tt
    | inr (i, e) ↦ rw (e, answer_truncate) p
  ]
  answer_truncate-Keeps ino code fs p = p

  pub fuse_setattr-Keeps :
      (env : Env) (ino : ℕ) (attr : Stat) (to_set : ℕ) (fi : Bool)
      → Keeps P (fuse_setattr env ino attr to_set fi)
  unfolding fuse_setattr reply_set_attr
  fuse_setattr-Keeps env ino attr to_set fi = Keeps-with_live P ino _ λ i.
      Keeps-if P (fi && has_bit to_set 3) _ _
        (Keeps-if P (is_file i.kind) _ _
          (Keeps->>= P (file_truncate env ino attr.st_size) (answer_truncate ino)
            (file_truncate-Keeps P frame env ino attr.st_size) (answer_truncate-Keeps ino))
          (Keeps-if P (s_isdir (get_mode i)) _ _ (λ fs h. h) (λ fs h. h)))
        (call-Keeps ino (reply_set_attr env.now attr (without_size to_set)) (λ j. refl))

  drop_link-Keeps : (ino : ℕ) → Keeps P (drop_link ino)
  unfolding drop_link remove_hard_link
  drop_link-Keeps ino fs p = elim (Option-cases (get_inode ino fs)) [
    | inl e ↦ rw (e, drop_link) tt
    | inr (i, e) ↦ rw (e, drop_link) (links-Keeps ino remove_hard_link (λ j. refl) fs p)
  ]

  pub fuse_unlink-Keeps :
      (abi : Abi) (parent : ℕ) (name : Name) → Keeps P (fuse_unlink abi parent name)
  unfolding fuse_unlink
  fuse_unlink-Keeps abi parent name = Keeps-with_live P parent _ λ p.
      Keeps-with_children P p _ λ ch.
        let ino = child_inode_number name ch in
        Keeps-if P (ino == ino_notfound) _ _ (λ fs h. h)
          (Keeps->>= P (remove_child abi parent name)
            (λ _. drop_link ino >> reply (reply_err success))
            (remove_child-Keeps P frame abi parent name)
            (λ _.
              Keeps->>= P (drop_link ino) (λ _. reply (reply_err success)) (drop_link-Keeps ino)
                λ _ fs h. h))

  remove_directory-Keeps :
      (abi : Abi) (parent : ℕ) (name : Name) (ino : ℕ)
      → Keeps P (do
        remove_child abi parent name
        modify (change_inode parent remove_hard_link)
        modify (change_inode ino drop_all_links)
        reply (reply_err success))
  unfolding remove_hard_link
  remove_directory-Keeps abi parent name ino =
      Keeps->>= P (remove_child abi parent name)
        (λ _.
          modify (change_inode parent remove_hard_link)
          >> (modify (change_inode ino drop_all_links) >> reply (reply_err success)))
        (remove_child-Keeps P frame abi parent name)
        (λ _ fs p.
          links-Keeps ino drop_all_links (λ i. drop_links-blocks i.entry_param.attr.st_nlink i)
            (change_inode parent remove_hard_link fs)
            (links-Keeps parent remove_hard_link (λ i. refl) fs p))

  pub fuse_rmdir-Keeps :
      (abi : Abi) (parent : ℕ) (name : Name) → Keeps P (fuse_rmdir abi parent name)
  unfolding fuse_rmdir
  fuse_rmdir-Keeps abi parent name = Keeps-with_live P parent _ λ p. Keeps-with_children P p _ λ ch.
      let ino = child_inode_number name ch in
      Keeps-if P (ino == ino_notfound) _ _ (λ fs h. h)
        (Keeps-if P (ino == parent) _ _ (λ fs h. h)
          (Keeps-with_live P ino _ λ i. Keeps-with_children P i _ λ entries fs h.
            Post-if P (not (is_empty entries fs)) _ _ h
              (remove_directory-Keeps abi parent name ino fs h)))

  pub fuse_forget-Keeps : (ino nlookup : ℕ) → Keeps P (fuse_forget ino nlookup)
  unfolding fuse_forget reclaim forget
  fuse_forget-Keeps ino nlookup fs p = elim (Option-cases (get_inode ino fs)) [
    | inl e ↦ rw (e, fuse_forget) p
    | inr (i, e) ↦
        rw (e, fuse_forget)
          (If-Keeps (forgotten (forget nlookup i).0) _ _
            (If-Keeps (has_no_links i) _ _
              (frame.keep_delete ino (change_inode ino (λ j. (forget nlookup j).0) fs)
                (forget nlookup i).0 (get-change_self ino (λ j. (forget nlookup j).0) fs e)
                (frame.keep_attr ino (λ j. (forget nlookup j).0) fs (λ j _. refl) p))
              (frame.keep_attr ino (λ j. (forget nlookup j).0) fs (λ j _. refl) p))
            (frame.keep_attr ino (λ j. (forget nlookup j).0) fs (λ j _. refl) p))
  ]
    where
      If-Keeps : (b : Bool) (x y : Fs) → P x → P y → P (if b then x else y)
      If-Keeps true x y hx hy = hx
      If-Keeps false x y hx hy = hy

  write_and_reply-Keeps :
      (env : Env) (ino : ℕ) (k : Kind) (bytes : List ℕ) (off : ℕ)
      → Keeps P (write_and_reply env ino k bytes off)
  unfolding write_and_reply
  write_and_reply-Keeps env ino (file buf) bytes off fs p =
      file_write-Keeps P frame env ino bytes off fs p
  write_and_reply-Keeps env ino (directory ch) bytes off fs p = p
  write_and_reply-Keeps env ino (symlink link) bytes off fs p = p
  write_and_reply-Keeps env ino (special type) bytes off fs p = p

  pub fuse_write-Keeps :
      (env : Env) (ino : ℕ) (bytes : Option (List ℕ)) (off : ℕ)
      → Keeps P (fuse_write env ino bytes off)
  unfolding fuse_write
  fuse_write-Keeps env ino none off fs p = p
  fuse_write-Keeps env ino (some bytes) off fs p =
      Keeps-with_live P ino _ (λ i. write_and_reply-Keeps env ino i.kind bytes off) fs p

  read_and_reply-Keeps :
      (env : Env) (ino : ℕ) (k : Kind) (count off : ℕ)
      → Keeps P (read_and_reply env ino k count off)
  unfolding read_and_reply
  read_and_reply-Keeps env ino (file buf) count off fs p =
      file_read-Keeps P frame env ino count off fs p
  read_and_reply-Keeps env ino (directory ch) count off fs p = p
  read_and_reply-Keeps env ino (symlink link) count off fs p = p
  read_and_reply-Keeps env ino (special type) count off fs p = p

  pub fuse_read-Keeps : (env : Env) (ino count off : ℕ) → Keeps P (fuse_read env ino count off)
  unfolding fuse_read
  fuse_read-Keeps env ino count off =
      Keeps-with_live P ino _ λ i. read_and_reply-Keeps env ino i.kind count off

  pub fuse_setxattr-Keeps :
      (env : Env) (ino : ℕ) (name : Name) (value : List ℕ) (flags : ℕ)
      → Keeps P (fuse_setxattr env ino name value flags)
  unfolding fuse_setxattr
  fuse_setxattr-Keeps env ino name value flags = Post-with_live P ino _ λ i fs e p.
      elim (Option-cases (set_xattr env name value flags 0 i)) [
        | inl c ↦ rw c tt
        | inr ((i', r), c) ↦ rw c (
            frame.keep_attr ino (λ _. i') fs
              (λ j f. ground (arith, set_xattr-blocks env name value flags 0 i c)) p)
      ]

  pub fuse_removexattr-Keeps : (ino : ℕ) (name : Name) → Keeps P (fuse_removexattr ino name)
  unfolding fuse_removexattr
  fuse_removexattr-Keeps ino name =
      Keeps-with_live P ino _ λ i. call-Keeps ino (remove_xattr name) (remove_xattr-blocks name)
