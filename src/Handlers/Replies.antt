-- ===== src/Handlers/Replies.antt =====
-- The number of replies that a handler of src/fuse_cpp_ramfs.cpp sends.
pub mod Changes
pub mod Data
pub mod Symlink
pub mod Readdir
use fuse_cpp_ramfs.Base.{
  ℕ, ◌≡◌, refl, Bool, true, false, Option, none, some, List, [], ◌∷◌, length, inl, inr, Bool-cases,
  Option-cases, ◌==◌, ◌&&◌, not, if◌then◌else◌, Name, Map, arith,
}
use fuse_cpp_ramfs.State.{
  Inode, Fs, M, ◌>>=◌, ◌>>◌, modify, Handler, Reply, reply, error, reply_err, Env, Abi, Stat, Code,
  success, plus, minus, Kind, file, directory, symlink, special,
}
use fuse_cpp_ramfs.Table.{get_inode, change_inode}
use fuse_cpp_ramfs.Space.{get_free_inodes, check_has_space_for}
use fuse_cpp_ramfs.Attr.{
  has_no_links, has_bit, s_isdir, get_mode, reply_entry_of, reply_set_attr, reply_create_of,
  remove_hard_link, add_hard_link,
}
use fuse_cpp_ramfs.Xattr.{set_xattr, remove_xattr}
use fuse_cpp_ramfs.Directory.{
  children_of, child_inode_number, ino_notfound, remove_child, add_child, update_child, is_empty,
}
use fuse_cpp_ramfs.File.{
  file_truncate, file_write, file_read, on_file, buffer_of, file_write_to, file_read_from,
  store_bytes,
}
use fuse_cpp_ramfs.Memory.{splice}
use fuse_cpp_ramfs.Register.{Created, node, failed, do_create_node}
use fuse_cpp_ramfs.Handlers.Guards.{with_live, with_children, call, is_file, is_directory}
use fuse_cpp_ramfs.Handlers.Attributes.{
  fuse_lookup, fuse_setattr, answer_truncate, without_size, fuse_fsync, fuse_readlink, link_of,
}
use fuse_cpp_ramfs.Handlers.Create.{answer_created, make_node, fuse_create}
use fuse_cpp_ramfs.Handlers.Remove.{fuse_unlink, drop_link, fuse_rmdir, drop_all_links}
use fuse_cpp_ramfs.Handlers.Rename.{
  when, replace_entry, move_entry, may_replace, rename_to, fuse_rename, finish_link, fuse_link,
}
use fuse_cpp_ramfs.Handlers.Data.{
  write_and_reply, read_and_reply, fuse_write, fuse_read, fuse_setxattr, fuse_removexattr,
}

-- One reply is sent, unless the handler faults.
abbrev pub OneReply : Option (List Reply × Fs) → Type 0
OneReply none = Unit
OneReply (some (rs, fs)) = length rs ≡ 1

abbrev pub Answers : Handler → Type 0
Answers h = (fs : Fs) → OneReply (h fs)

pub Answers->>= :
    {A : Type 0} (m : M A) (k : A → Handler) → ((a : A) → Answers (k a)) → Answers (m >>= k)
Answers->>= {A} m k h fs = go (m fs)
  where
    go :
        (r : Option (A × Fs))
        → OneReply
            (elim r as (λ _. Option (List Reply × Fs)) [ none ↦ none | some (a, fs') ↦ k a fs' ])
    go none = tt
    go (some (a, fs')) = h a fs'

pub Answers-if : (b : Bool) (h k : Handler) → Answers h → Answers k → Answers (if b then h else k)
Answers-if true h k p q = p
Answers-if false h k p q = q

pub OneReply-if :
    (b : Bool) (x y : Option (List Reply × Fs))
    → OneReply x
    → OneReply y
    → OneReply (if b then x else y)
OneReply-if true x y p q = p
OneReply-if false x y p q = q

pub Answers-with_live :
    (ino : ℕ) (k : Inode → Handler) → ((i : Inode) → Answers (k i)) → Answers (with_live ino k)
unfolding with_live
Answers-with_live ino k h fs = elim (Option-cases (get_inode ino fs)) [
  | inl e ↦ rw (e, with_live) refl
  | inr (i, e) ↦ rw (e, with_live) (OneReply-if (has_no_links i) _ _ refl (h i fs))
]

pub Answers-with_children :
    (i : Inode) (k : Map ℕ → Handler)
    → ((ch : Map ℕ) → Answers (k ch))
    → Answers (with_children i k)
unfolding with_children
Answers-with_children i k h fs = elim (Option-cases (children_of i.kind)) [
  | inl e ↦ rw (e, with_children) refl
  | inr (ch, e) ↦ rw (e, with_children) (h ch fs)
]

pub Answers-call : (ino : ℕ) (method : Inode → Inode × Reply) → Answers (call ino method)
unfolding call
Answers-call ino method fs = elim (Option-cases (get_inode ino fs)) [
  | inl e ↦ rw (e, call) tt
  | inr (i, e) ↦ rw (e, call) refl
]

pub fuse_lookup-Answers : (parent : ℕ) (name : Name) → Answers (fuse_lookup parent name)
unfolding fuse_lookup
fuse_lookup-Answers parent name = Answers-with_live parent _ λ p. Answers-with_children p _ λ ch.
    Answers-if (child_inode_number name ch == ino_notfound) _ _ (λ fs. refl)
      (Answers-with_live (child_inode_number name ch) _
        λ i. Answers-call (child_inode_number name ch) reply_entry_of)

answer_truncate-Answers : (ino : ℕ) (code : Code) → Answers (answer_truncate ino code)
unfolding answer_truncate
answer_truncate-Answers ino success fs = elim (Option-cases (get_inode ino fs)) [
  | inl e ↦ rw (e, answer_truncate) tt
  | inr (i, e) ↦ rw (e, answer_truncate) refl
]
answer_truncate-Answers ino code fs = refl

pub fuse_setattr-Answers :
    (env : Env) (ino : ℕ) (attr : Stat) (to_set : ℕ) (fi : Bool)
    → Answers (fuse_setattr env ino attr to_set fi)
unfolding fuse_setattr
fuse_setattr-Answers env ino attr to_set fi = Answers-with_live ino _ λ i.
    Answers-if (fi && has_bit to_set 3) _ _
      (Answers-if (is_file i.kind) _ _
        (Answers->>= (file_truncate env ino attr.st_size) (answer_truncate ino)
          (answer_truncate-Answers ino))
        (Answers-if (s_isdir (get_mode i)) _ _ (λ fs. refl) (λ fs. refl)))
      (Answers-call ino (reply_set_attr env.now attr (without_size to_set)))

pub fuse_fsync-Answers : (ino : ℕ) → Answers (fuse_fsync ino)
unfolding fuse_fsync
fuse_fsync-Answers ino fs = elim (Option-cases (get_inode ino fs)) [
  | inl e ↦ rw (e, fuse_fsync) refl
  | inr (i, e) ↦ rw (e, fuse_fsync) refl
]

pub fuse_readlink-Answers : (ino : ℕ) → Answers (fuse_readlink ino)
unfolding fuse_readlink
fuse_readlink-Answers ino =
    Answers-with_live ino _ λ i fs. elim (Option-cases (link_of i.kind)) [
      | inl e ↦ rw e refl
      | inr (target, e) ↦ rw e refl
    ]
