-- ===== src/Handlers/Replies/Changes.antt =====
-- The number of replies of the handlers that change names, links, bytes and extended attributes.
use fuse_cpp_ramfs.Base.{ℕ, ◌==◌, refl, Bool, inl, inr, Option-cases, ◌&&◌, not, Name, Map}
use fuse_cpp_ramfs.State.{
  Inode, ◌>>◌, modify, Handler, reply, reply_err, Abi, Code, success, plus, minus,
}
use fuse_cpp_ramfs.Table.{get_inode, change_inode}
use fuse_cpp_ramfs.Attr.{
  has_no_links, s_isdir, get_mode, reply_entry_of, remove_hard_link, add_hard_link,
}
use fuse_cpp_ramfs.Directory.{
  children_of, child_inode_number, ino_notfound, remove_child, add_child, update_child, is_empty,
}
use fuse_cpp_ramfs.Handlers.Remove.{fuse_unlink, drop_link, fuse_rmdir, drop_all_links}
use fuse_cpp_ramfs.Handlers.Rename.{
  when, replace_entry, move_entry, may_replace, rename_to, fuse_rename, finish_link, fuse_link,
}
use fuse_cpp_ramfs.Handlers.Replies.{
  Answers, Answers->>=, Answers-if, OneReply-if, Answers-with_live, Answers-with_children,
  Answers-call,
}

pub fuse_unlink-Answers :
    (abi : Abi) (parent : ℕ) (name : Name) → Answers (fuse_unlink abi parent name)
unfolding fuse_unlink
fuse_unlink-Answers abi parent name = Answers-with_live parent _ λ p.
    Answers-with_children p _ λ ch.
      let ino = child_inode_number name ch in
      Answers-if (ino == ino_notfound) _ _ (λ fs. refl)
        (Answers->>= (remove_child abi parent name)
          (λ _. drop_link ino >> reply (reply_err success))
          λ _. Answers->>= (drop_link ino) (λ _. reply (reply_err success)) λ _ fs. refl)

remove_directory-Answers :
    (abi : Abi) (parent : ℕ) (name : Name) (ino : ℕ)
    → Answers (do
      remove_child abi parent name
      modify (change_inode parent remove_hard_link)
      modify (change_inode ino drop_all_links)
      reply (reply_err success))
remove_directory-Answers abi parent name ino =
    Answers->>= (remove_child abi parent name) _ λ _ fs. refl

pub fuse_rmdir-Answers :
    (abi : Abi) (parent : ℕ) (name : Name) → Answers (fuse_rmdir abi parent name)
unfolding fuse_rmdir
fuse_rmdir-Answers abi parent name = Answers-with_live parent _ λ p. Answers-with_children p _ λ ch.
    let ino = child_inode_number name ch in
    Answers-if (ino == ino_notfound) _ _ (λ fs. refl)
      (Answers-if (ino == parent) _ _ (λ fs. refl)
        (Answers-with_live ino _ λ i. Answers-with_children i _ λ entries fs.
          OneReply-if (not (is_empty entries fs)) _ _ refl
            (remove_directory-Answers abi parent name ino fs)))

replace_entry-Answers :
    (abi : Abi) (parent : ℕ) (name : Name) (newparent : ℕ) (newname : Name) (src existing : ℕ)
    (is_dir : Bool)
    → Answers (replace_entry abi parent name newparent newname src existing is_dir)
unfolding replace_entry
replace_entry-Answers abi parent name newparent newname src existing is_dir =
    Answers->>= (update_child newparent newname src) _ λ _.
      Answers->>= (remove_child abi parent name) _ λ _.
        Answers->>= (modify (change_inode existing remove_hard_link)) _ λ _.
          Answers->>= (when is_dir (change_inode existing remove_hard_link)) _ λ _.
            Answers->>= (when is_dir (change_inode parent remove_hard_link))
              (λ _. reply (reply_err success)) λ _ fs. refl

move_entry-Answers :
    (abi : Abi) (parent : ℕ) (name : Name) (newparent : ℕ) (newname : Name) (src : ℕ)
    (is_dir : Bool)
    → Answers (move_entry abi parent name newparent newname src is_dir)
unfolding move_entry
move_entry-Answers abi parent name newparent newname src is_dir =
    Answers->>= (add_child abi newparent newname src) _ λ _.
      Answers->>= (remove_child abi parent name) _ λ _.
        Answers->>= (when is_dir (change_inode parent remove_hard_link)) _ λ _.
          Answers->>= (when is_dir (change_inode newparent add_hard_link))
            (λ _. reply (reply_err success)) λ _ fs. refl

may_replace-Answers :
    (src_dir : Bool) (e : Inode) (k : Handler) → Answers k → Answers (may_replace src_dir e k)
unfolding may_replace
may_replace-Answers src_dir e k h fs =
    OneReply-if (src_dir && not (s_isdir (get_mode e))) _ _ refl (
      OneReply-if (s_isdir (get_mode e)) _ _
        (elim (Option-cases (children_of e.kind)) [
          | inl c ↦ rw c tt
          | inr (entries, c) ↦ rw c (
              OneReply-if (not (is_empty entries fs)) _ _ refl
                (OneReply-if src_dir _ _ (h fs) refl))
        ])
        (h fs))

rename_to-Answers :
    (abi : Abi) (parent : ℕ) (name : Name) (newparent : ℕ) (newname : Name) (src : ℕ) (s : Inode)
    (ch : Map ℕ)
    → Answers (rename_to abi parent name newparent newname src s ch)
unfolding rename_to
rename_to-Answers abi parent name newparent newname src s ch fs =
    let existing = child_inode_number newname ch in
    elim (Option-cases (get_inode existing fs)) [
      | inl e ↦
          rw (e, rename_to)
            (move_entry-Answers abi parent name newparent newname src (s_isdir (get_mode s)) fs)
      | inr (i, e) ↦
          rw (e, rename_to)
            (OneReply-if (has_no_links i) _ _
              (move_entry-Answers abi parent name newparent newname src (s_isdir (get_mode s)) fs)
              (may_replace-Answers (s_isdir (get_mode s)) i _
                (replace_entry-Answers abi parent name newparent newname src existing
                  (s_isdir (get_mode i)))
                fs))
    ]

pub fuse_rename-Answers :
    (abi : Abi) (parent : ℕ) (name : Name) (newparent : ℕ) (newname : Name)
    → Answers (fuse_rename abi parent name newparent newname)
unfolding fuse_rename
fuse_rename-Answers abi parent name newparent newname = Answers-with_live parent _ λ p.
    Answers-with_live newparent _ λ q. Answers-with_children p _ λ ch.
      Answers-with_children q _ λ ch'.
        let src = child_inode_number name ch in
        Answers-with_live src _ λ s. rename_to-Answers abi parent name newparent newname src s ch'

finish_link-Answers : (ino newparent : ℕ) (code : Code) → Answers (finish_link ino newparent code)
unfolding finish_link
finish_link-Answers ino newparent (minus e) fs = refl
finish_link-Answers ino newparent success fs = Answers-call newparent reply_entry_of _
finish_link-Answers ino newparent (plus e) fs = Answers-call newparent reply_entry_of _

pub fuse_link-Answers :
    (abi : Abi) (ino newparent : ℕ) (newname : Name) → Answers (fuse_link abi ino newparent newname)
unfolding fuse_link
fuse_link-Answers abi ino newparent newname = Answers-with_live ino _ λ s.
    Answers-with_live newparent _ λ p. Answers-with_children p _ λ ch.
      Answers-if (not (child_inode_number newname ch == ino_notfound)) _ _ (λ fs. refl)
        (Answers->>= (add_child abi newparent newname ino) (finish_link ino newparent)
          (finish_link-Answers ino newparent))
