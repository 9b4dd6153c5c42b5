-- ===== src/Keeps/Rename.antt =====
-- Renaming and linking keep every invariant that bears the changes of inodes.
use fuse_cpp_ramfs.Base.{ℕ, refl, Bool, ◌==◌, inl, inr, Option-cases, not, Name, Map, ◌&&◌}
use fuse_cpp_ramfs.State.{
  Inode, Fs, Handler, Abi, Code, success, plus, minus, reply, modify, reply_err,
}
use fuse_cpp_ramfs.Table.{get_inode, change_inode}
use fuse_cpp_ramfs.Attr.{
  s_isdir, get_mode, add_hard_link, remove_hard_link, reply_entry_of, has_no_links,
}
use fuse_cpp_ramfs.Directory.{
  child_inode_number, ino_notfound, add_child, remove_child, update_child, is_empty, children_of,
}
use fuse_cpp_ramfs.Handlers.Rename.{
  when, replace_entry, move_entry, may_replace, rename_to, fuse_rename, finish_link, fuse_link,
}
use fuse_cpp_ramfs.Keeps.{
  Keeps, Frame, Keeps->>=, Post-if, Keeps-if, Keeps-with_live, Keeps-with_children,
}
use fuse_cpp_ramfs.Keeps.Directory.{add_child-Keeps, update_child-Keeps, remove_child-Keeps}
use fuse_cpp_ramfs.Keeps.Handlers.{links-Keeps, when-Keeps, call-Keeps}

module _ (P : Fs → Type 0) (frame : Frame P) where
  replace_entry-Keeps :
      (abi : Abi) (parent : ℕ) (name : Name) (newparent : ℕ) (newname : Name) (src existing : ℕ)
      (is_dir : Bool)
      → Keeps P (replace_entry abi parent name newparent newname src existing is_dir)
  unfolding replace_entry remove_hard_link
  replace_entry-Keeps abi parent name newparent newname src existing is_dir =
      Keeps->>= P (update_child newparent newname src) _
        (update_child-Keeps P frame newparent newname src)
        λ _.
          Keeps->>= P (remove_child abi parent name) _ (remove_child-Keeps P frame abi parent name)
            λ _.
              Keeps->>= P (modify (change_inode existing remove_hard_link)) _
                (links-Keeps P frame existing remove_hard_link (λ i. refl))
                λ _.
                  Keeps->>= P (when is_dir (change_inode existing remove_hard_link)) _
                    (when-Keeps P frame is_dir existing remove_hard_link (λ i. refl))
                    λ _.
                      Keeps->>= P (when is_dir (change_inode parent remove_hard_link))
                        (λ _. reply (reply_err success))
                        (when-Keeps P frame is_dir parent remove_hard_link (λ i. refl)) λ _ fs h. h

  move_entry-Keeps :
      (abi : Abi) (parent : ℕ) (name : Name) (newparent : ℕ) (newname : Name) (src : ℕ)
      (is_dir : Bool)
      → Keeps P (move_entry abi parent name newparent newname src is_dir)
  unfolding move_entry remove_hard_link add_hard_link
  move_entry-Keeps abi parent name newparent newname src is_dir =
      Keeps->>= P (add_child abi newparent newname src) _
        (add_child-Keeps P frame abi newparent newname src)
        λ _.
          Keeps->>= P (remove_child abi parent name) _ (remove_child-Keeps P frame abi parent name)
            λ _.
              Keeps->>= P (when is_dir (change_inode parent remove_hard_link)) _
                (when-Keeps P frame is_dir parent remove_hard_link (λ i. refl))
                λ _.
                  Keeps->>= P (when is_dir (change_inode newparent add_hard_link))
                    (λ _. reply (reply_err success))
                    (when-Keeps P frame is_dir newparent add_hard_link (λ i. refl)) λ _ fs h. h

  may_replace-Keeps :
      (src_dir : Bool) (e : Inode) (k : Handler) → Keeps P k → Keeps P (may_replace src_dir e k)
  unfolding may_replace
  may_replace-Keeps src_dir e k h fs p = Post-if P (src_dir && not (s_isdir (get_mode e))) _ _ p (
      Post-if P (s_isdir (get_mode e)) _ _
        (elim (Option-cases (children_of e.kind)) [
          | inl c ↦ rw c tt
          | inr (entries, c) ↦
              rw c (Post-if P (not (is_empty entries fs)) _ _ p (Post-if P src_dir _ _ (h fs p) p))
        ])
        (h fs p))

  rename_to-Keeps :
      (abi : Abi) (parent : ℕ) (name : Name) (newparent : ℕ) (newname : Name) (src : ℕ) (s : Inode)
      (ch : Map ℕ)
      → Keeps P (rename_to abi parent name newparent newname src s ch)
  unfolding rename_to
  rename_to-Keeps abi parent name newparent newname src s ch fs p =
      let existing = child_inode_number newname ch in
      elim (Option-cases (get_inode existing fs)) [
        | inl e ↦
            rw (e, rename_to)
              (move_entry-Keeps abi parent name newparent newname src (s_isdir (get_mode s)) fs p)
        | inr (i, e) ↦
            rw (e, rename_to)
              (Post-if P (has_no_links i) _ _
                (move_entry-Keeps abi parent name newparent newname src (s_isdir (get_mode s)) fs p)
                (may_replace-Keeps (s_isdir (get_mode s)) i _
                  (replace_entry-Keeps abi parent name newparent newname src existing
                    (s_isdir (get_mode i)))
                  fs p))
      ]

  pub fuse_rename-Keeps :
      (abi : Abi) (parent : ℕ) (name : Name) (newparent : ℕ) (newname : Name)
      → Keeps P (fuse_rename abi parent name newparent newname)
  unfolding fuse_rename
  fuse_rename-Keeps abi parent name newparent newname = Keeps-with_live P parent _ λ p.
      Keeps-with_live P newparent _ λ q. Keeps-with_children P p _ λ ch.
        Keeps-with_children P q _ λ ch'.
          let src = child_inode_number name ch in
          Keeps-with_live P src _ λ s. rename_to-Keeps abi parent name newparent newname src s ch'

  finish_link-Keeps : (ino newparent : ℕ) (code : Code) → Keeps P (finish_link ino newparent code)
  unfolding finish_link add_hard_link reply_entry_of
  finish_link-Keeps ino newparent (minus e) fs p = p
  finish_link-Keeps ino newparent success fs p =
      call-Keeps P frame newparent reply_entry_of (λ i. refl) _
        (links-Keeps P frame ino add_hard_link (λ i. refl) fs p)
  finish_link-Keeps ino newparent (plus e) fs p =
      call-Keeps P frame newparent reply_entry_of (λ i. refl) _
        (links-Keeps P frame ino add_hard_link (λ i. refl) fs p)

  pub fuse_link-Keeps :
      (abi : Abi) (ino newparent : ℕ) (newname : Name)
      → Keeps P (fuse_link abi ino newparent newname)
  unfolding fuse_link
  fuse_link-Keeps abi ino newparent newname = Keeps-with_live P ino _ λ s.
      Keeps-with_live P newparent _ λ p. Keeps-with_children P p _ λ ch.
        Keeps-if P (not (child_inode_number newname ch == ino_notfound)) _ _ (λ fs h. h)
          (Keeps->>= P (add_child abi newparent newname ino) (finish_link ino newparent)
            (add_child-Keeps P frame abi newparent newname ino) (finish_link-Keeps ino newparent))
