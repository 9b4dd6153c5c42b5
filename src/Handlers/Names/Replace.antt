-- ===== src/Handlers/Names/Replace.antt =====
-- `FuseRename` of src/fuse_cpp_ramfs.cpp onto the name of another file in the same directory, and the
-- lookups of both names after it.
use fuse_cpp_ramfs.Base.{
  ℕ, ◌≡◌, ◌≢◌, ◌∙◌, refl, sym, ap, false, none, some, [], ◌∷◌, if◌then◌else◌, inl, inr, arith, Name,
  Map, lookup, insert, erase, lookup-insert, lookup-erase_ne, lookup-erase_self, name_eq,
  name_eq_refl, name_eq_iff, Bool-cases,
}
use fuse_cpp_ramfs.State.{
  Inode, Fs, Abi, Handler, reply, reply_err, reply_entry, success, plus, enoent, ◌>>◌, >>=-some,
  modify,
}
use fuse_cpp_ramfs.Table.{get_inode, change_inode}
use fuse_cpp_ramfs.Table.Laws.{get-change_self}
use fuse_cpp_ramfs.Attr.{has_no_links, get_mode, s_isdir, reply_entry_of, remove_hard_link}
use fuse_cpp_ramfs.Directory.{child_inode_number, update_child, remove_child}
use fuse_cpp_ramfs.Directory.Size.{DirectoryAt}
use fuse_cpp_ramfs.Directory.Entries.{remove_child-Removed}
use fuse_cpp_ramfs.Directory.Update.{update_child-Updated}
use fuse_cpp_ramfs.Handlers.Attributes.{fuse_lookup}
use fuse_cpp_ramfs.Handlers.Rename.{fuse_rename, rename_to, may_replace, replace_entry, move_entry}
use fuse_cpp_ramfs.Handlers.Names.Unlink.{
  fuse_lookup-lookup_in, fuse_lookup-missing, change-DirectoryAt,
}
use fuse_cpp_ramfs.Handlers.Names.Mknod.{other_inode}
use fuse_cpp_ramfs.Handlers.Names.Lookup.{lookup_in-reply}
use fuse_cpp_ramfs.Handlers.Names.Rename.{entered, in_directory}

module _ (abi : Abi) (fs : Fs) (parent : ℕ) (p : Inode) (ch : Map ℕ) (name newname : Name)
    (src old : ℕ) (s o : Inode) where
  -- The end of the handler, for the number that the new name has.
  abbrev rename_at : ℕ → Handler
  rename_at existing fs' =
      let src_dir = s_isdir (get_mode s) in
      elim (get_inode existing fs') [
        | none ↦ move_entry abi parent name parent newname src src_dir fs'
        | some e ↦
            if has_no_links e
            then move_entry abi parent name parent newname src src_dir fs'
            else may_replace src_dir e
                (replace_entry abi parent name parent newname src existing (s_isdir (get_mode e)))
                fs'
      ]

  known : lookup newname ch ≡ some old → child_inode_number newname ch ≡ old
  unfolding child_inode_number
  known e = rw (e, child_inode_number) refl

  may : (k : Handler) → s_isdir (get_mode o) ≡ false → may_replace false o k fs ≡ k fs
  unfolding may_replace
  may k file = rw file refl

  at_old :
      get_inode old fs ≡ some o
      → has_no_links o ≡ false
      → s_isdir (get_mode s) ≡ false
      → s_isdir (get_mode o) ≡ false
      → rename_at old fs ≡ replace_entry abi parent name parent newname src old false fs
  at_old there live file file_o =
      rw (there, rename_at)
        (rw live (
          rw file (
            may (replace_entry abi parent name parent newname src old (s_isdir (get_mode o))) file_o
            ∙ ap (λ b. replace_entry abi parent name parent newname src old b fs) file_o)))

  to_replace :
      lookup newname ch ≡ some old
      → rename_to abi parent name parent newname src s ch fs ≡ rename_at old fs
  unfolding rename_to
  to_replace e = ap (λ n. rename_at n fs) (known e)

  replaced :
      (fs1 fs2 : Fs)
      → update_child parent newname src fs ≡ some (success, fs1)
      → remove_child abi parent name fs1 ≡ some (success, fs2)
      → replace_entry abi parent name parent newname src old false fs
        ≡ some (reply_err success ∷ [], change_inode old remove_hard_link fs2)
  unfolding replace_entry
  replaced fs1 fs2 u r =
      >>=-some (update_child parent newname src)
        (λ _.
          remove_child abi parent name
          >> (modify (change_inode old remove_hard_link) >> reply (reply_err success)))
        fs u
      ∙ >>=-some (remove_child abi parent name)
          (λ _. modify (change_inode old remove_hard_link) >> reply (reply_err success)) fs1 r

  other_name :
      lookup name ch ≡ some src
      → lookup newname ch ≡ some old
      → old ≢ src
      → name_eq newname name ≡ false
  other_name e there ne = elim (Bool-cases (name_eq newname name)) [
    | inl same ↦
        absurd (ne (cc (e, there, ap (λ n. lookup n ch) ((name_eq_iff newname name).0 same))))
    | inr other ↦ other
  ]

  still_there :
      lookup name ch ≡ some src
      → lookup newname ch ≡ some old
      → old ≢ src
      → lookup name (insert newname src ch) ≡ some src
  still_there e e' ne = ground (
    arith,
    lookup-insert newname name src ch,
    e,
    other_name e e' ne,
    name_eq_iff newname name,
    name_eq_iff name newname,
  )

  -- In a live and well-formed directory, a name of a live inode is renamed to the name of another
  -- one, where both are no directories, neither is the directory itself, and the first is not 0.
  -- The call is answered as a success. The directory has lost the old name, has the new one for the
  -- inode, and is well formed; the inode that had the new name has one link less, every other inode
  -- is as it was, a lookup of the old name is answered with `ENOENT`, and one of the new name with
  -- the entry of the inode.
  pub fuse_rename-replaces :
      DirectoryAt abi fs parent p ch
      → has_no_links p ≡ false
      → lookup name ch ≡ some src
      → src ≢ 0
      → src ≢ parent
      → get_inode src fs ≡ some s
      → has_no_links s ≡ false
      → s_isdir (get_mode s) ≡ false
      → lookup newname ch ≡ some old
      → old ≢ parent
      → old ≢ src
      → get_inode old fs ≡ some o
      → has_no_links o ≡ false
      → s_isdir (get_mode o) ≡ false
      → (fs' fs'' : Fs) × (p' : Inode) × (fuse_rename abi parent name parent newname fs
          ≡ some (reply_err success ∷ [], fs'))
        × DirectoryAt abi fs' parent p' (erase name (insert newname src ch))
        × (get_inode old fs' ≡ some (remove_hard_link o))
        × ((j : ℕ) → parent ≢ j → old ≢ j → get_inode j fs' ≡ get_inode j fs)
        × (fuse_lookup parent name fs' ≡ some (reply_err (plus enoent) ∷ [], fs'))
        × (fuse_lookup parent newname fs' ≡ some (reply_entry s.entry_param ∷ [], fs''))
  fuse_rename-replaces at live e nonzero other there live_s file e' other_o ne there_o live_o
        file_o =
      elim (update_child-Updated abi fs parent p ch at newname src) [
        | inl (gone, u) ↦ cc
        | inr (used, (fs1, p1, u, at1, others1, links1)) ↦
            elim (remove_child-Removed abi fs1 parent p1 (insert newname src ch) at1 name) [
              | inl (gone, r) ↦ cc (gone, still_there e e' ne)
              | inr (there1, (fs2, p2, r, at2, others2, links2)) ↦
                  let ch2 = erase name (insert newname src ch) in
                  let fs3 = change_inode old remove_hard_link fs2 in
                  let at3 =
                    change-DirectoryAt abi fs2 parent p2 ch2 old remove_hard_link at2 other_o in
                  let others : (j : ℕ) → parent ≢ j → get_inode j fs2 ≡ get_inode j fs =
                    (λ j np. others2 j np ∙ others1 j np) in
                  let live2 : has_no_links p2 ≡ false = rw (links2 ∙ links1) live in
                  let there3 : get_inode src fs3 ≡ some s =
                    (other_inode old src remove_hard_link fs2 ne
                      ∙ others src (λ z. other (sym z))
                      ∙ there) in
                  (
                    fs3,
                    change_inode src (λ j. (reply_entry_of j).0) fs3,
                    p2,
                    entered abi fs parent p ch name newname src s at live
                        ∙ in_directory abi fs parent p ch name newname src s e there live_s
                        ∙ to_replace e'
                        ∙ at_old there_o live_o file file_o
                        ∙ replaced fs1 fs2 u r,
                    at3,
                    get-change_self old remove_hard_link fs2
                        (others old (λ z. other_o (sym z)) ∙ there_o),
                    λ j np no. other_inode old j remove_hard_link fs2 no ∙ others j np,
                    fuse_lookup-missing abi fs3 parent p2 ch2 name at3 live2
                        (lookup-erase_self name (insert newname src ch) at1.layout.is_map),
                    fuse_lookup-lookup_in abi fs3 parent p2 ch2 newname at3 live2
                        ∙ lookup_in-reply newname fs3 ch2 src s
                            (lookup-erase_ne name newname (insert newname src ch)
                                (other_name e e' ne)
                              ∙ lookup-insert newname newname src ch
                              ∙ ap (λ b. if b then some src else lookup newname ch)
                                  (name_eq_refl newname))
                            nonzero there3 live_s,
                  )
            ]
      ]
