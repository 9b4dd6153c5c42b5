-- ===== src/Handlers/Names/Rename.antt =====
-- `FuseRename` of src/fuse_cpp_ramfs.cpp to a new name in the same directory, and the lookups of both
-- names after it.
use fuse_cpp_ramfs.Base.{
  ℕ, ◌+◌, ◌^◌, ◌<◌, ◌≡◌, ◌≢◌, ◌∙◌, refl, sym, ap, Bool, true, false, none, some, [], ◌∷◌,
  if◌then◌else◌, not, inl, inr, arith, Name, Map, lookup, insert, erase, lookup-insert,
  lookup-erase_ne, lookup-erase_self, name_eq, name_eq_refl, name_eq_iff, word_mod, Bool-cases,
  Option-cases,
}
use fuse_cpp_ramfs.State.{
  Inode, Fs, Abi, Code, Handler, reply, reply_err, reply_entry, success, plus, enoent, ◌>>◌,
  >>=-some,
}
use fuse_cpp_ramfs.Table.{get_inode, change_inode}
use fuse_cpp_ramfs.Space.{size, check_has_space_for}
use fuse_cpp_ramfs.Attr.{has_no_links, get_mode, s_isdir, reply_entry_of}
use fuse_cpp_ramfs.Directory.{
  child_inode_number, add_child, remove_child, children_of, elem_size, is_live,
}
use fuse_cpp_ramfs.Directory.Size.{DirectoryAt}
use fuse_cpp_ramfs.Directory.Entries.{links, add_child-Added, remove_child-Removed}
use fuse_cpp_ramfs.Handlers.Enter.{with_live-found, with_children-found}
use fuse_cpp_ramfs.Handlers.Guards.{with_live, with_children}
use fuse_cpp_ramfs.Handlers.Attributes.{fuse_lookup}
use fuse_cpp_ramfs.Handlers.Rename.{fuse_rename, rename_to, move_entry}
use fuse_cpp_ramfs.Handlers.Names.Unlink.{fuse_lookup-lookup_in, fuse_lookup-missing}
use fuse_cpp_ramfs.Handlers.Names.Lookup.{lookup_in-reply}

module _ (abi : Abi) (fs : Fs) (parent : ℕ) (p : Inode) (ch : Map ℕ) (name newname : Name) (src : ℕ)
    (s : Inode) where
  -- Is there space for the new entry?
  abbrev pub space : Bool
  space = check_has_space_for (some p) (elem_size abi newname) fs

  -- The entries of the directory after the addition.
  abbrev pub extended : Bool → Map ℕ
  extended true = insert newname src ch
  extended false = ch

  -- The addition, which may be refused for want of space.
  abbrev Extended : Fs → Type 0
  Extended fs1 =
      (c : Code) × (p1 : Inode) × (add_child abi parent newname src fs ≡ some (c, fs1))
      × DirectoryAt abi fs1 parent p1 (extended space)
      × ((j : ℕ) → parent ≢ j → get_inode j fs1 ≡ get_inode j fs)
      × (links p1 ≡ links p)

  add_child-Extended :
      DirectoryAt abi fs parent p ch
      → lookup newname ch ≡ none
      → size p + elem_size abi newname < 2 ^ 62
      → fs.stbuf.f_bfree < word_mod
      → (fs1 : Fs) × Extended fs1
  add_child-Extended at free small word =
      elim (add_child-Added abi fs parent p ch at newname src small word) [
        | inl (there, r) ↦ absurd (there free)
        | inr rest ↦ elim rest [
          | inl (same, full, r) ↦ (fs, (_, p, r, rw full at, (λ j ne. refl), refl))
          | inr (same, room, (fs1, p1, r, at1, account, others, kept)) ↦
              (fs1, (success, p1, r, rw room at1, others, kept))
        ]
      ]

  other_name : lookup name ch ≡ some src → lookup newname ch ≡ none → name_eq newname name ≡ false
  other_name e free = elim (Bool-cases (name_eq newname name)) [
    | inl same ↦ cc (e, free, ap (λ n. lookup n ch) ((name_eq_iff newname name).0 same))
    | inr other ↦ other
  ]

  still_there :
      (b : Bool)
      → lookup name ch ≡ some src
      → lookup newname ch ≡ none
      → lookup name (extended b) ≡ some src
  still_there true e free = ground (
    arith,
    lookup-insert newname name src ch,
    e,
    other_name e free,
    name_eq_iff newname name,
    name_eq_iff name newname,
  )
  still_there false e free = e

  to_move :
      s_isdir (get_mode s) ≡ false
      → lookup newname ch ≡ none
      → is_live (get_inode 0 fs) ≡ false
      → rename_to abi parent name parent newname src s ch fs
        ≡ move_entry abi parent name parent newname src false fs
  unfolding rename_to child_inode_number
  to_move file free dead = elim (Option-cases (get_inode 0 fs)) [
    | inl gone ↦ rw (free, rename_to, child_inode_number) (rw (gone, rename_to) (rw file refl))
    | inr (i, gone) ↦
        rw (free, rename_to, child_inode_number)
          (rw (gone, rename_to) (rw (no_links i (ap is_live (sym gone) ∙ dead)) (rw file refl)))
  ]
    where
      no_links : (i : Inode) → not (has_no_links i) ≡ false → has_no_links i ≡ true
      no_links i h = ground arith

  abbrev pub rename_in : Map ℕ → Map ℕ → Handler
  rename_in ch1 ch2 =
      let n = child_inode_number name ch1 in
      with_live n λ i. rename_to abi parent name parent newname n i ch2

  pub in_directory :
      lookup name ch ≡ some src
      → get_inode src fs ≡ some s
      → has_no_links s ≡ false
      → rename_in ch ch fs ≡ rename_to abi parent name parent newname src s ch fs
  unfolding child_inode_number
  in_directory e there live =
      rw (e, child_inode_number)
        (with_live-found src (λ i. rename_to abi parent name parent newname src i ch) fs s there
          live)

  -- The handler past its tests.
  pub entered :
      DirectoryAt abi fs parent p ch
      → has_no_links p ≡ false
      → fuse_rename abi parent name parent newname fs ≡ rename_in ch ch fs
  unfolding fuse_rename
  entered at live =
      with_live-found parent
        (λ a. with_live parent λ b. with_children a λ c. with_children b (rename_in c)) fs p
        at.found live
      ∙ with_live-found parent (λ b. with_children p λ c. with_children b (rename_in c)) fs p
          at.found live
      ∙ with_children-found p (λ c. with_children p (rename_in c)) fs ch
          (ap children_of at.is_directory)
      ∙ with_children-found p (rename_in ch) fs ch (ap children_of at.is_directory)

  moved :
      (fs1 fs2 : Fs) (c : Code)
      → add_child abi parent newname src fs ≡ some (c, fs1)
      → remove_child abi parent name fs1 ≡ some (success, fs2)
      → move_entry abi parent name parent newname src false fs ≡ some (reply_err success ∷ [], fs2)
  unfolding move_entry
  moved fs1 fs2 c a r =
      >>=-some (add_child abi parent newname src)
        (λ _. remove_child abi parent name >> reply (reply_err success)) fs a
      ∙ >>=-some (remove_child abi parent name) (λ _. reply (reply_err success)) fs1 r

  -- What a lookup of the new name is answered with.
  abbrev pub Renamed : Bool → Fs → Type 0
  Renamed true fs' =
      (fs'' : Fs) × (fuse_lookup parent newname fs' ≡ some (reply_entry s.entry_param ∷ [], fs''))
  Renamed false fs' = fuse_lookup parent newname fs' ≡ some (reply_err (plus enoent) ∷ [], fs')

  fuse_lookup-Renamed :
      (b : Bool) (fs' : Fs) (p' : Inode)
      → DirectoryAt abi fs' parent p' (erase name (extended b))
      → has_no_links p' ≡ false
      → name_eq newname name ≡ false
      → lookup newname ch ≡ none
      → src ≢ 0
      → get_inode src fs' ≡ some s
      → has_no_links s ≡ false
      → Renamed b fs'
  fuse_lookup-Renamed true fs' p' at live other free nonzero there live_src = (
    change_inode src (λ j. (reply_entry_of j).0) fs',
    fuse_lookup-lookup_in abi fs' parent p' (erase name (extended true)) newname at live
        ∙ lookup_in-reply newname fs' (erase name (extended true)) src s
            (lookup-erase_ne name newname (extended true) other
              ∙ lookup-insert newname newname src ch
              ∙ ap (λ b. if b then some src else lookup newname ch) (name_eq_refl newname))
            nonzero there live_src,
  )
  fuse_lookup-Renamed false fs' p' at live other free nonzero there live_src =
      fuse_lookup-missing abi fs' parent p' (erase name ch) newname at live
        (lookup-erase_ne name newname ch other ∙ free)

  -- In a live and well-formed directory, where the inode 0 is deleted or null, a name of another
  -- live inode, which is no directory, is renamed to a name that is not there, below the bounds on
  -- the size and on the free blocks. The call is answered as a success. Where there is space for the
  -- new name the directory has it in place of the old one, and a lookup of it is answered with the
  -- inode; where there is none the old name is lost all the same, and a lookup of the new one is
  -- answered with `ENOENT`. The directory is well formed, no other inode has changed, and a lookup
  -- of the old name is answered with `ENOENT`.
  pub fuse_rename-fuse_lookup :
      DirectoryAt abi fs parent p ch
      → has_no_links p ≡ false
      → lookup name ch ≡ some src
      → src ≢ 0
      → src ≢ parent
      → get_inode src fs ≡ some s
      → has_no_links s ≡ false
      → s_isdir (get_mode s) ≡ false
      → lookup newname ch ≡ none
      → is_live (get_inode 0 fs) ≡ false
      → size p + elem_size abi newname < 2 ^ 62
      → fs.stbuf.f_bfree < word_mod
      → (fs' : Fs) × (p' : Inode) × (fuse_rename abi parent name parent newname fs
          ≡ some (reply_err success ∷ [], fs'))
        × DirectoryAt abi fs' parent p' (erase name (extended space))
        × ((j : ℕ) → parent ≢ j → get_inode j fs' ≡ get_inode j fs)
        × (fuse_lookup parent name fs' ≡ some (reply_err (plus enoent) ∷ [], fs'))
        × Renamed space fs'
  fuse_rename-fuse_lookup at live e nonzero other there live_src file free dead small word =
      let (fs1, (c, p1, a, at1, others1, links1)) = add_child-Extended at free small word in
      elim (remove_child-Removed abi fs1 parent p1 (extended space) at1 name) [
        | inl (gone, r) ↦ cc (gone, still_there space e free)
        | inr (known, (fs2, p2, r, at2, others2, links2)) ↦
            let others : (j : ℕ) → parent ≢ j → get_inode j fs2 ≡ get_inode j fs =
              (λ j ne. others2 j ne ∙ others1 j ne) in
            let live2 : has_no_links p2 ≡ false = rw (links2 ∙ links1) live in
            (
              fs2,
              p2,
              entered at live
                  ∙ in_directory e there live_src
                  ∙ to_move file free dead
                  ∙ moved fs1 fs2 c a r,
              at2,
              others,
              fuse_lookup-missing abi fs2 parent p2 (erase name (extended space)) name at2 live2
                  (lookup-erase_self name (extended space) at1.layout.is_map),
              fuse_lookup-Renamed space fs2 p2 at2 live2 (other_name e free) free nonzero
                  (others src (λ z. other (sym z)) ∙ there) live_src,
            )
      ]
