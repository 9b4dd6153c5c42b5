-- ===== src/Handlers/Names/Made.antt =====
-- `FuseMknod` of src/fuse_cpp_ramfs.cpp makes a regular file under a name, which `FuseLookup` finds.
use fuse_cpp_ramfs.Base.{
  ℕ, ◌+◌, ◌^◌, ◌<◌, ◌≡◌, ◌≢◌, ◌∙◌, refl, sym, ap, true, false, none, some, [], ◌∷◌, ◌==◌,
  if◌then◌else◌, inl, inr, arith, Name, Map, lookup, insert, lookup-insert, name_eq_refl, word_mod,
  sub64_exact,
}
use fuse_cpp_ramfs.State.{Inode, Fs, Env, Abi, file, reply_entry}
use fuse_cpp_ramfs.Table.{get_inode, change_inode}
use fuse_cpp_ramfs.Table.Laws.{get-change_self}
use fuse_cpp_ramfs.Table.Invariant.{IsTable}
use fuse_cpp_ramfs.Space.{size, get_free_inodes, check_has_space_for}
use fuse_cpp_ramfs.Attr.{s_isreg, has_no_links, reply_entry_of}
use fuse_cpp_ramfs.Directory.{elem_size, add_child}
use fuse_cpp_ramfs.Directory.Size.{DirectoryAt}
use fuse_cpp_ramfs.Directory.Entries.{Added, add_child-Added}
use fuse_cpp_ramfs.Attr.{initialize}
use fuse_cpp_ramfs.Register.{size_of_link}
use fuse_cpp_ramfs.Handlers.Create.{make_node, fuse_mknod}
use fuse_cpp_ramfs.Handlers.Attributes.{fuse_lookup}
use fuse_cpp_ramfs.Handlers.Names.Unlink.{
  enter_directory, fuse_lookup-lookup_in, change-DirectoryAt,
}
use fuse_cpp_ramfs.Handlers.Names.Mknod.{new_file, register_inode-Registered, other_inode}
use fuse_cpp_ramfs.Handlers.Names.Lookup.{
  make_in, do_create_node-node, make_in-reply, lookup_in-reply,
}

-- The test for space reads no more than the free blocks.
check-same :
    (p : Inode) (n : ℕ) (fs gs : Fs)
    → gs.stbuf.f_bfree ≡ fs.stbuf.f_bfree
    → check_has_space_for (some p) n gs ≡ check_has_space_for (some p) n fs
unfolding check_has_space_for
check-same p n fs gs e = ground arith

module _ (abi : Abi) (env : Env) (fs : Fs) (parent : ℕ) (p : Inode) (ch : Map ℕ) (name : Name)
    (mode rdev : ℕ) where
  abbrev pub Made : Fs → ℕ → Inode → Type 0
  Made fs' ino i =
      (get_inode ino fs ≡ none)
      × (get_inode ino fs' ≡ some i)
      × (i.kind ≡ file [])
      × (i.entry_param.ino ≡ ino)
      × (i.entry_param.attr.st_mode ≡ mode)
      × (i.entry_param.attr.st_nlink ≡ 1)
      × (i.entry_param.attr.st_size ≡ 0)
      × (i.nlookup ≡ 1)

  -- The registered file is added to the directory.
  extended :
      (gs : Fs) (ino : ℕ)
      → DirectoryAt abi gs parent p ch
      → size p + elem_size abi name < 2 ^ 62
      → gs.stbuf.f_bfree < word_mod
      → lookup name ch ≡ none
      → check_has_space_for (some p) (elem_size abi name) gs ≡ true
      → (at : DirectoryAt abi gs parent p ch) × Added abi gs parent p ch at name ino
          (add_child abi parent name ino gs)
  extended gs ino at h w free space = elim (add_child-Added abi gs parent p ch at name ino h w) [
    | inl (there, r) ↦ absurd (there free)
    | inr rest ↦ elim rest [ inl (same, full, r) ↦ cc | inr (same, room, a) ↦ (at, a) ]
  ]

  fuse_mknod-make_in :
      DirectoryAt abi fs parent p ch
      → has_no_links p ≡ false
      → fuse_mknod abi env parent name mode rdev fs ≡ make_in abi env parent name mode rdev ch fs
  unfolding fuse_mknod make_node
  fuse_mknod-make_in at live =
      enter_directory abi fs parent p ch (make_in abi env parent name mode rdev) at live

  -- In a well-formed table whose number 0 is taken, and in a live and well-formed directory, where
  -- memory is found, inodes are free and there is space for an entry of the name, which is not
  -- there, the making of a regular file is answered with its entry. The file stands at a number
  -- that no inode had, is empty, and has the mode that was asked for, one link and one lookup; the
  -- directory has the name for it and is well formed, every other inode is as it was, and a lookup
  -- of the name is answered with the same entry.
  pub fuse_mknod-fuse_lookup :
      (zeroth : Inode)
      → IsTable fs
      → get_inode 0 fs ≡ some zeroth
      → DirectoryAt abi fs parent p ch
      → has_no_links p ≡ false
      → s_isreg mode ≡ true
      → env.new_ok ≡ true
      → (get_free_inodes fs == 0) ≡ false
      → lookup name ch ≡ none
      → size p + elem_size abi name < 2 ^ 62
      → fs.stbuf.f_bfree < word_mod
      → check_has_space_for (some p) (elem_size abi name) fs ≡ true
      → (ino : ℕ) × (fs' fs'' : Fs) × (p' i : Inode) × (fuse_mknod abi env parent name mode rdev fs
          ≡ some (reply_entry i.entry_param ∷ [], fs'))
        × Made fs' ino i
        × DirectoryAt abi fs' parent p' (insert name ino ch)
        × ((j : ℕ) → parent ≢ j → ino ≢ j → get_inode j fs' ≡ get_inode j fs)
        × (fuse_lookup parent name fs' ≡ some (reply_entry i.entry_param ∷ [], fs''))
  unfolding reply_entry_of initialize size_of_link
  fuse_mknod-fuse_lookup zeroth t z at live reg new_ok free fresh small word space =
      let (ino, gs, r, vacant, found, others, bfree) =
        register_inode-Registered abi env mode fs t in
      let nonzero : ino ≢ 0 = λ e. cc in
      let other : ino ≢ parent = λ e. cc (vacant, at.found, ap (λ n. get_inode n fs) e) in
      let at1 : DirectoryAt abi gs parent p ch = record {
        found = others parent other ∙ at.found;
        is_directory = at.is_directory;
        layout = at.layout;
      } in
      let free_blocks : gs.stbuf.f_bfree ≡ fs.stbuf.f_bfree =
        (bfree ∙ sub64_exact fs.stbuf.f_bfree 0 fs.stbuf.f_bfree (omega arith) word) in
      let (at2, (hs, p', ra, at', account, kept, same)) =
        extended gs ino at1 small (omega (arith, free_blocks)) fresh
          (check-same p (elem_size abi name) fs gs free_blocks ∙ space) in
      let f : Inode → Inode = λ j. (reply_entry_of j).0 in
      let made : Inode = new_file env.now ino mode env.gid env.uid in
      let there : get_inode ino hs ≡ some made = kept ino (λ e. other (sym e)) ∙ found in
      let there' : get_inode ino (change_inode ino f hs) ≡ some (f made) =
        (get-change_self ino f hs there) in
      let at'' = change-DirectoryAt abi hs parent p' (insert name ino ch) ino f at' other in
      let stored : lookup name (insert name ino ch) ≡ some ino =
        (lookup-insert name name ino ch
          ∙ ap (λ b. if b then some ino else lookup name ch) (name_eq_refl name)) in
      (
        ino,
        change_inode ino f hs,
        change_inode ino f (change_inode ino f hs),
        p',
        f made,
        fuse_mknod-make_in at live
            ∙ make_in-reply abi env parent name mode rdev fs hs ch ino made free fresh nonzero
                (do_create_node-node abi env parent name mode rdev fs gs hs ino p reg new_ok free r
                  at1.found ra)
                there,
        (vacant, there', refl, refl, refl, refl, refl, refl),
        at'',
        λ j np ni. other_inode ino j f hs ni ∙ kept j np ∙ others j ni,
        fuse_lookup-lookup_in abi (change_inode ino f hs) parent p' (insert name ino ch) name at''
              (rw same live)
            ∙ lookup_in-reply name (change_inode ino f hs) (insert name ino ch) ino (f made) stored
                nonzero there' refl,
      )
