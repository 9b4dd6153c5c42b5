-- ===== src/Handlers/Names/Link.antt =====
-- `FuseLink` of src/fuse_cpp_ramfs.cpp, and the lookup of the new name after it.
use fuse_cpp_ramfs.Base.{
  ℕ, ◌+◌, ◌^◌, ◌<◌, ◌≡◌, ◌≢◌, ◌∙◌, sym, ap, true, false, not, none, some, [], ◌∷◌, ◌==◌,
  if◌then◌else◌, inl, inr, arith, Name, Map, lookup, insert, lookup-insert, name_eq_refl, word_mod,
  add64,
}
use fuse_cpp_ramfs.State.{
  Inode, Fs, Abi, Handler, reply_entry, success, error, eexist, ◌>>=◌, >>=-some,
}
use fuse_cpp_ramfs.Table.{get_inode, change_inode}
use fuse_cpp_ramfs.Table.Laws.{get-change_self}
use fuse_cpp_ramfs.Space.{size, check_has_space_for}
use fuse_cpp_ramfs.Attr.{has_no_links, add_hard_link, reply_entry_of}
use fuse_cpp_ramfs.Directory.{child_inode_number, add_child, elem_size, ino_notfound}
use fuse_cpp_ramfs.Directory.Size.{DirectoryAt}
use fuse_cpp_ramfs.Directory.Entries.{links, add_child-Added}
use fuse_cpp_ramfs.Handlers.Guards.{with_live, with_children}
use fuse_cpp_ramfs.Handlers.Enter.{with_live-found}
use fuse_cpp_ramfs.Handlers.Attributes.{fuse_lookup}
use fuse_cpp_ramfs.Handlers.Rename.{fuse_link, finish_link}
use fuse_cpp_ramfs.Handlers.Names.Unlink.{
  enter_directory, fuse_lookup-lookup_in, change-DirectoryAt,
}
use fuse_cpp_ramfs.Handlers.Names.Mknod.{other_inode}
use fuse_cpp_ramfs.Handlers.Names.Lookup.{call-found, lookup_in-reply}

module _ (abi : Abi) (fs : Fs) (parent : ℕ) (p : Inode) (ch : Map ℕ) (name : Name) (ino : ℕ)
    (i : Inode) where
  -- The handler past the tests on its two inodes.
  abbrev link_in : Map ℕ → Handler
  link_in entries =
      if not (child_inode_number name entries == ino_notfound)
      then error eexist
      else (do ret ← add_child abi parent name ino; finish_link ino parent ret)

  entered :
      DirectoryAt abi fs parent p ch
      → has_no_links p ≡ false
      → get_inode ino fs ≡ some i
      → has_no_links i ≡ false
      → fuse_link abi ino parent name fs ≡ link_in ch fs
  unfolding fuse_link
  entered at live there live_i =
      with_live-found ino (λ s. with_live parent λ q. with_children q link_in) fs i there live_i
      ∙ enter_directory abi fs parent p ch link_in at live

  -- A new link, and then a new lookup of the parent.
  abbrev linked : Fs → Fs
  linked fs1 = change_inode parent (λ j. (reply_entry_of j).0) (change_inode ino add_hard_link fs1)

  linking :
      (fs1 : Fs) (p1 : Inode)
      → lookup name ch ≡ none
      → add_child abi parent name ino fs ≡ some (success, fs1)
      → get_inode parent fs1 ≡ some p1
      → ino ≢ parent
      → link_in ch fs ≡ some (reply_entry p1.entry_param ∷ [], linked fs1)
  unfolding child_inode_number finish_link reply_entry_of
  linking fs1 p1 free a found other =
      rw (free, child_inode_number)
        (>>=-some (add_child abi parent name ino) (finish_link ino parent) fs a
          ∙ call-found parent reply_entry_of (change_inode ino add_hard_link fs1) p1
              (other_inode ino parent add_hard_link fs1 other ∙ found))

  -- The directory and the inode in the state that the handler leaves.
  linked-DirectoryAt :
      (fs1 : Fs) (p1 : Inode)
      → DirectoryAt abi fs1 parent p1 (insert name ino ch)
      → ino ≢ parent
      → DirectoryAt abi (linked fs1) parent ((reply_entry_of p1).0) (insert name ino ch)
  unfolding reply_entry_of
  linked-DirectoryAt fs1 p1 at1 other =
      let at2 =
        change-DirectoryAt abi fs1 parent p1 (insert name ino ch) ino add_hard_link at1 other in
      record {
        found =
            get-change_self parent (λ j. (reply_entry_of j).0) (change_inode ino add_hard_link fs1)
              at2.found;
        is_directory = at2.is_directory;
        layout = record {
          is_map = at2.layout.is_map;
          sized = at2.layout.sized;
          blocked = at2.layout.blocked;
          small = at2.layout.small;
        };
      }

  linked-inode :
      (fs1 : Fs)
      → get_inode ino fs1 ≡ some i
      → ino ≢ parent
      → get_inode ino (linked fs1) ≡ some (add_hard_link i)
  linked-inode fs1 there other =
      other_inode parent ino (λ j. (reply_entry_of j).0) (change_inode ino add_hard_link fs1)
        (λ e. other (sym e))
      ∙ get-change_self ino add_hard_link fs1 there

  still_live : links i + 1 < word_mod → has_no_links (add_hard_link i) ≡ false
  unfolding add_hard_link add64
  still_live few = ground arith

  -- In a live and well-formed directory with space for an entry of the name, which is not there,
  -- below the bounds on the size and on the free blocks, a name is made for another live inode, with
  -- a number other than 0 and room for one more link. The call is answered with the entry of the
  -- directory, and not with that of the inode. The directory has the name and is well formed, the
  -- inode has one link more, every other inode is as it was, and a lookup of the name is answered
  -- with the entry of the inode.
  pub fuse_link-fuse_lookup :
      DirectoryAt abi fs parent p ch
      → has_no_links p ≡ false
      → get_inode ino fs ≡ some i
      → has_no_links i ≡ false
      → ino ≢ 0
      → ino ≢ parent
      → links i + 1 < word_mod
      → lookup name ch ≡ none
      → size p + elem_size abi name < 2 ^ 62
      → fs.stbuf.f_bfree < word_mod
      → check_has_space_for (some p) (elem_size abi name) fs ≡ true
      → (fs' fs'' : Fs) × (p' : Inode) × (fuse_link abi ino parent name fs
          ≡ some (reply_entry p'.entry_param ∷ [], fs'))
        × DirectoryAt abi fs' parent p' (insert name ino ch)
        × (get_inode ino fs' ≡ some (add_hard_link i))
        × ((j : ℕ) → parent ≢ j → ino ≢ j → get_inode j fs' ≡ get_inode j fs)
        × (fuse_lookup parent name fs'
            ≡ some (reply_entry (add_hard_link i).entry_param ∷ [], fs''))
  unfolding reply_entry_of
  fuse_link-fuse_lookup at live there live_i nonzero other few free small word space =
      elim (add_child-Added abi fs parent p ch at name ino small word) [
        | inl (known, r) ↦ absurd (known free)
        | inr rest ↦ elim rest [
          | inl (same, full, r) ↦ cc
          | inr (same, room, (fs1, p1, a, at1, account, others, kept)) ↦
              let at2 = linked-DirectoryAt fs1 p1 at1 other in
              let there2 = linked-inode fs1 (others ino (λ e. other (sym e)) ∙ there) other in
              (
                linked fs1,
                change_inode ino (λ j. (reply_entry_of j).0) (linked fs1),
                (reply_entry_of p1).0,
                entered at live there live_i ∙ linking fs1 p1 free a at1.found other,
                at2,
                there2,
                λ j np ni.
                    other_inode parent j (λ k. (reply_entry_of k).0)
                      (change_inode ino add_hard_link fs1) np
                    ∙ other_inode ino j add_hard_link fs1 ni
                    ∙ others j np,
                fuse_lookup-lookup_in abi (linked fs1) parent ((reply_entry_of p1).0)
                      (insert name ino ch) name at2 (rw kept live)
                    ∙ lookup_in-reply name (linked fs1) (insert name ino ch) ino (add_hard_link i)
                        (lookup-insert name name ino ch
                          ∙ ap (λ b. if b then some ino else lookup name ch) (name_eq_refl name))
                        nonzero there2 (still_live few),
              )
        ]
      ]
