-- ===== src/Handlers/Names/Unlink.antt =====
-- `FuseUnlink` of src/fuse_cpp_ramfs.cpp, and the lookup of the name after it.
use fuse_cpp_ramfs.Base.{
  ℕ, ◌≡◌, ◌≢◌, ◌∙◌, sym, ap, false, none, some, [], ◌∷◌, ◌==◌, if◌then◌else◌, inl, inr, arith, Name,
  Map, lookup, erase, lookup-erase_self,
}
use fuse_cpp_ramfs.State.{
  Inode, Fs, Abi, Handler, reply, reply_err, success, plus, enoent, ◌>>◌, >>=-some, error,
}
use fuse_cpp_ramfs.Table.{get_inode, change_inode}
use fuse_cpp_ramfs.Table.Laws.{get-change, get-change_self}
use fuse_cpp_ramfs.Attr.{has_no_links, remove_hard_link, reply_entry_of}
use fuse_cpp_ramfs.Directory.{child_inode_number, remove_child, children_of, ino_notfound}
use fuse_cpp_ramfs.Directory.Size.{DirectoryAt}
use fuse_cpp_ramfs.Directory.Entries.{remove_child-Removed}
use fuse_cpp_ramfs.Handlers.Guards.{with_live, with_children, call}
use fuse_cpp_ramfs.Handlers.Enter.{with_live-found, with_children-found}
use fuse_cpp_ramfs.Handlers.Attributes.{fuse_lookup}
use fuse_cpp_ramfs.Handlers.Remove.{fuse_unlink, drop_link}

pub not_equal : (a b : ℕ) → a ≢ b → (a == b) ≡ false
not_equal a b h = ground arith

-- The tests at the start of a handler pass in a live directory.
pub enter_directory :
    (abi : Abi) (fs : Fs) (parent : ℕ) (p : Inode) (ch : Map ℕ) (k : Map ℕ → Handler)
    → DirectoryAt abi fs parent p ch
    → has_no_links p ≡ false
    → with_live parent (λ q. with_children q k) fs ≡ k ch fs
enter_directory abi fs parent p ch k at live =
    with_live-found parent (λ q. with_children q k) fs p at.found live
    ∙ with_children-found p k fs ch (ap children_of at.is_directory)

abbrev pub lookup_in : Name → Map ℕ → Handler
lookup_in name ch =
    let ino = child_inode_number name ch in
    if ino == ino_notfound then error enoent else with_live ino (λ i. call ino reply_entry_of)

pub fuse_lookup-lookup_in :
    (abi : Abi) (fs : Fs) (parent : ℕ) (p : Inode) (ch : Map ℕ) (name : Name)
    → DirectoryAt abi fs parent p ch
    → has_no_links p ≡ false
    → fuse_lookup parent name fs ≡ lookup_in name ch fs
unfolding fuse_lookup
fuse_lookup-lookup_in abi fs parent p ch name at live =
    enter_directory abi fs parent p ch (lookup_in name) at live

-- A lookup of a name that is not there.
pub fuse_lookup-missing :
    (abi : Abi) (fs : Fs) (parent : ℕ) (p : Inode) (ch : Map ℕ) (name : Name)
    → DirectoryAt abi fs parent p ch
    → has_no_links p ≡ false
    → lookup name ch ≡ none
    → fuse_lookup parent name fs ≡ some (reply_err (plus enoent) ∷ [], fs)
unfolding child_inode_number
fuse_lookup-missing abi fs parent p ch name at live e =
    fuse_lookup-lookup_in abi fs parent p ch name at live ∙ rw (e, child_inode_number)

-- `DirectoryAt` where another inode has changed.
pub change-DirectoryAt :
    (abi : Abi) (fs : Fs) (parent : ℕ) (p : Inode) (ch : Map ℕ) (ino : ℕ) (f : Inode → Inode)
    → DirectoryAt abi fs parent p ch
    → ino ≢ parent
    → DirectoryAt abi (change_inode ino f fs) parent p ch
change-DirectoryAt abi fs parent p ch ino f at ne = record {
  found = ground (arith, ne, at.found, get-change ino f fs parent);
  is_directory = at.is_directory;
  layout = at.layout;
}

module _ (abi : Abi) (fs : Fs) (parent : ℕ) (p : Inode) (ch : Map ℕ) (name : Name) (ino : ℕ)
    (i : Inode) where
  drop_link-found :
      (gs : Fs)
      → get_inode ino gs ≡ some i
      → drop_link ino gs ≡ some (tt, change_inode ino remove_hard_link gs)
  unfolding drop_link
  drop_link-found gs e = rw (e, drop_link)

  abbrev unlink_in : Map ℕ → Handler
  unlink_in ch' =
      let n = child_inode_number name ch' in
      if n == ino_notfound
      then error enoent
      else (do remove_child abi parent name; drop_link n; reply (reply_err success))

  removal :
      (fs1 : Fs)
      → lookup name ch ≡ some ino
      → ino ≢ 0
      → remove_child abi parent name fs ≡ some (success, fs1)
      → get_inode ino fs1 ≡ some i
      → unlink_in ch fs ≡ some (reply_err success ∷ [], change_inode ino remove_hard_link fs1)
  unfolding child_inode_number
  removal fs1 e nonzero r there =
      rw (e, child_inode_number)
        (rw (not_equal ino 0 nonzero) (
          >>=-some (remove_child abi parent name) (λ _. drop_link ino >> reply (reply_err success))
            fs r
          ∙ >>=-some (drop_link ino) (λ _. reply (reply_err success)) fs1
              (drop_link-found fs1 there)))

  -- In a live and well-formed directory, the unlinking of a name of another inode that exists is
  -- answered as a success: the directory has lost that name alone and is well formed, the inode has
  -- one link less, every other inode is as it was, and a lookup of the name is answered with
  -- `ENOENT`.
  pub fuse_unlink-fuse_lookup :
      DirectoryAt abi fs parent p ch
      → has_no_links p ≡ false
      → lookup name ch ≡ some ino
      → ino ≢ 0
      → ino ≢ parent
      → get_inode ino fs ≡ some i
      → (fs' : Fs) × (p' : Inode) × (fuse_unlink abi parent name fs
          ≡ some (reply_err success ∷ [], fs'))
        × DirectoryAt abi fs' parent p' (erase name ch)
        × (get_inode ino fs' ≡ some (remove_hard_link i))
        × ((j : ℕ) → parent ≢ j → ino ≢ j → get_inode j fs' ≡ get_inode j fs)
        × (fuse_lookup parent name fs' ≡ some (reply_err (plus enoent) ∷ [], fs'))
  unfolding fuse_unlink child_inode_number
  fuse_unlink-fuse_lookup at live e nonzero other there =
      elim (remove_child-Removed abi fs parent p ch at name) [
        | inl (free, r) ↦ cc
        | inr (known, (fs1, p1, r, at1, others, same)) ↦
            let fs2 = change_inode ino remove_hard_link fs1 in
            let at2 =
              change-DirectoryAt abi fs1 parent p1 (erase name ch) ino remove_hard_link at1 other in
            let there1 : get_inode ino fs1 ≡ some i = others ino (λ z. other (sym z)) ∙ there in
            (
              fs2,
              p1,
              enter_directory abi fs parent p ch unlink_in at live ∙ removal fs1 e nonzero r there1,
              at2,
              get-change_self ino remove_hard_link fs1 there1,
              λ j np ni. ground (arith, ni, get-change ino remove_hard_link fs1 j, others j np),
              fuse_lookup-missing abi fs2 parent p1 (erase name ch) name at2 (rw same live)
                  (lookup-erase_self name ch at.layout.is_map),
            )
      ]
