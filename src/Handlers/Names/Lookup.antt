-- ===== src/Handlers/Names/Lookup.antt =====
-- A file that `FuseMknod` of src/fuse_cpp_ramfs.cpp makes is found by `FuseLookup`.
use fuse_cpp_ramfs.Base.{
  ℕ, ◌≡◌, ◌≢◌, ◌∙◌, true, false, none, some, [], ◌∷◌, not, ◌==◌, if◌then◌else◌, arith, Name, Map,
  lookup, lt→ltb,
}
use fuse_cpp_ramfs.State.{
  Inode, Fs, Env, Abi, M, Handler, Reply, file, reply_entry, ◌>>◌, ◌>>=◌, >>=-some, success, error,
  enospc, eexist,
}
use fuse_cpp_ramfs.Table.{get_inode, change_inode}
use fuse_cpp_ramfs.Space.{get_free_inodes}
use fuse_cpp_ramfs.Attr.{new_inode, s_isreg, s_isdir, has_no_links, reply_entry_of, get_ino}
use fuse_cpp_ramfs.Directory.{child_inode_number, ino_notfound, add_child}
use fuse_cpp_ramfs.Register.{
  Created, node, register_inode, node_for, add_dots, finish_node, link_node, do_create_node,
}
use fuse_cpp_ramfs.Handlers.Guards.{call}
use fuse_cpp_ramfs.Handlers.Enter.{with_live-found}
use fuse_cpp_ramfs.Handlers.Create.{answer_created}
use fuse_cpp_ramfs.Handlers.Names.Unlink.{lookup_in, not_equal}

regular : (mode : ℕ) → s_isreg mode ≡ true → s_isdir mode ≡ false
regular mode h = ground arith

node_for-file :
    (mode dev : ℕ) → s_isreg mode ≡ true → node_for mode dev none ≡ some (new_inode (file []), 1)
unfolding node_for
node_for-file mode dev h = rw h

pub call-found :
    (ino : ℕ) (method : Inode → Inode × Reply) (fs : Fs) (i : Inode)
    → get_inode ino fs ≡ some i
    → call ino method fs ≡ some ((method i).1 ∷ [], change_inode ino (λ j. (method j).0) fs)
unfolding call
call-found ino method fs i e = rw (e, call)

-- A lookup of a name whose inode has links.
pub lookup_in-reply :
    (name : Name) (fs : Fs) (ch : Map ℕ) (ino : ℕ) (i : Inode)
    → lookup name ch ≡ some ino
    → ino ≢ 0
    → get_inode ino fs ≡ some i
    → has_no_links i ≡ false
    → lookup_in name ch fs
      ≡ some (reply_entry i.entry_param ∷ [], change_inode ino (λ j. (reply_entry_of j).0) fs)
unfolding child_inode_number reply_entry_of
lookup_in-reply name fs ch ino i e nonzero there live =
    rw (e, child_inode_number)
      (rw (not_equal ino 0 nonzero) (
        with_live-found ino (λ j. call ino reply_entry_of) fs i there live
        ∙ call-found ino reply_entry_of fs i there))

module _ (abi : Abi) (env : Env) (parent : ℕ) (name : Name) (mode rdev : ℕ) where
  -- The steps of `do_create_node` behind the registration.
  abbrev linking : ℕ → M Created
  linking ino gs = elim (get_inode parent gs) [
    | none ↦ none
    | some q ↦
        (do
          add_dots abi (s_isdir mode) ino (get_ino q)
          code ← add_child abi parent name ino
          finish_node (s_isdir mode) parent ino code)
          gs
  ]

  linking-node :
      (ino : ℕ) (gs hs : Fs) (q : Inode)
      → s_isreg mode ≡ true
      → get_inode parent gs ≡ some q
      → add_child abi parent name ino gs ≡ some (success, hs)
      → linking ino gs ≡ some (node ino, hs)
  unfolding add_dots finish_node
  linking-node ino gs hs q reg e r =
      rw (e, linking)
        (rw (regular mode reg)
          (>>=-some (add_child abi parent name ino) (finish_node false parent ino) gs r))

  pub do_create_node-node :
      (fs gs hs : Fs) (ino : ℕ) (q : Inode)
      → s_isreg mode ≡ true
      → env.new_ok ≡ true
      → (get_free_inodes fs == 0) ≡ false
      → register_inode abi env.now (new_inode (file [])) mode 1 env.gid env.uid fs ≡ some (ino, gs)
      → get_inode parent gs ≡ some q
      → add_child abi parent name ino gs ≡ some (success, hs)
      → do_create_node abi env parent name mode rdev none fs ≡ some (node ino, hs)
  unfolding do_create_node link_node
  do_create_node-node fs gs hs ino q reg fresh free r e a =
      rw (node_for-file mode rdev reg, do_create_node)
        (rw fresh (
          rw free (
            >>=-some (register_inode abi env.now (new_inode (file [])) mode 1 env.gid env.uid)
              linking fs r
            ∙ linking-node ino gs hs q reg e a)))

  abbrev pub make_in : Map ℕ → Handler
  make_in ch fs =
      if get_free_inodes fs == 0
      then error enospc fs
      else if not (child_inode_number name ch == ino_notfound)
      then error eexist fs
      else (do
        ino ← do_create_node abi env parent name mode rdev none
        answer_created reply_entry_of ino)
          fs

  -- The handler up to its reply.
  pub make_in-reply :
      (fs hs : Fs) (ch : Map ℕ) (ino : ℕ) (made : Inode)
      → (get_free_inodes fs == 0) ≡ false
      → lookup name ch ≡ none
      → ino ≢ 0
      → do_create_node abi env parent name mode rdev none fs ≡ some (node ino, hs)
      → get_inode ino hs ≡ some made
      → make_in ch fs
        ≡ some (reply_entry made.entry_param ∷ [], change_inode ino (λ j. (reply_entry_of j).0) hs)
  unfolding child_inode_number answer_created reply_entry_of
  make_in-reply fs hs ch ino made free fresh nonzero r e = rw free (
      rw (fresh, child_inode_number)
        (>>=-some (do_create_node abi env parent name mode rdev none)
            (answer_created reply_entry_of) fs r
          ∙ rw (lt→ltb 0 ino (omega arith)) (call-found ino reply_entry_of hs made e)))
