-- ===== src/Keeps/Create.antt =====
-- The handlers that make inodes keep every invariant that also bears the registration of an inode
-- and the way back from it.
use fuse_cpp_ramfs.Base.{
  ltb, ℕ, ◌≡◌, refl, Bool, true, false, Option, none, some, List, ◌==◌, inl, inr, Option-cases, not,
  Name,
}
use Prim.Native.Nat.{bit_or}
use fuse_cpp_ramfs.State.{
  reply, reply_err, Inode, Fs, ◌>>=◌, ◌>>◌, pure, Handler, Reply, Env, Abi, Code, success, plus,
  minus, error, eexist,
}
use fuse_cpp_ramfs.Table.{get_inode}
use fuse_cpp_ramfs.Space.{used_blocks, get_free_inodes}
use fuse_cpp_ramfs.Attr.{add_hard_link, reply_entry_of, reply_create_of, get_ino, s_isdir}
use fuse_cpp_ramfs.Directory.{child_inode_number, ino_notfound, add_child, dot, dot_dot}
use fuse_cpp_ramfs.Register.{
  Created, node, failed, register_inode, node_for, add_dots, unregister, finish_node, link_node,
  do_create_node,
}
use fuse_cpp_ramfs.Handlers.Guards.{call}
use fuse_cpp_ramfs.Handlers.Create.{
  answer_created, make_node, fuse_mknod, fuse_mkdir, fuse_create, fuse_symlink, space_errors, after,
  s_ifdir, s_ifreg, link_mode,
}
use fuse_cpp_ramfs.Keeps.{
  Keeps, Frame, Keeps->>=, Post-if, Keeps-if, Keeps-with_live, Keeps-with_children,
}
use fuse_cpp_ramfs.Keeps.Directory.{add_child-Keeps}
use fuse_cpp_ramfs.Keeps.Handlers.{call-Keeps}

-- What an invariant has to bear beyond a frame for the making of inodes.
pub record Maker (P : Fs → Type 0) : Type 0 where
  pub keep_register :
      (abi : Abi) (now : ℕ) (inode : Inode) (mode nlink gid uid : ℕ)
      → Keeps P (register_inode abi now inode mode nlink gid uid)
  pub keep_unregister : (ino : ℕ) (code : Code) → Keeps P (unregister ino code)

module _ (P : Fs → Type 0) (frame : Frame P) (maker : Maker P) where
  add_dots-Keeps : (abi : Abi) (b : Bool) (ino parent : ℕ) → Keeps P (add_dots abi b ino parent)
  unfolding add_dots
  add_dots-Keeps abi false ino parent fs p = p
  add_dots-Keeps abi true ino parent fs p =
      Keeps->>= P (add_child abi ino dot ino) (λ _. add_child abi ino dot_dot parent >> pure tt)
        (add_child-Keeps P frame abi ino dot ino)
        (λ _.
          Keeps->>= P (add_child abi ino dot_dot parent) (λ _. pure tt)
            (add_child-Keeps P frame abi ino dot_dot parent) λ _ fs' h. h)
        fs p

  finish_node-Keeps :
      (is_dir : Bool) (parent ino : ℕ) (code : Code) → Keeps P (finish_node is_dir parent ino code)
  unfolding finish_node add_hard_link
  finish_node-Keeps is_dir parent ino (minus e) fs p = maker.keep_unregister ino (minus e) fs p
  finish_node-Keeps true parent ino success fs p =
      frame.keep_attr parent add_hard_link fs (λ i _. refl) p
  finish_node-Keeps true parent ino (plus e) fs p =
      frame.keep_attr parent add_hard_link fs (λ i _. refl) p
  finish_node-Keeps false parent ino success fs p = p
  finish_node-Keeps false parent ino (plus e) fs p = p

  link_node-Keeps :
      (abi : Abi) (env : Env) (parent : ℕ) (name : Name) (mode : ℕ) (inode : Inode) (links : ℕ)
      → Keeps P (link_node abi env parent name mode inode links)
  unfolding link_node
  link_node-Keeps abi env parent name mode inode links =
      Keeps->>= P (register_inode abi env.now inode mode links env.gid env.uid) _
        (maker.keep_register abi env.now inode mode links env.gid env.uid)
        λ ino fs p. elim (Option-cases (get_inode parent fs)) [
          | inl e ↦ rw e tt
          | inr (q, e) ↦ rw e (
              Keeps->>= P (add_dots abi (s_isdir mode) ino (get_ino q))
                (λ _. add_child abi parent name ino >>= finish_node (s_isdir mode) parent ino)
                (add_dots-Keeps abi (s_isdir mode) ino (get_ino q))
                (λ _.
                  Keeps->>= P (add_child abi parent name ino)
                    (finish_node (s_isdir mode) parent ino)
                    (add_child-Keeps P frame abi parent name ino)
                    (finish_node-Keeps (s_isdir mode) parent ino))
                fs p)
        ]

  do_create_node-Keeps :
      (abi : Abi) (env : Env) (parent : ℕ) (name : Name) (mode dev : ℕ) (link : Option Name)
      → Keeps P (do_create_node abi env parent name mode dev link)
  unfolding do_create_node
  do_create_node-Keeps abi env parent name mode dev link fs p =
      elim (Option-cases (node_for mode dev link)) [
        | inl e ↦ rw (e, do_create_node) p
        | inr ((inode, links), e) ↦
            rw (e, do_create_node)
              (Post-if P (not env.new_ok) _ _ p (
                Post-if P (get_free_inodes fs == 0) _ _ p
                  (link_node-Keeps abi env parent name mode inode links fs p)))
      ]

  answer_created-Keeps :
      (method : Inode → Inode × Reply) (c : Created)
      → ((i : Inode) → used_blocks (method i).0 ≡ used_blocks i)
      → Keeps P (answer_created method c)
  unfolding answer_created
  answer_created-Keeps method (node ino) h =
      Keeps-if P (ltb 0 ino) (call ino method) (reply (reply_err success))
        (call-Keeps P frame ino method h) λ fs p. p
  answer_created-Keeps method (failed code) h = λ fs p. p

  make_node-Keeps :
      (abi : Abi) (env : Env) (parent : ℕ) (name : Name) (mode rdev : ℕ)
      → Keeps P (make_node abi env parent name mode rdev)
  unfolding make_node reply_entry_of
  make_node-Keeps abi env parent name mode rdev = Keeps-with_live P parent _ λ p.
      Keeps-with_children P p _ λ ch fs h. Post-if P (get_free_inodes fs == 0) _ _ h (
        Post-if P (not (child_inode_number name ch == ino_notfound)) _ _ h (
          Keeps->>= P (do_create_node abi env parent name mode rdev none)
            (answer_created reply_entry_of)
            (do_create_node-Keeps abi env parent name mode rdev none)
            (λ c. answer_created-Keeps reply_entry_of c (λ i. refl)) fs h))

  pub fuse_mknod-Keeps :
      (abi : Abi) (env : Env) (parent : ℕ) (name : Name) (mode rdev : ℕ)
      → Keeps P (fuse_mknod abi env parent name mode rdev)
  unfolding fuse_mknod
  fuse_mknod-Keeps = make_node-Keeps

  pub fuse_mkdir-Keeps :
      (abi : Abi) (env : Env) (parent : ℕ) (name : Name) (mode : ℕ)
      → Keeps P (fuse_mkdir abi env parent name mode)
  unfolding fuse_mkdir
  fuse_mkdir-Keeps abi env parent name mode =
      make_node-Keeps abi env parent name (bit_or mode s_ifdir) 0

  pub fuse_create-Keeps :
      (abi : Abi) (env : Env) (parent : ℕ) (name : Name) (mode : ℕ)
      → Keeps P (fuse_create abi env parent name mode)
  unfolding fuse_create reply_create_of
  fuse_create-Keeps abi env parent name mode = Keeps-with_live P parent _ λ p.
      Keeps-with_children P p _ λ ch.
        Keeps->>= P (do_create_node abi env parent name (bit_or mode s_ifreg) 0 none)
          (answer_created reply_create_of)
          (do_create_node-Keeps abi env parent name (bit_or mode s_ifreg) 0 none)
          (λ c. answer_created-Keeps reply_create_of c (λ i. refl))

  after-Keeps : (sent : List Reply) (h : Handler) → Keeps P h → Keeps P (after sent h)
  after-Keeps sent h k = Keeps->>= P h _ k λ replies fs p. p

  pub fuse_symlink-Keeps :
      (abi : Abi) (env : Env) (link : Name) (parent : ℕ) (name : Name)
      → Keeps P (fuse_symlink abi env link parent name)
  unfolding fuse_symlink reply_entry_of
  fuse_symlink-Keeps abi env link parent name = Keeps-with_live P parent _ λ p.
      Keeps-with_children P p _ λ ch fs h.
        after-Keeps (space_errors name fs) _
          (Keeps-if P (not (child_inode_number name ch == ino_notfound)) (error eexist) _
            (λ fs' q. q)
            (Keeps->>= P (do_create_node abi env parent name link_mode 0 (some link))
              (answer_created reply_entry_of)
              (do_create_node-Keeps abi env parent name link_mode 0 (some link))
              (λ c. answer_created-Keeps reply_entry_of c (λ i. refl))))
          fs h
