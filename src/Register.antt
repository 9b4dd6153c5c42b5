-- ===== src/Register.antt =====
-- The making of inodes: `RegisterInode`, `do_create_node`, the constructor and `FuseInit` of
-- src/fuse_cpp_ramfs.cpp, with the `Initialize` of each class and the constructors of
-- src/symlink.cpp and src/special_inode.cpp.
use fuse_cpp_ramfs.Base.{
  ℕ, ◌+◌, ◌/◌, Bool, true, false, Option, none, some, [], length, ◌==◌, if◌then◌else◌, sub64, mul64,
  ltb, Name, not,
}
use fuse_cpp_ramfs.State.{
  enospc, einval, Code, minus, Kind, Inode, directory, file, symlink, special, char_dev, block_dev,
  fifo, sock, SpecialInodeTypes, Fs, Statvfs, type_no_block, M, pure, ◌>>=◌, ◌>>◌, modify, Abi, Env,
  Stat,
}
use fuse_cpp_ramfs.Table.{get_inode, change_inode, place_inode, delete_inode}
use fuse_cpp_ramfs.Space.{
  buf_block_size, used_blocks, update_used_blocks, update_used_inodes, get_free_inodes,
}
use fuse_cpp_ramfs.Attr.{
  with_attr, new_inode, initialize, add_hard_link, get_ino, s_isreg, s_isdir, s_ischr, s_isblk,
  s_isfifo, s_issock, s_islnk,
}
use fuse_cpp_ramfs.Directory.{with_size, update_size, add_child, dot, dot_dot}

-- `SpecialInode::SpecialInode`
abbrev pub new_special : SpecialInodeTypes → ℕ → Inode
new_special type dev = with_attr (λ a. record a { st_dev = dev }) (new_inode (special type))

-- The blocks of `SymLink::Initialize`.
unfoldable pub link_blocks : ℕ → ℕ → ℕ
unfolding mul64
link_blocks bytes blksize =
    let whole = bytes / blksize in if ltb (mul64 blksize whole) bytes then whole + 1 else whole

unfoldable pub size_of_link : Kind → Stat → Stat
unfolding link_blocks
size_of_link (symlink link) a = with_size (length link) (link_blocks (length link) a.st_blksize) a
size_of_link _ a = a

-- The virtual `Initialize` of the object at `ino`: that of `Inode`, and then what `Directory` and
-- `SymLink` add.
unfoldable pub initialize_more : Abi → ℕ → Kind → M (Unit {0})
unfolding size_of_link change_inode update_size
initialize_more abi ino (directory ch) = update_size ino abi.sizeof_children
initialize_more abi ino k = modify (change_inode ino (with_attr (size_of_link k)))

-- `UpdateUsedBlocks(inode_p->UsedBlocks())`
unfoldable pub count_blocks : ℕ → M (Unit {0})
unfolding get_inode update_used_blocks
count_blocks ino fs = elim (get_inode ino fs) [
  | none ↦ none
  | some i ↦ some (tt, update_used_blocks (used_blocks i) fs)
]

-- `FuseRamFs::RegisterInode`
unfoldable pub register_inode : Abi → ℕ → Inode → ℕ → ℕ → ℕ → ℕ → M ℕ
unfolding place_inode update_used_inodes initialize change_inode initialize_more count_blocks
register_inode abi now inode mode nlink gid uid fs =
    let (ino, placed) = place_inode inode fs in
    (do
      modify (update_used_inodes 1)
      modify (change_inode ino (initialize now ino mode nlink gid uid))
      initialize_more abi ino inode.kind
      count_blocks ino
      pure ino)
      placed

-- The object for a mode, with its number of links; `none` is `EINVAL`.
unfoldable pub node_for : ℕ → ℕ → Option Name → Option (Inode × ℕ)
node_for mode dev link =
    if s_isreg mode
    then some (new_inode (file []), 1)
    else if s_isdir mode
    then some (new_inode (directory []), 2)
    else if s_ischr mode
    then some (new_special char_dev dev, 1)
    else if s_isblk mode
    then some (new_special block_dev dev, 1)
    else if s_isfifo mode
    then some (new_special fifo 0, 1)
    else if s_issock mode
    then some (new_special sock 0, 1)
    else if s_islnk mode
    then (elim link [ none ↦ none | some target ↦ some (new_inode (symlink target), 1) ])
    else none

-- The result of `do_create_node`: a number, or a negated error.
pub data Created : Type 0 where
  node : ℕ → Created
  failed : Code → Created

-- "." and ".." of a new directory; `parent` is the number that its parent has in its attributes.
unfoldable pub add_dots : Abi → Bool → ℕ → ℕ → M (Unit {0})
unfolding add_child
add_dots abi false ino parent = pure tt
add_dots abi true ino parent = do
  add_child abi ino dot ino
  add_child abi ino dot_dot parent
  pure tt

-- The way back where the entry could not be added.
unfoldable pub unregister : ℕ → Code → M Created
unfolding get_inode update_used_inodes update_used_blocks delete_inode sub64
unregister ino code fs = elim (get_inode ino fs) [
  | none ↦ none
  | some i ↦
      pure (failed code)
        (delete_inode ino (update_used_blocks (used_blocks i) (update_used_inodes (sub64 0 1) fs)))
]

-- The end of `do_create_node`: `code` is the result of adding the entry to the parent.
unfoldable pub finish_node : Bool → ℕ → ℕ → Code → M Created
unfolding unregister change_inode add_hard_link
finish_node is_dir parent ino (minus e) = unregister ino (minus e)
finish_node true parent ino code = do modify (change_inode parent add_hard_link); pure (node ino)
finish_node false parent ino code = pure (node ino)

-- The part of `do_create_node` from the registration on.
unfoldable pub link_node : Abi → Env → ℕ → Name → ℕ → Inode → ℕ → M Created
unfolding register_inode add_dots add_child finish_node get_inode
link_node abi env parent name mode inode links = do
  ino ← register_inode abi env.now inode mode links env.gid env.uid
  (λ fs. elim (get_inode parent fs) [
    | none ↦ none
    | some p ↦
        (do
          add_dots abi (s_isdir mode) ino (get_ino p)
          code ← add_child abi parent name ino
          finish_node (s_isdir mode) parent ino code)
          fs
  ])

-- `FuseRamFs::do_create_node`
unfoldable pub do_create_node : Abi → Env → ℕ → Name → ℕ → ℕ → Option Name → M Created
unfolding node_for link_node
do_create_node abi env parent name mode dev link fs = elim (node_for mode dev link) [
  | none ↦ pure (failed (minus einval)) fs
  | some (inode, links) ↦
      if not env.new_ok
      then pure (failed (minus enospc)) fs
      else if get_free_inodes fs == 0
      then pure (failed (minus enospc)) fs
      else link_node abi env parent name mode inode links fs
]

-- The constructor `FuseRamFs`: the counters of an empty file system.
abbrev pub total_blocks : ℕ
total_blocks = 8388608

abbrev pub total_inodes : ℕ
total_inodes = 1048576

unfoldable pub new_fs : ℕ → ℕ → Fs
new_fs blocks inodes = record { inodes = []; deleted = []; stbuf = stbuf; readdir_states = [] }
  where
    capacity : ℕ
    capacity = if blocks == 0 then total_blocks else blocks

    slots : ℕ
    slots = if inodes == 0 then total_inodes else inodes

    stbuf : Statvfs
    stbuf = record {
      f_bsize = buf_block_size;
      f_frsize = buf_block_size;
      f_blocks = capacity;
      f_bfree = capacity;
      f_bavail = capacity;
      f_files = slots;
      f_ffree = slots;
      f_favail = slots;
      f_fsid = 0xc13f944870434d8f;
      f_flag = 0;
      f_namemax = 1024;
    }

-- The counters that `FuseInit` sets anew.
abbrev pub reset_counters : Fs → Fs
reset_counters fs = record fs {
  stbuf = record (fs.stbuf) {
    f_bfree = fs.stbuf.f_blocks;
    f_bavail = fs.stbuf.f_blocks;
    f_ffree = fs.stbuf.f_files;
    f_favail = fs.stbuf.f_files;
    f_flag = 0;
  };
}

-- `S_IFDIR | 0777`
abbrev pub root_mode : ℕ
root_mode = 0o40777

-- `FuseRamFs::FuseInit`
unfoldable pub fuse_init : Abi → Env → M (Unit {0})
unfolding register_inode add_child
fuse_init abi env = do
  modify reset_counters
  register_inode abi env.now (new_special type_no_block 0) 0 0 env.gid env.uid
  rootno ← register_inode abi env.now (new_inode (directory [])) root_mode 3 env.gid env.uid
  add_child abi rootno dot rootno
  add_child abi rootno dot_dot rootno
  pure tt
