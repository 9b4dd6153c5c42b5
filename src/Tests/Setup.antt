-- ===== src/Tests/Setup.antt =====
-- The inputs of the tests: the sizes of a common compiler, an environment in which memory is found,
-- and a file system with a file of three bytes and a directory.
use fuse_cpp_ramfs.Base.{
  ℕ, ◌-◌, true, Option, some, List, [], ◌∷◌, ◌++◌, length, take, replicate, Name, Map,
}
use fuse_cpp_ramfs.State.{Statvfs, Env, Abi, Fs, Inode, file, directory, special, type_no_block}
use fuse_cpp_ramfs.Attr.{new_inode, with_attr}
use fuse_cpp_ramfs.Directory.{dot, dot_dot}

abbrev pub abi : Abi
abi = record { sizeof_children = 48; sizeof_tree_node = 32; sizeof_ino = 8; sizeof_string = 32 }

-- New memory holds the byte 7.
abbrev pub enough : List ℕ → ℕ → Option (List ℕ)
enough buf n = some (take n (buf ++ replicate (n - length buf) 7))

abbrev pub env : Env
env = record {
  now = 100;
  uid = 1000;
  gid = 1000;
  realloc = enough;
  new_ok = true;
  malloc_ok = true;
  rand = 5 ∷ [];
  dirent = λ name stat off. name ++ stat.st_ino ∷ [];
}

abbrev pub sub : Name
sub = b's' ∷ []

abbrev pub doc : Name
doc = b'd' ∷ []

abbrev pub three_bytes : List ℕ
three_bytes = replicate 512 7

abbrev pub a_file : Inode
a_file =
    with_attr
      (λ a. record a { st_ino = 2; st_nlink = 1; st_size = 3; st_blocks = 1; st_mode = 0o100644 })
      (new_inode (file three_bytes))

abbrev pub entries : Map ℕ
entries = (dot, 1) ∷ (dot_dot, 1) ∷ (doc, 2) ∷ []

-- 48 bytes for the map, and 72 and the length of the name for each entry.
abbrev pub a_directory : Inode
a_directory =
    with_attr
      (λ a. record a { st_ino = 1; st_nlink = 3; st_size = 268; st_blocks = 1; st_mode = 0o40777 })
      (new_inode (directory entries))

-- 64 blocks and 8 inodes, of which two blocks and three inodes are taken.
abbrev pub counters : Statvfs
counters = record {
  f_bsize = 512;
  f_frsize = 512;
  f_blocks = 64;
  f_bfree = 62;
  f_bavail = 62;
  f_files = 8;
  f_ffree = 5;
  f_favail = 5;
  f_fsid = 0;
  f_flag = 0;
  f_namemax = 1024;
}

abbrev pub sample : Fs
sample = record {
  inodes = some (new_inode (special type_no_block)) ∷ some a_directory ∷ some a_file ∷ [];
  deleted = [];
  stbuf = counters;
  readdir_states = [];
}
