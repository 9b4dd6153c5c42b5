-- ===== src/Space.antt =====
-- The counters of `statvfs` and the test for free space: `get_nblocks` and `round_up` of
-- src/util.hpp, `UpdateUsedBlocks`, `UpdateUsedInodes`, `FsStat`, `CheckHasSpaceFor` and
-- `GetFreeInodes` of src/fuse_cpp_ramfs.hpp.
use fuse_cpp_ramfs.Base.{
  ℕ, ◌-◌, ◌/◌, Bool, true, Option, none, some, leb, if◌then◌else◌, add64, sub64, mul64, signed_le,
}
use fuse_cpp_ramfs.State.{Inode, Fs, Statvfs}

-- `Inode::BufBlockSize`
abbrev pub buf_block_size : ℕ
buf_block_size = 512

unfoldable pub round_up : ℕ → ℕ → ℕ
unfolding add64 sub64 mul64
round_up value unit = mul64 (sub64 (add64 value unit) 1 / unit) unit

unfoldable pub get_nblocks : ℕ → ℕ → ℕ
unfolding add64 sub64
get_nblocks size blocksize = sub64 (add64 size blocksize) 1 / blocksize

-- `Inode::UsedBlocks`
abbrev pub used_blocks : Inode → ℕ
used_blocks i = i.entry_param.attr.st_blocks

-- `Inode::Size`
abbrev pub size : Inode → ℕ
size i = i.entry_param.attr.st_size

unfoldable pub update_used_blocks : ℕ → Fs → Fs
unfolding sub64
update_used_blocks blocks_added fs = record fs { stbuf = taken }
  where
    taken : Statvfs
    taken = record (fs.stbuf) {
      f_bfree = sub64 fs.stbuf.f_bfree blocks_added;
      f_bavail = sub64 fs.stbuf.f_bavail blocks_added;
    }

unfoldable pub update_used_inodes : ℕ → Fs → Fs
unfolding sub64
update_used_inodes inodes_added fs = record fs { stbuf = taken }
  where
    taken : Statvfs
    taken = record (fs.stbuf) {
      f_ffree = sub64 fs.stbuf.f_ffree inodes_added;
      f_favail = sub64 fs.stbuf.f_favail inodes_added;
    }

abbrev pub fs_stat : Fs → Statvfs
fs_stat fs = fs.stbuf

abbrev pub get_free_inodes : Fs → ℕ
get_free_inodes fs = fs.stbuf.f_ffree

-- The blocks and the size that the test of `CheckHasSpaceFor` compares.
abbrev old_blocks : Option Inode → ℕ
old_blocks none = 0
old_blocks (some i) = used_blocks i

abbrev grown_size : Option Inode → ℕ → ℕ
grown_size none inc_size = inc_size
grown_size (some i) inc_size = add64 (size i) inc_size

unfoldable pub check_has_space_for : Option Inode → ℕ → Fs → Bool
check_has_space_for inode inc_size fs =
    if signed_le inc_size 0
    then true
    else let new_blocks = get_nblocks (grown_size inode inc_size) buf_block_size in
      if leb new_blocks (old_blocks inode)
      then true
      else leb (new_blocks - old_blocks inode) fs.stbuf.f_bfree
