-- ===== src/Attr.antt =====
-- The attributes of an inode: the members of `class Inode` in src/inode.hpp and src/inode.cpp but
-- for the extended attributes. A method returns the inode as it leaves it and its reply.
use fuse_cpp_ramfs.Base.{ℕ, ◌*◌, ◌/◌, ◌%◌, ◌^◌, Bool, ◌&&◌, [], ◌==◌, if◌then◌else◌, add64, sub64}
use Prim.Native.Nat.{bit_and}
use fuse_cpp_ramfs.State.{
  eacces, success, plus, Stat, EntryParam, Kind, Inode, Reply, reply_err, reply_none, reply_entry,
  reply_create, reply_attr,
}
use fuse_cpp_ramfs.Space.{buf_block_size}

-- A change of the attributes, of the kind, or of the number of lookups.
abbrev pub with_attr : (Stat → Stat) → Inode → Inode
with_attr f i = record i { entry_param = record (i.entry_param) { attr = f i.entry_param.attr } }

abbrev pub with_kind : Kind → Inode → Inode
with_kind k i = record i { kind = k }

-- Bit `k` of a mask of flags.
abbrev pub has_bit : ℕ → ℕ → Bool
has_bit x k = (x / 2 ^ k) % 2 == 1

-- `S_IFMT` of a mode, and the tests of sys/stat.h.
abbrev pub file_type : ℕ → ℕ
file_type mode = (mode / 4096) % 16

abbrev pub s_isreg : ℕ → Bool
s_isreg mode = file_type mode == 8

abbrev pub s_isdir : ℕ → Bool
s_isdir mode = file_type mode == 4

abbrev pub s_ischr : ℕ → Bool
s_ischr mode = file_type mode == 2

abbrev pub s_isblk : ℕ → Bool
s_isblk mode = file_type mode == 6

abbrev pub s_isfifo : ℕ → Bool
s_isfifo mode = file_type mode == 1

abbrev pub s_issock : ℕ → Bool
s_issock mode = file_type mode == 12

abbrev pub s_islnk : ℕ → Bool
s_islnk mode = file_type mode == 10

abbrev pub blank_stat : Stat
blank_stat = record {
  st_dev = 0;
  st_ino = 0;
  st_mode = 0;
  st_nlink = 0;
  st_uid = 0;
  st_gid = 0;
  st_size = 0;
  st_blksize = 0;
  st_blocks = 0;
  st_atim = 0;
  st_mtim = 0;
  st_ctim = 0;
}

abbrev pub blank_param : EntryParam
blank_param = record {
  ino = 0;
  generation = 0;
  attr = blank_stat;
  attr_timeout = 0;
  entry_timeout = 0;
}

-- `Inode::Inode`. The constructor leaves the parameters as they are in memory; `Initialize` clears
-- them before they are read, so they are zero from the start here.
abbrev pub new_inode : Kind → Inode
new_inode k = record { nlookup = 0; entry_param = blank_param; xattr = []; kind = k }

-- `Inode::Initialize`
unfoldable pub initialize : ℕ → ℕ → ℕ → ℕ → ℕ → ℕ → Inode → Inode
initialize now ino mode nlink gid uid i = record i { entry_param = param }
  where
    attr : Stat
    attr = record blank_stat {
      st_ino = ino;
      st_mode = mode;
      st_gid = gid;
      st_uid = uid;
      st_nlink = nlink;
      st_blksize = buf_block_size;
      st_atim = now;
      st_ctim = now;
      st_mtim = now;
    }

    param : EntryParam
    param = record blank_param { ino = ino; attr = attr; attr_timeout = 1; entry_timeout = 1 }

-- `AddHardLink`, `RemoveHardLink` and `HasNoLinks`
unfoldable pub add_hard_link : Inode → Inode
unfolding add64
add_hard_link = with_attr λ a. record a { st_nlink = add64 a.st_nlink 1 }

unfoldable pub remove_hard_link : Inode → Inode
unfolding sub64
remove_hard_link = with_attr λ a. record a { st_nlink = sub64 a.st_nlink 1 }

abbrev pub has_no_links : Inode → Bool
has_no_links i = i.entry_param.attr.st_nlink == 0

abbrev pub get_mode : Inode → ℕ
get_mode i = i.entry_param.attr.st_mode

abbrev pub get_ino : Inode → ℕ
get_ino i = i.entry_param.attr.st_ino

abbrev pub get_attr : Inode → Stat
get_attr i = i.entry_param.attr

abbrev pub forgotten : Inode → Bool
forgotten i = i.nlookup == 0

abbrev pub count_lookup : Inode → Inode
count_lookup i = record i { nlookup = add64 i.nlookup 1 }

unfoldable pub reply_entry_of : Inode → Inode × Reply
unfolding add64
reply_entry_of i = (count_lookup i, reply_entry i.entry_param)

unfoldable pub reply_create_of : Inode → Inode × Reply
unfolding add64
reply_create_of i = (count_lookup i, reply_create i.entry_param)

unfoldable pub reply_attr_of : Inode → Reply
reply_attr_of i = reply_attr i.entry_param.attr

unfoldable pub forget : ℕ → Inode → Inode × Reply
unfolding sub64
forget nlookup i = (record i { nlookup = sub64 i.nlookup nlookup }, reply_none)

-- The fields that `ReplySetAttr` sets: those whose bit of `FUSE_SET_ATTR_*` is in the mask, and then
-- the time of the change.
unfoldable pub set_attr : ℕ → Stat → ℕ → Stat → Stat
set_attr now attr to_set a = record a {
  st_mode = if has_bit to_set 0 then attr.st_mode else a.st_mode;
  st_uid = if has_bit to_set 1 then attr.st_uid else a.st_uid;
  st_gid = if has_bit to_set 2 then attr.st_gid else a.st_gid;
  st_size = if has_bit to_set 3 then attr.st_size else a.st_size;
  st_atim = if has_bit to_set 4 then attr.st_atim else a.st_atim;
  st_mtim = if has_bit to_set 5 then attr.st_mtim else a.st_mtim;
  st_ctim = now;
}

unfoldable pub reply_set_attr : ℕ → Stat → ℕ → Inode → Inode × Reply
unfolding set_attr
reply_set_attr now attr to_set i =
    let i' = with_attr (set_attr now attr to_set) i in (i', reply_attr i'.entry_param.attr)

-- `mask` in the bits of a class: all of them are set in the mode.
abbrev pub grants : ℕ → ℕ → Bool
grants mode mask = bit_and mode mask == mask

-- `ReplyAccess`; `F_OK` is 0.
unfoldable pub reply_access : ℕ → ℕ → ℕ → Inode → Reply
reply_access mask gid uid i =
    if mask == 0
    then reply_err success
    else if grants a.st_mode mask
    then reply_err success
    else if grants a.st_mode (mask * 8) && gid == a.st_gid
    then reply_err success
    else if uid == a.st_uid && grants a.st_mode (mask * 64)
    then reply_err success
    else reply_err (plus eacces)
  where
    open (i.entry_param) use {attr as a}
