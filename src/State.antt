-- ===== src/State.antt =====
-- The data of the file system: src/inode.hpp, src/file.hpp, src/directory.hpp, src/symlink.hpp,
-- src/special_inode.hpp and the static members of src/fuse_cpp_ramfs.hpp. A pointer to an inode is
-- its number in the inode table, so two names for one inode share its state.
use fuse_cpp_ramfs.Base.{◌≡◌, ℕ, Bool, Option, none, some, List, [], ◌∷◌, Name, Map}

-- The error numbers of errno.h that the source names.
pub data Errno : Type 0 where
  enoent enotdir eisdir einval eexist enospc enomem enotempty eacces erange enodata e2big eio :
      Errno

-- An `int` that holds zero, an error number or a negated error number.
pub data Code : Type 0 where
  success : Code
  plus minus : Errno → Code

abbrev pub negate : Code → Code
negate success = success
negate (plus e) = minus e
negate (minus e) = plus e

-- `struct stat`, the fields that the source uses. Times are opaque numbers.
pub record Stat : Type 0 where
  pub st_dev : ℕ
  pub st_ino : ℕ
  pub st_mode : ℕ
  pub st_nlink : ℕ
  pub st_uid : ℕ
  pub st_gid : ℕ
  pub st_size : ℕ
  pub st_blksize : ℕ
  pub st_blocks : ℕ
  pub st_atim : ℕ
  pub st_mtim : ℕ
  pub st_ctim : ℕ

-- `struct fuse_entry_param`; the timeouts are in whole seconds.
pub record EntryParam : Type 0 where
  pub ino : ℕ
  pub generation : ℕ
  pub attr : Stat
  pub attr_timeout : ℕ
  pub entry_timeout : ℕ

pub data SpecialInodeTypes : Type 0 where
  type_no_block char_dev block_dev fifo sock : SpecialInodeTypes

-- The classes derived from `Inode`, with the members of each. A null `m_buf` is the empty list.
pub data Kind : Type 0 where
  file : List ℕ → Kind
  directory : Map ℕ → Kind
  symlink : Name → Kind
  special : SpecialInodeTypes → Kind

pub record Inode : Type 0 where
  pub nlookup : ℕ
  pub entry_param : EntryParam
  pub xattr : Map (List ℕ)
  pub kind : Kind

-- `struct statvfs`.
pub record Statvfs : Type 0 where
  pub f_bsize : ℕ
  pub f_frsize : ℕ
  pub f_blocks : ℕ
  pub f_bfree : ℕ
  pub f_bavail : ℕ
  pub f_files : ℕ
  pub f_ffree : ℕ
  pub f_favail : ℕ
  pub f_fsid : ℕ
  pub f_flag : ℕ
  pub f_namemax : ℕ

-- `Directory::ReadDirCtx`, with the copy of the children in two parts: `sent` are those before the
-- iterator, the nearest first, and `pending` those from it on.
pub record ReadDirCtx : Type 0 where
  pub cookie : ℕ
  pub sent : Map ℕ
  pub pending : Map ℕ

-- The static members: `Inodes`, `DeletedInodes`, `m_stbuf` and `readdirStates`.
pub record Fs : Type 0 where
  pub inodes : List (Option Inode)
  pub deleted : List ℕ
  pub stbuf : Statvfs
  pub readdir_states : List (ℕ × ReadDirCtx)

-- What a handler sends back, one constructor for each `fuse_reply_*` that the source calls.
pub data Reply : Type 0 where
  reply_err : Code → Reply
  reply_none : Reply
  reply_entry : EntryParam → Reply
  reply_create : EntryParam → Reply
  reply_attr : Stat → Reply
  reply_open : Reply
  reply_write : ℕ → Reply
  reply_buf : List ℕ → Reply
  reply_readlink : Name → Reply
  reply_statfs : Statvfs → Reply
  reply_xattr : ℕ → Reply

-- A step that may fault: `none` is a failed `assert`, a null or dangling pointer that is followed,
-- or an access outside of a buffer.
abbrev pub M : Type 0 → Type 0
M A = Fs → Option (A × Fs)

infixl 5 ◌>>=◌ ◌>>◌
abbrev pub ◌>>=◌ : {A B : Type 0} → M A → (A → M B) → M B
◌>>=◌ m f fs = elim (m fs) [ none ↦ none | some (a, fs') ↦ f a fs' ]

abbrev pub ◌>>◌ : {A B : Type 0} → M A → M B → M B
m >> k = m >>= λ _. k

abbrev pub pure : {A : Type 0} → A → M A
pure a fs = some (a, fs)

abbrev pub fault : {A : Type 0} → M A
fault fs = none

abbrev pub modify : (Fs → Fs) → M (Unit {0})
modify f fs = some (tt, f fs)

-- A handler of the FUSE operations, with the replies that it sends in their order.
abbrev pub Handler : Type 0
Handler = M (List Reply)

abbrev pub reply : Reply → Handler
reply r = pure (r ∷ [])

abbrev pub error : Errno → Handler
error e = reply (reply_err (plus e))

-- What the environment gives to one call: `clock_gettime`, the user and group of `fuse_req_ctx` (of
-- the process, for the start), `realloc`, whether `new` and `malloc` find memory, and the values that
-- `rand` gives in turn. `dirent` is what `fuse_add_direntry` makes of a name, its attributes and an
-- offset: the bytes of the entry.
pub record Env : Type 0 where
  pub now : ℕ
  pub uid : ℕ
  pub gid : ℕ
  pub realloc : List ℕ → ℕ → Option (List ℕ)
  pub new_ok : Bool
  pub malloc_ok : Bool
  pub rand : List ℕ
  pub dirent : Name → Stat → ℕ → List ℕ

-- The sizes that the compiler gives for `sizeof`.
pub record Abi : Type 0 where
  pub sizeof_children : ℕ
  pub sizeof_tree_node : ℕ
  pub sizeof_ino : ℕ
  pub sizeof_string : ℕ

-- A step that is known goes before the rest.
pub >>=-some :
    {A B : Type 0} (m : M A) (f : A → M B) (fs : Fs) {a : A} {gs : Fs}
    → m fs ≡ some (a, gs)
    → (m >>= f) fs ≡ f a gs
>>=-some m f fs e = rw (e, ◌>>=◌)
