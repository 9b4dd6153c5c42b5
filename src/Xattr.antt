-- ===== src/Xattr.antt =====
-- The extended attributes of an inode: `SetXAttrAndReply`, `GetXAttrAndReply`, `ListXAttrAndReply`
-- and `RemoveXAttrAndReply` of src/inode.cpp, as built on Linux. A value is the list of its bytes;
-- its `second` is the length of the list.
pub mod Laws
pub mod Listing
pub mod Removal
use fuse_cpp_ramfs.Base.{
  ℕ, ◌+◌, Option, none, some, List, [], ◌∷◌, ◌++◌, length, take, drop, ltb, ◌==◌, if◌then◌else◌,
  add64, Name, Map, lookup, insert, erase,
}
use fuse_cpp_ramfs.State.{
  eexist, enodata, e2big, erange, eio, success, plus, Inode, Reply, reply_err, reply_buf,
  reply_xattr, Env,
}
use fuse_cpp_ramfs.Attr.{has_bit}
use fuse_cpp_ramfs.Memory.{splice}

abbrev pub with_xattr : Map (List ℕ) → Inode → Inode
with_xattr m i = record i { xattr = m }

-- `m_xattr[name]`: an entry that is not there is made with no bytes.
abbrev pub value_of : Name → Inode → List ℕ
value_of name i = elim (lookup name i.xattr) [ none ↦ [] | some v ↦ v ]

-- The flags `XATTR_CREATE` and `XATTR_REPLACE` are the bits 0 and 1. A null result is a fault of the
-- copy, past the end of the value.
unfoldable pub refused : Name → ℕ → Inode → Option Reply
unfolding lookup
refused name flags i = elim (lookup name i.xattr) [
  | none ↦ if has_bit flags 0 then some (reply_err (plus eexist)) else none
  | some v ↦ if has_bit flags 1 then some (reply_err (plus enodata)) else none
]

-- The copy of the value into the buffer of the attribute.
unfoldable pub copy_value : Name → List ℕ → ℕ → List ℕ → Inode → Option (Inode × Reply)
unfolding splice insert
copy_value name value position buf i = elim (splice position value buf) [
  | none ↦ none
  | some buf' ↦ some (with_xattr (insert name buf' i.xattr) i, reply_err success)
]

unfoldable pub set_xattr : Env → Name → List ℕ → ℕ → ℕ → Inode → Option (Inode × Reply)
unfolding refused copy_value add64
set_xattr env name value flags position i = elim (refused name flags i) [
  | some r ↦ some (i, r)
  | none ↦
      let old = value_of name i in
      let new_extent = add64 (length value) position in
      if ltb (length old) new_extent
      then (elim (env.realloc old new_extent) [
        | none ↦ some (with_xattr (insert name old i.xattr) i, reply_err (plus e2big))
        | some buf ↦ copy_value name value position buf i
      ])
      else copy_value name value position old i
]

unfoldable pub get_xattr : Name → ℕ → ℕ → Inode → Reply
unfolding lookup add64
get_xattr name size position i = elim (lookup name i.xattr) [
  | none ↦ reply_err (plus enodata)
  | some v ↦
      if size == 0
      then reply_xattr (length v)
      else if ltb (length v) (add64 size position)
      then reply_err (plus erange)
      else reply_buf (take size (drop position v))
]

-- The names, each with its terminating zero.
unfoldable pub list_size : Map (List ℕ) → ℕ
list_size [] = 0
list_size ((name, v) ∷ m) = (length name + 1) + list_size m

unfoldable pub list_bytes : Map (List ℕ) → List ℕ
list_bytes [] = []
list_bytes ((name, v) ∷ m) = name ++ 0 ∷ list_bytes m

unfoldable pub list_xattr : Env → ℕ → Inode → Reply
unfolding list_size list_bytes
list_xattr env size i =
    if size == 0
    then reply_xattr (list_size i.xattr)
    else if ltb size (list_size i.xattr)
    then reply_err (plus erange)
    else if env.malloc_ok
    then reply_buf (list_bytes i.xattr)
    else reply_err (plus eio)

unfoldable pub remove_xattr : Name → Inode → Inode × Reply
unfolding lookup erase
remove_xattr name i = elim (lookup name i.xattr) [
  | none ↦ (i, reply_err (plus enodata))
  | some v ↦ (with_xattr (erase name i.xattr) i, reply_err success)
]
