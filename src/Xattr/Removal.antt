-- ===== src/Xattr/Removal.antt =====
-- The removal of an extended attribute: `RemoveXAttrAndReply` of src/inode.cpp.
use fuse_cpp_ramfs.Base.{
  ℕ, ◌≡◌, ◌≢◌, ◌⊎◌, refl, false, none, inl, inr, Option-cases, Name, lookup, erase, name_eq,
  lookup-erase_ne, lookup-erase_self, IsMap,
}
use fuse_cpp_ramfs.State.{enodata, success, plus, Inode, reply_err}
use fuse_cpp_ramfs.Xattr.{with_xattr, get_xattr, remove_xattr}

-- For attributes whose names are in order, a name that is not there is refused with `ENODATA` and
-- no change. Any other is removed: whatever size and position a call asks for the value with, it is
-- answered with `ENODATA`, and no other attribute has changed.
pub remove_xattr-get_xattr :
    (name : Name) (i : Inode)
    → IsMap i.xattr
    → ((lookup name i.xattr ≡ none) × (remove_xattr name i ≡ (i, reply_err (plus enodata))))
      ⊎ ((lookup name i.xattr ≢ none)
          × (i' : Inode) × (remove_xattr name i ≡ (i', reply_err success))
          × ((size position : ℕ) → get_xattr name size position i' ≡ reply_err (plus enodata))
          × ((other : Name)
              → name_eq other name ≡ false
              → lookup other i'.xattr ≡ lookup other i.xattr))
unfolding remove_xattr get_xattr
remove_xattr-get_xattr name i m = elim (Option-cases (lookup name i.xattr)) [
  | inl e ↦ inl (e, rw (e, remove_xattr) refl)
  | inr (v, e) ↦ inr (
    λ z. cc,
    with_xattr (erase name i.xattr) i,
    rw (e, remove_xattr) refl,
    λ size position. rw (lookup-erase_self name i.xattr m, get_xattr) refl,
    λ other ne. lookup-erase_ne name other i.xattr ne,
  )
]
