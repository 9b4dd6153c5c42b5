-- ===== src/Xattr/Listing.antt =====
-- The list of the names of the extended attributes: `ListXAttrAndReply` of src/inode.cpp.
use fuse_cpp_ramfs.Base.{◌++◌, ap, pieces, pieces-append, Without}
use fuse_cpp_ramfs.Base.{
  ℕ, ◌<◌, ◌≡◌, ◌∙◌, refl, true, List, [], ◌∷◌, length, ltb, ◌==◌, if◌then◌else◌, arith, Name, Map,
  length-append,
}
use fuse_cpp_ramfs.State.{erange, plus, Inode, reply_err, reply_buf, reply_xattr, Env}
use fuse_cpp_ramfs.Xattr.{list_size, list_bytes, list_xattr}

length-list_bytes : (m : Map (List ℕ)) → length (list_bytes m) ≡ list_size m
unfolding list_bytes list_size
length-list_bytes [] = refl
length-list_bytes ((name, v) ∷ m) =
    omega (arith, length-append name (0 ∷ list_bytes m), length-list_bytes m)

-- The names of the entries, in their order.
abbrev pub keys : Map (List ℕ) → List Name
keys [] = []
keys ((name, v) ∷ m) = name ∷ keys m

-- The names are C strings: no zero stands in them.
abbrev pub Zeroless : List Name → Type 0
Zeroless [] = Unit
Zeroless (name ∷ names) = Without 0 name × Zeroless names

-- The bytes split at their zeros, where nothing stands behind the last one.
pieces-list_bytes :
    (m : Map (List ℕ)) → Zeroless (keys m) → pieces 0 (list_bytes m) ≡ keys m ++ [] ∷ []
unfolding pieces list_bytes
pieces-list_bytes [] z = refl
pieces-list_bytes ((name, v) ∷ m) z =
    pieces-append 0 name (list_bytes m) z.0 ∙ ap (◌∷◌ name) (pieces-list_bytes m z.1)

-- Where memory is found, there is an attribute and no name holds a zero, a list of the size that a
-- call with size zero has sent is answered with bytes that fill that size, and that split at their
-- zeros into the names of all attributes in their order, with nothing behind the last zero.
pub list_xattr-list_xattr :
    (env : Env) (i : Inode) (n : ℕ)
    → env.malloc_ok ≡ true
    → 0 < n
    → Zeroless (keys i.xattr)
    → list_xattr env 0 i ≡ reply_xattr n
    → (bytes : List ℕ) × (list_xattr env n i ≡ reply_buf bytes)
      × (length bytes ≡ n)
      × (pieces 0 bytes ≡ keys i.xattr ++ [] ∷ [])
unfolding list_xattr
list_xattr-list_xattr env i n m h z e = rw (← sized) (
  list_bytes i.xattr,
  rw (m, list_xattr) (sends (list_size i.xattr) (omega (arith, h, sized))),
  length-list_bytes i.xattr,
  pieces-list_bytes i.xattr z,
)
  where
    sized : list_size i.xattr ≡ n
    sized = cc

    sends :
        (k : ℕ)
        → 0 < k
        → (if k == 0
            then reply_xattr k
            else if ltb k k
            then reply_err (plus erange)
            else reply_buf (list_bytes i.xattr))
          ≡ reply_buf (list_bytes i.xattr)
    sends k p = ground arith
