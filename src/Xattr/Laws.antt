-- ===== src/Xattr/Laws.antt =====
-- Setting and reading the extended attributes of src/inode.cpp.
use fuse_cpp_ramfs.Base.{
  ℕ, ◌^◌, ◌≤◌, ◌<◌, ◌≡◌, ◌≢◌, ◌∙◌, ◌⊎◌, refl, true, false, Option, none, some, List, length, take,
  drop, ltb, inl, inr, Bool-cases, Option-cases, arith, add64, Name, Map, lookup, insert,
  name_eq_refl, name_eq, lookup-insert, take-length,
}
use fuse_cpp_ramfs.Base.{add64_exact}
use fuse_cpp_ramfs.State.{
  eexist, enodata, e2big, success, plus, Inode, Reply, reply_err, reply_buf, Env,
}
use fuse_cpp_ramfs.Attr.{has_bit}
use fuse_cpp_ramfs.Memory.{spliced, splice-spliced, length-spliced, take-drop-spliced}
use fuse_cpp_ramfs.File.Layout.{Reallocs}
use fuse_cpp_ramfs.Xattr.{with_xattr, value_of, refused, copy_value, set_xattr, get_xattr}

-- The attribute has the bytes, and no other attribute has changed.
abbrev pub Sets : Name → List ℕ → Inode → Option (Inode × Reply) → Type 0
Sets name value i r =
    (i' : Inode) × (r ≡ some (i', reply_err success))
    × (get_xattr name (length value) 0 i' ≡ reply_buf value)
    × ((other : Name) → name_eq other name ≡ false → lookup other i'.xattr ≡ lookup other i.xattr)

get_xattr-found :
    (name : Name) (v : List ℕ) (n : ℕ) (i : Inode)
    → lookup name i.xattr ≡ some v
    → 0 < n
    → n < 2 ^ 62
    → n ≤ length v
    → get_xattr name n 0 i ≡ reply_buf (take n (drop 0 v))
unfolding get_xattr add64
get_xattr-found name v n i e p s h = rw (e, get_xattr) (ground arith)

set_name : (name : Name) (v : List ℕ) (m : Map (List ℕ)) → lookup name (insert name v m) ≡ some v
set_name name v m = lookup-insert name name v m ∙ rw (name_eq_refl name)

copy_value-Sets :
    (name : Name) (value buf : List ℕ) (i : Inode)
    → 0 < length value
    → length value < 2 ^ 62
    → length value ≤ length buf
    → Sets name value i (copy_value name value 0 buf i)
unfolding copy_value get_xattr
copy_value-Sets name value buf i p s h =
    rw (splice-spliced 0 value buf (omega arith), copy_value)
      (
        with_xattr (insert name (spliced 0 value buf) i.xattr) i,
        refl,
        get_xattr-found name (spliced 0 value buf) (length value)
              (with_xattr (insert name (spliced 0 value buf) i.xattr) i)
              (set_name name (spliced 0 value buf) i.xattr) p s
              (omega (arith, length-spliced 0 value buf (omega arith)))
            ∙ rw (take-drop-spliced (length value) 0 value buf (omega arith) (omega arith))
                (rw (take-length value)),
        λ other e. lookup-insert name other (spliced 0 value buf) i.xattr ∙ rw e,
      )

module _ (env : Env) (name : Name) (value : List ℕ) (flags : ℕ) (i : Inode) where
  -- The flags allow the change: no flag to create for a name that is not there, and none to replace
  -- for one that is.
  abbrev pub Allowed : Type 0
  Allowed =
      ((lookup name i.xattr ≡ none) × (has_bit flags 0 ≡ false))
      ⊎ ((lookup name i.xattr ≢ none) × (has_bit flags 1 ≡ false))

  -- The value is longer than that of the attribute, and no memory is found for it.
  abbrev pub NoMemory : Type 0
  NoMemory =
      (length (value_of name i) < length value)
      × (env.realloc (value_of name i) (length value) ≡ none)

  abbrev pub Memory : Type 0
  Memory =
      (length value ≤ length (value_of name i))
      ⊎ (env.realloc (value_of name i) (length value) ≢ none)

  -- Refused by the flags, short of memory, or set, each with its condition.
  abbrev pub SetOutcome : Option (Inode × Reply) → Type 0
  SetOutcome r =
      ((lookup name i.xattr ≡ none)
        × (has_bit flags 0 ≡ true)
        × (r ≡ some (i, reply_err (plus eexist))))
      ⊎ ((lookup name i.xattr ≢ none)
          × (has_bit flags 1 ≡ true)
          × (r ≡ some (i, reply_err (plus enodata))))
      ⊎ (Allowed
          × NoMemory
          × (r
              ≡ some
                  (with_xattr (insert name (value_of name i) i.xattr) i, reply_err (plus e2big))))
      ⊎ (Allowed × Memory × Sets name value i r)

  accepted :
      0 < length value
      → length value < 2 ^ 62
      → Reallocs env
      → Allowed
      → refused name flags i ≡ none
      → SetOutcome (set_xattr env name value flags 0 i)
  unfolding set_xattr
  accepted p s m allowed e =
      rw (e, extent, set_xattr)
        (elim (Bool-cases (ltb (length old) (length value))) [
          | inl short ↦ rw short (elim (Option-cases (env.realloc old (length value))) [
            | inl r ↦ rw r (inr (inr (inl (allowed, (ground arith, refl), refl))))
            | inr (buf, r) ↦ rw r (
                inr (
                  inr (
                    inr (
                      allowed,
                      inr (λ z. cc),
                      copy_value-Sets name value buf i p s (omega (arith, m.sized _ _ _ r)),
                    ))))
          ])
          | inr long ↦ rw long (
              inr (
                inr (
                  inr (
                    allowed,
                    inl (ground arith),
                    copy_value-Sets name value old i p s (ground arith),
                  ))))
        ])
    where
      old : List ℕ
      old = value_of name i

      extent : add64 (length value) 0 ≡ length value
      extent = omega (arith, add64_exact (length value) 0 (omega arith))

  -- Setting a value of at least one byte and of fewer than 2^62, at the position 0 that the
  -- handler gives, with a `realloc` that keeps its promises, never faults. It is refused with
  -- `EEXIST` for a name that is not there exactly if the flag to create is set, and with `ENODATA`
  -- for a name that is there exactly if the flag to replace is set, both with no change. Where the
  -- flags allow it, it is refused with `E2BIG` exactly if the value is longer than that of the
  -- attribute and the memory is not found, where a name that is not there has been added with no
  -- bytes; otherwise the value is set: a read of its length sends it, and no other attribute has
  -- changed.
  pub set_xattr-SetOutcome :
      0 < length value
      → length value < 2 ^ 62
      → Reallocs env
      → SetOutcome (set_xattr env name value flags 0 i)
  unfolding set_xattr refused
  set_xattr-SetOutcome p s m = elim (Option-cases (lookup name i.xattr)) [
    | inl e ↦ elim (Bool-cases (has_bit flags 0)) [
      | inl c ↦ rw (e, set_xattr) (rw c (inl (refl, refl, refl)))
      | inr c ↦ accepted p s m (inl (e, c)) (rw (e, refused) (rw c))
    ]
    | inr (v, e) ↦ elim (Bool-cases (has_bit flags 1)) [
      | inl c ↦ rw (e, set_xattr) (rw c (inr (inl ((λ z. ground arith), refl, refl))))
      | inr c ↦ accepted p s m (inr ((λ z. cc), c)) (rw (e, refused) (rw c))
    ]
  ]
