-- ===== src/Directory/View/Refines.antt =====
-- The methods of a well-formed directory of src/directory.cpp are those of a finite map.
use fuse_cpp_ramfs.Base.{
  ℕ, ◌+◌, ◌^◌, ◌≤◌, ◌<◌, ◌≡◌, ◌≢◌, ◌∙◌, refl, sym, ap, Option, none, some, List, [], ◌∷◌, inl, inr,
  Bool-cases, arith, Name, Map, lookup, insert, erase, name_eq, name_eq_iff, lookup-insert,
  lookup-erase_ne, lookup-erase_self, word_mod, sub64-lt,
}
use mathlib.Core.Path.{fun_ext, subst}
use fuse_cpp_ramfs.State.{
  Inode, Fs, ◌>>=◌, pure, Abi, Code, success, minus, enoent, eexist, enospc, >>=-some,
}
use fuse_cpp_ramfs.Table.{get_inode, change_inode, delete_inode}
use fuse_cpp_ramfs.Space.{size, update_used_blocks, update_used_inodes}
use fuse_cpp_ramfs.Directory.Size.{DirectoryAt, entries_size-insert, entries_size-erase}
use fuse_cpp_ramfs.Directory.Entries.{add_child-Added, remove_child-Removed}
use fuse_cpp_ramfs.Directory.Update.{entries_size-update, update_child-Updated}
use fuse_cpp_ramfs.Keeps.{Keeps, Frame}
use fuse_cpp_ramfs.Keeps.Directory.{add_child-Keeps, update_child-Keeps, remove_child-Keeps}
use fuse_cpp_ramfs.Directory.View.{
  view, assign, DirOp, add, update, remove, Step, added, exists, no_space, updated, not_there,
  removed, missing, Run, finished, step, run_op, run_ops, growth_of, growth,
}

view-insert :
    (name : Name) (ino : ℕ) (ch : Map ℕ)
    → assign name (some ino) (view ch) ≡ view (insert name ino ch)
view-insert name ino ch = fun_ext λ k. sym (lookup-insert name k ino ch)

view-erase :
    (name : Name) (i : Inode) (abi : Abi) (fs : Fs) (this : ℕ) (ch : Map ℕ)
    → DirectoryAt abi fs this i ch
    → assign name none (view ch) ≡ view (erase name ch)
view-erase name i abi fs this ch at = fun_ext λ k. elim (Bool-cases (name_eq k name)) [
  | inl e ↦ rw e (
      sym (
        ap (λ n. lookup n (erase name ch)) ((name_eq_iff k name).0 e)
        ∙ lookup-erase_self name ch at.layout.is_map))
  | inr e ↦ rw e (sym (lookup-erase_ne name k ch e))
]

found_of : (o : Option ℕ) → o ≢ none → (n : ℕ) × (o ≡ some n)
found_of none h = absurd (h refl)
found_of (some n) h = (n, refl)

module _ (abi : Abi) (fs : Fs) (this : ℕ) (i : Inode) (ch : Map ℕ) where
  -- An operation has done a step, and the directory stays well formed.
  abbrev Stepped : DirOp → Option (Code × Fs) → Type 0
  Stepped op r =
      (c : Code) × (fs' : Fs) × (i' : Inode) × (ch' : Map ℕ) × (r ≡ some (c, fs'))
      × DirectoryAt abi fs' this i' ch'
      × Step (view ch) op c (view ch')
      × (size i' ≤ size i + growth_of abi op)
      × ((j : ℕ) → this ≢ j → get_inode j fs' ≡ get_inode j fs)

  run_op-Stepped :
      (op : DirOp)
      → DirectoryAt abi fs this i ch
      → size i + growth_of abi op < 2 ^ 62
      → fs.stbuf.f_bfree < word_mod
      → Stepped op (run_op abi this op fs)
  unfolding run_op
  run_op-Stepped (add name ino) at h w = elim (add_child-Added abi fs this i ch at name ino h w) [
    | inl (there, r) ↦
        (minus eexist, fs, i, ch, r, at, exists name ino there, omega arith, λ j ne. refl)
    | inr rest ↦ elim rest [
      | inl (free, full, r) ↦
          (minus enospc, fs, i, ch, r, at, no_space name ino free, omega arith, λ j ne. refl)
      | inr (free, room, (fs', i', r, at', account, others, same)) ↦ (
        success,
        fs',
        i',
        insert name ino ch,
        r,
        at',
        subst (Step (view ch) (add name ino) success) (view-insert name ino ch)
            (added name ino free),
        omega (arith, at'.layout.sized, at.layout.sized, entries_size-insert abi name ino ch free),
        others,
      )
    ]
  ]
  run_op-Stepped (update name ino) at h w =
      elim (update_child-Updated abi fs this i ch at name ino) [
        | inl (free, r) ↦
            (minus enoent, fs, i, ch, r, at, not_there name ino free, omega arith, λ j ne. refl)
        | inr (there, (fs', i', r, at', others, same)) ↦
            let (old, e) = found_of (lookup name ch) there in
            (
              success,
              fs',
              i',
              insert name ino ch,
              r,
              at',
              subst (Step (view ch) (update name ino) success) (view-insert name ino ch)
                  (updated name ino there),
              omega (
                arith,
                at'.layout.sized,
                at.layout.sized,
                entries_size-update abi name ino old ch e at.layout.is_map,
              ),
              others,
            )
      ]
  run_op-Stepped (remove name) at h w = elim (remove_child-Removed abi fs this i ch at name) [
    | inl (free, r) ↦ (minus enoent, fs, i, ch, r, at, missing name free, omega arith, λ j ne. refl)
    | inr (there, (fs', i', r, at', others, same)) ↦
        let (old, e) = found_of (lookup name ch) there in
        (
          success,
          fs',
          i',
          erase name ch,
          r,
          at',
          subst (Step (view ch) (remove name) success) (view-erase name i abi fs this ch at)
              (removed name there),
          omega (arith, at'.layout.sized, at.layout.sized, entries_size-erase abi name old ch e),
          others,
        )
  ]

-- The free blocks stay in a word.
abbrev FitsWord : Fs → Type 0
FitsWord fs = fs.stbuf.f_bfree < word_mod

FitsWord-Frame : Frame FitsWord
unfolding change_inode delete_inode update_used_blocks update_used_inodes
FitsWord-Frame = record {
  keep_attr = λ ino f fs _ h. h;
  keep_blocks = λ ino f fs i _ h. sub64-lt _ _;
  keep_contexts = λ m fs _ h. h;
  keep_delete = λ ino fs i _ h. sub64-lt _ _;
}

run_op-FitsWord : (abi : Abi) (this : ℕ) (op : DirOp) → Keeps FitsWord (run_op abi this op)
unfolding run_op
run_op-FitsWord abi this (add name ino) = add_child-Keeps FitsWord FitsWord-Frame abi this name ino
run_op-FitsWord abi this (update name ino) =
    update_child-Keeps FitsWord FitsWord-Frame this name ino
run_op-FitsWord abi this (remove name) = remove_child-Keeps FitsWord FitsWord-Frame abi this name

-- On a well-formed directory, with the free blocks in a word and a size that stays below 2^62 where
-- all additions are made, any sequence of `AddChild`, `UpdateChild` and `RemoveChild` runs without a
-- fault, does what a finite map from names to numbers does, with the codes that they return, leaves
-- the directory well formed, and changes no other inode.
pub run_ops-Run :
    (abi : Abi) (this : ℕ) (ops : List DirOp) (fs : Fs) (i : Inode) (ch : Map ℕ)
    → DirectoryAt abi fs this i ch
    → size i + growth abi ops < 2 ^ 62
    → fs.stbuf.f_bfree < word_mod
    → (cs : List Code) × (fs' : Fs) × (i' : Inode) × (ch' : Map ℕ) × (run_ops abi this ops fs
        ≡ some (cs, fs'))
      × DirectoryAt abi fs' this i' ch'
      × Run (view ch) ops cs (view ch')
      × ((j : ℕ) → this ≢ j → get_inode j fs' ≡ get_inode j fs)
unfolding run_ops growth
run_ops-Run abi this [] fs i ch at h w = ([], fs, i, ch, refl, at, finished, λ j ne. refl)
run_ops-Run abi this (op ∷ ops) fs i ch at h w =
    let (c, fs1, i1, ch1, r1, at1, s1, grows, others1) =
      run_op-Stepped abi fs this i ch op at (omega arith) w in
    let w1 : FitsWord fs1 = rw r1 at (run_op-FitsWord abi this op fs w) in
    let (cs, fs2, i2, ch2, r2, at2, s2, others2) =
      run_ops-Run abi this ops fs1 i1 ch1 at1 (omega arith) w1 in
    (
      c ∷ cs,
      fs2,
      i2,
      ch2,
      >>=-some (run_op abi this op) (λ d. run_ops abi this ops >>= λ ds. pure (d ∷ ds)) fs r1
          ∙ >>=-some (run_ops abi this ops) (λ ds. pure (c ∷ ds)) fs1 r2,
      at2,
      step s1 s2,
      λ j ne. others2 j ne ∙ others1 j ne,
    )
