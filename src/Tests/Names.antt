-- ===== src/Tests/Names.antt =====
-- The theorems on the names of a directory at inputs that meet their hypotheses.
use fuse_cpp_ramfs.Base.{
  ℕ, ◌+◌, ◌^◌, ◌<◌, ◌≡◌, ◌≢◌, ◌⊎◌, refl, true, false, none, some, List, [], ◌∷◌, arith, lookup,
  insert, erase, Map, name_eq, name_lt, add64, sub64,
}
use fuse_cpp_ramfs.State.{
  Inode, Fs, reply_err, reply_none, reply_entry, success, plus, minus, enoent, Code, special,
  type_no_block, directory,
}
use fuse_cpp_ramfs.Table.{get_inode, slot}
use fuse_cpp_ramfs.Space.{size, check_has_space_for, get_nblocks}
use fuse_cpp_ramfs.Attr.{with_attr, with_kind, new_inode, add_hard_link, remove_hard_link}
use fuse_cpp_ramfs.Directory.{dot, dot_dot, elem_size, is_live, update_child}
use fuse_cpp_ramfs.Directory.Size.{DirectoryAt, entries_size}
use fuse_cpp_ramfs.Directory.Update.{Updated, update_child-Updated}
use fuse_cpp_ramfs.Directory.View.{DirOp, add, update, remove, Run, view, run_ops, growth}
use fuse_cpp_ramfs.Directory.View.Refines.{run_ops-Run}
use fuse_cpp_ramfs.Handlers.Create.{fuse_mknod}
use fuse_cpp_ramfs.Handlers.Remove.{fuse_unlink}
use fuse_cpp_ramfs.Handlers.Attributes.{fuse_lookup}
use fuse_cpp_ramfs.Handlers.Names.Unlink.{fuse_unlink-fuse_lookup}
use fuse_cpp_ramfs.Handlers.Remove.{fuse_forget}
use fuse_cpp_ramfs.Handlers.Rename.{fuse_rename, fuse_link}
use fuse_cpp_ramfs.Handlers.Names.Link.{fuse_link-fuse_lookup}
use fuse_cpp_ramfs.Handlers.Names.Forget.{Reclaimed, fuse_unlink-fuse_forget}
use fuse_cpp_ramfs.Handlers.Names.Rename.{extended, Renamed, fuse_rename-fuse_lookup}
use fuse_cpp_ramfs.Handlers.Names.Replace.{fuse_rename-replaces}
use fuse_cpp_ramfs.Handlers.Names.Made.{Made, fuse_mknod-fuse_lookup}
use fuse_cpp_ramfs.Tests.Setup.{abi, env, sample, sub, doc, entries, a_file, a_directory}
use fuse_cpp_ramfs.Tests.Samples.{sample-DirectoryAt, sample-IsTable, sub_fits}

update_child-Updated_example :
    let r = update_child 1 doc 1 sample in
    ((lookup doc entries ≡ none) × (r ≡ some (minus enoent, sample)))
    ⊎ ((lookup doc entries ≢ none)
        × Updated abi sample 1 a_directory entries sample-DirectoryAt doc 1 r)
update_child-Updated_example =
    update_child-Updated abi sample 1 a_directory entries sample-DirectoryAt doc 1

abbrev operations : List DirOp
operations = add sub 2 ∷ add sub 1 ∷ update doc 1 ∷ remove doc ∷ remove doc ∷ []

operations_fit : size a_directory + growth abi operations < 2 ^ 62
unfolding growth elem_size
operations_fit = omega arith

run_ops-Run_example :
    (cs : List Code) × (fs' : Fs) × (i' : Inode) × (ch' : Map ℕ) × (run_ops abi 1 operations sample
      ≡ some (cs, fs'))
    × DirectoryAt abi fs' 1 i' ch'
    × Run (view entries) operations cs (view ch')
    × ((j : ℕ) → 1 ≢ j → get_inode j fs' ≡ get_inode j sample)
run_ops-Run_example =
    run_ops-Run abi 1 operations sample a_directory entries sample-DirectoryAt operations_fit
      (omega arith)

doc_there : lookup doc entries ≡ some 2
unfolding lookup name_eq
doc_there = refl

sub_free : lookup sub entries ≡ none
unfolding lookup name_eq
sub_free = refl

file_there : get_inode 2 sample ≡ some a_file
unfolding get_inode slot
file_there = refl

zeroth_there : get_inode 0 sample ≡ some (new_inode (special type_no_block))
unfolding get_inode slot
zeroth_there = refl

sub_space : check_has_space_for (some a_directory) (elem_size abi sub) sample ≡ true
unfolding check_has_space_for get_nblocks add64 sub64 elem_size
sub_space = refl

fuse_unlink-fuse_lookup_example :
    (fs' : Fs) × (p' : Inode) × (fuse_unlink abi 1 doc sample ≡ some (reply_err success ∷ [], fs'))
    × DirectoryAt abi fs' 1 p' (erase doc entries)
    × (get_inode 2 fs' ≡ some (remove_hard_link a_file))
    × ((j : ℕ) → 1 ≢ j → 2 ≢ j → get_inode j fs' ≡ get_inode j sample)
    × (fuse_lookup 1 doc fs' ≡ some (reply_err (plus enoent) ∷ [], fs'))
fuse_unlink-fuse_lookup_example =
    fuse_unlink-fuse_lookup abi sample 1 a_directory entries doc 2 a_file sample-DirectoryAt refl
      doc_there (omega arith) (omega arith) file_there

fuse_mknod-fuse_lookup_example :
    (ino : ℕ) × (fs' fs'' : Fs) × (p' i : Inode) × (fuse_mknod abi env 1 sub 0o100644 0 sample
      ≡ some (reply_entry i.entry_param ∷ [], fs'))
    × Made abi env sample 1 a_directory entries sub 0o100644 0 fs' ino i
    × DirectoryAt abi fs' 1 p' (insert sub ino entries)
    × ((j : ℕ) → 1 ≢ j → ino ≢ j → get_inode j fs' ≡ get_inode j sample)
    × (fuse_lookup 1 sub fs' ≡ some (reply_entry i.entry_param ∷ [], fs''))
fuse_mknod-fuse_lookup_example =
    fuse_mknod-fuse_lookup abi env sample 1 a_directory entries sub 0o100644 0
      (new_inode (special type_no_block)) sample-IsTable zeroth_there sample-DirectoryAt refl refl
      refl refl sub_free sub_fits (omega arith) sub_space

fuse_unlink-fuse_forget_example :
    (fs' fs'' : Fs) × (p' : Inode) × (fuse_unlink abi 1 doc sample
      ≡ some (reply_err success ∷ [], fs'))
    × (fuse_forget 2 0 fs' ≡ some (reply_none ∷ [], fs''))
    × DirectoryAt abi fs'' 1 p' (erase doc entries)
    × Reclaimed fs' 2 1 fs''
    × ((j : ℕ) → 1 ≢ j → 2 ≢ j → get_inode j fs'' ≡ get_inode j sample)
fuse_unlink-fuse_forget_example =
    fuse_unlink-fuse_forget abi sample 1 a_directory entries doc 2 a_file sample-DirectoryAt refl
      doc_there (omega arith) (omega arith) file_there refl

zeroth_dead : is_live (get_inode 0 sample) ≡ false
unfolding get_inode slot
zeroth_dead = refl

fuse_rename-fuse_lookup_example :
    (fs' : Fs) × (p' : Inode) × (fuse_rename abi 1 doc 1 sub sample
      ≡ some (reply_err success ∷ [], fs'))
    × DirectoryAt abi fs' 1 p' (
        erase doc (
          extended abi sample 1 a_directory entries doc sub 2 a_file
            (check_has_space_for (some a_directory) (elem_size abi sub) sample)))
    × ((j : ℕ) → 1 ≢ j → get_inode j fs' ≡ get_inode j sample)
    × (fuse_lookup 1 doc fs' ≡ some (reply_err (plus enoent) ∷ [], fs'))
    × Renamed abi sample 1 a_directory entries doc sub 2 a_file
        (check_has_space_for (some a_directory) (elem_size abi sub) sample)
        fs'
fuse_rename-fuse_lookup_example =
    fuse_rename-fuse_lookup abi sample 1 a_directory entries doc sub 2 a_file sample-DirectoryAt
      refl doc_there (omega arith) (omega arith) file_there refl refl sub_free zeroth_dead sub_fits
      (omega arith)

fuse_link-fuse_lookup_example :
    (fs' fs'' : Fs) × (p' : Inode) × (fuse_link abi 2 1 sub sample
      ≡ some (reply_entry p'.entry_param ∷ [], fs'))
    × DirectoryAt abi fs' 1 p' (insert sub 2 entries)
    × (get_inode 2 fs' ≡ some (add_hard_link a_file))
    × ((j : ℕ) → 1 ≢ j → 2 ≢ j → get_inode j fs' ≡ get_inode j sample)
    × (fuse_lookup 1 sub fs' ≡ some (reply_entry (add_hard_link a_file).entry_param ∷ [], fs''))
fuse_link-fuse_lookup_example =
    fuse_link-fuse_lookup abi sample 1 a_directory entries sub 2 a_file sample-DirectoryAt refl
      file_there refl (omega arith) (omega arith) (omega arith) sub_free sub_fits (omega arith)
      sub_space

-- The directory with a second file.
abbrev two_names : Map ℕ
two_names = (dot, 1) ∷ (dot_dot, 1) ∷ (doc, 2) ∷ (sub, 3) ∷ []

abbrev two_directory : Inode
two_directory =
    with_attr (λ a. record a { st_size = 341 }) (with_kind (directory two_names) a_directory)

abbrev other_file : Inode
other_file = with_attr (λ a. record a { st_ino = 3 }) a_file

abbrev two_files : Fs
two_files = record sample {
  inodes =
      some (new_inode (special type_no_block))
      ∷ some two_directory
      ∷ some a_file
      ∷ some other_file
      ∷ [];
}

two_files-DirectoryAt : DirectoryAt abi two_files 1 two_directory two_names
unfolding get_inode slot entries_size elem_size name_lt
two_files-DirectoryAt = record {
  found = refl;
  is_directory = refl;
  layout = record {
    is_map = ((refl, (refl, (refl, tt))), ((refl, (refl, tt)), ((refl, tt), (tt, tt))));
    sized = refl;
    blocked = refl;
    small = omega arith;
  };
}

fuse_rename-replaces_example :
    (fs' fs'' : Fs) × (p' : Inode) × (fuse_rename abi 1 doc 1 sub two_files
      ≡ some (reply_err success ∷ [], fs'))
    × DirectoryAt abi fs' 1 p' (erase doc (insert sub 2 two_names))
    × (get_inode 3 fs' ≡ some (remove_hard_link other_file))
    × ((j : ℕ) → 1 ≢ j → 3 ≢ j → get_inode j fs' ≡ get_inode j two_files)
    × (fuse_lookup 1 doc fs' ≡ some (reply_err (plus enoent) ∷ [], fs'))
    × (fuse_lookup 1 sub fs' ≡ some (reply_entry a_file.entry_param ∷ [], fs''))
unfolding lookup name_eq get_inode slot
fuse_rename-replaces_example =
    fuse_rename-replaces abi two_files 1 two_directory two_names doc sub 2 3 a_file other_file
      two_files-DirectoryAt refl refl (omega arith) (omega arith) refl refl refl refl (omega arith)
      (omega arith) refl refl refl
