-- ===== src/Tests/Witnesses.antt =====
-- The theorems at inputs that meet their hypotheses.
use fuse_cpp_ramfs.Base.{
  ℕ, ◌≡◌, refl, false, Option, none, some, List, [], ◌∷◌, length, take, arith,
}
use fuse_cpp_ramfs.Base.{◌-◌, min, ◌<◌, ◌+◌, ◌≢◌, ◌⊎◌, lookup, Name, name_eq}
use fuse_cpp_ramfs.Base.{add64, mul64, sub64}
use fuse_cpp_ramfs.Space.{get_nblocks}
use fuse_cpp_ramfs.Memory.{splice}
use fuse_cpp_ramfs.File.{file_write, file_write_to, store_bytes}
use fuse_cpp_ramfs.Handlers.Data.{write_and_reply}
use fuse_cpp_ramfs.Handlers.Guards.{with_live}
use fuse_cpp_ramfs.File.RoundTrip.{read-write_grows, write_inside_blocks_is_lost}
use fuse_cpp_ramfs.Base.{◌↔◌, true}
use fuse_cpp_ramfs.Base.{◌/◌, ◌%◌, word_mod}
use fuse_cpp_ramfs.Tests.Samples.{
  env-Reallocs, sample-FileAt, sample-DirectoryAt, sample-IsTable, sub_fits,
}
use fuse_cpp_ramfs.File.{file_truncate}
use fuse_cpp_ramfs.File.Truncate.{Truncates, file_truncate-Truncates}
use fuse_cpp_ramfs.Space.{size}
use fuse_cpp_ramfs.State.{reply_attr, enodata, success}
use fuse_cpp_ramfs.Attr.{get_attr}
use fuse_cpp_ramfs.Handlers.Attributes.{fuse_setattr}
use fuse_cpp_ramfs.Handlers.Setattr.{fuse_setattr-size}
use fuse_cpp_ramfs.State.{plus, reply_err}
use fuse_cpp_ramfs.Server.{rename}
use fuse_cpp_ramfs.Handlers.Create.{fuse_symlink}
use fuse_cpp_ramfs.Handlers.Replies.{OneReply}
use fuse_cpp_ramfs.Handlers.Replies.Symlink.{OneMore, fuse_symlink-OneMore}
use fuse_cpp_ramfs.Server.Replies.{handle-OneReply}
use fuse_cpp_ramfs.State.{directory}
use fuse_cpp_ramfs.Attr.{new_inode}
use fuse_cpp_ramfs.Register.{register_inode}
use fuse_cpp_ramfs.Server.Registered.{register_inode-accounted}
use fuse_cpp_ramfs.State.{Inode, reply_xattr}
use fuse_cpp_ramfs.Xattr.{with_xattr, list_xattr, list_size, set_xattr, get_xattr, remove_xattr}
use fuse_cpp_ramfs.Xattr.Removal.{remove_xattr-get_xattr}
use fuse_cpp_ramfs.Base.{pieces, ◌++◌}
use fuse_cpp_ramfs.Xattr.Listing.{keys, list_xattr-list_xattr}
use fuse_cpp_ramfs.Xattr.Laws.{SetOutcome, set_xattr-SetOutcome}
use fuse_cpp_ramfs.Handlers.Loops.{with_links, drop_all_links_lem, NoLive, is_empty-NoLive}
use fuse_cpp_ramfs.Handlers.Remove.{drop_all_links}
use fuse_cpp_ramfs.Directory.{is_empty}
use fuse_cpp_ramfs.State.{Fs, reply_write, reply_buf}
use fuse_cpp_ramfs.State.{Env, minus, eexist, enospc, enoent}
use fuse_cpp_ramfs.Table.{get_inode, slot}
use fuse_cpp_ramfs.Table.Invariant.{IsTable}
use fuse_cpp_ramfs.Space.{check_has_space_for}
use fuse_cpp_ramfs.Directory.{elem_size, add_child, remove_child}
use fuse_cpp_ramfs.Directory.Entries.{Added, Removed, add_child-Added, remove_child-Removed}
use fuse_cpp_ramfs.Keeps.{Post}
use fuse_cpp_ramfs.Server.{Request, handle, mounted, mkdir, rmdir, forget, create, unlink}
use fuse_cpp_ramfs.Server.Table.{mounted-IsTable}
use fuse_cpp_ramfs.Server.Blocks.{accounted, handle-accounted}
use fuse_cpp_ramfs.Handlers.Data.{fuse_write, fuse_read}
use fuse_cpp_ramfs.File.Write.{Outcome, fuse_write-Outcome}
use fuse_cpp_ramfs.File.Read.{fuse_read-FileAt, after_read}
use fuse_cpp_ramfs.Tests.Setup.{
  abi, env, sample, a_file, three_bytes, sub, doc, entries, a_directory,
}

abbrev fs_of : {A : Type 0} → Option (A × Fs) → Fs
fs_of none = sample
fs_of (some (a, fs)) = fs

-- Two bytes over the end of the block, and two bytes behind the size but in the block.
abbrev two_bytes : List ℕ
two_bytes = 1 ∷ 2 ∷ []

fuse_write-Outcome_example :
    Outcome env sample 2 a_file three_bytes two_bytes 511
      (fuse_write env 2 (some two_bytes) 511 sample)
fuse_write-Outcome_example =
    fuse_write-Outcome env sample 2 a_file three_bytes two_bytes 511 sample-FileAt refl env-Reallocs
      (omega arith)

fuse_read-FileAt_example :
    fuse_read env 2 10 1 sample
    ≡ some (reply_buf (7 ∷ 7 ∷ []) ∷ [], after_read env 2 a_file 1 sample)
fuse_read-FileAt_example =
    fuse_read-FileAt env sample 2 a_file three_bytes 10 1 sample-FileAt refl (omega arith)

add_child-Added_example :
    let r = add_child abi 1 sub 2 sample in
    ((lookup sub entries ≢ none) × (r ≡ some (minus eexist, sample)))
    ⊎ ((lookup sub entries ≡ none)
        × (check_has_space_for (some a_directory) (elem_size abi sub) sample ≡ false)
        × (r ≡ some (minus enospc, sample)))
    ⊎ ((lookup sub entries ≡ none)
        × (check_has_space_for (some a_directory) (elem_size abi sub) sample ≡ true)
        × Added abi sample 1 a_directory entries sample-DirectoryAt sub 2 r)
add_child-Added_example =
    add_child-Added abi sample 1 a_directory entries sample-DirectoryAt sub 2 sub_fits (omega arith)

remove_child-Removed_example :
    let r = remove_child abi 1 doc sample in
    ((lookup doc entries ≡ none) × (r ≡ some (minus enoent, sample)))
    ⊎ ((lookup doc entries ≢ none)
        × Removed abi sample 1 a_directory entries sample-DirectoryAt doc r)
remove_child-Removed_example =
    remove_child-Removed abi sample 1 a_directory entries sample-DirectoryAt doc

abbrev requests : List (Env × Request)
requests =
    (env, mkdir 1 sub 0o755)
    ∷ (env, rmdir 1 sub)
    ∷ (env, forget 2 1)
    ∷ (env, create 1 doc 0o644)
    ∷ []

mounted-IsTable_example : Post IsTable (mounted abi env 64 8 requests)
mounted-IsTable_example = mounted-IsTable abi env 64 8 requests

handle-accounted_example :
    Post (λ fs'. accounted fs' ≡ accounted sample) (handle abi env (unlink 1 doc) sample)
handle-accounted_example = handle-accounted abi env (unlink 1 doc) sample refl

-- What the two writes leave.
abbrev written : ℕ → Fs
written off = fs_of (fuse_write env 2 (some two_bytes) off sample)

write_over_end :
    fuse_write env 2 (some two_bytes) 511 sample ≡ some (reply_write 2 ∷ [], written 511)
unfolding fuse_write with_live get_inode slot write_and_reply file_write file_write_to add64 mul64
    sub64 check_has_space_for get_nblocks store_bytes splice
write_over_end = refl

write_behind_size :
    fuse_write env 2 (some two_bytes) 3 sample ≡ some (reply_write 2 ∷ [], written 3)
unfolding fuse_write with_live get_inode slot write_and_reply file_write file_write_to add64 mul64
    sub64 check_has_space_for get_nblocks store_bytes splice
write_behind_size = refl

read-write_grows_example :
    (gs : Fs) × (fuse_read env 2 2 511 (written 511) ≡ some (reply_buf two_bytes ∷ [], gs))
read-write_grows_example =
    read-write_grows env env sample (written 511) 2 a_file three_bytes two_bytes 511 sample-FileAt
      refl env-Reallocs (omega arith) (omega arith) write_over_end (omega arith)

write_inside_blocks_is_lost_example :
    (gs : Fs) × (fuse_read env 2 2 3 (written 3)
      ≡ some (reply_buf (take (3 - 3) two_bytes) ∷ [], gs))
    × (length (take (3 - 3) two_bytes) < length two_bytes)
write_inside_blocks_is_lost_example =
    write_inside_blocks_is_lost env env sample (written 3) 2 a_file three_bytes two_bytes 3
      sample-FileAt refl env-Reallocs (omega arith) (omega arith) write_behind_size (omega arith)
      (omega arith)

-- An attribute of one byte name.
abbrev tagged : Inode
tagged = with_xattr ((sub, two_bytes) ∷ []) a_file

tagged_size : list_xattr env 0 tagged ≡ reply_xattr 2
unfolding list_xattr list_size
tagged_size = refl

list_xattr-list_xattr_example :
    (bytes : List ℕ) × (list_xattr env 2 tagged ≡ reply_buf bytes)
    × (length bytes ≡ 2)
    × (pieces 0 bytes ≡ keys tagged.xattr ++ [] ∷ [])
list_xattr-list_xattr_example =
    list_xattr-list_xattr env tagged 2 refl (omega arith) ((refl, tt), tt) tagged_size

remove_xattr-get_xattr_example :
    ((lookup sub tagged.xattr ≡ none)
      × (remove_xattr sub tagged ≡ (tagged, reply_err (plus enodata))))
    ⊎ ((lookup sub tagged.xattr ≢ none)
        × (i' : Inode) × (remove_xattr sub tagged ≡ (i', reply_err success))
        × ((size position : ℕ) → get_xattr sub size position i' ≡ reply_err (plus enodata))
        × ((other : Name)
            → name_eq other sub ≡ false
            → lookup other i'.xattr ≡ lookup other tagged.xattr))
remove_xattr-get_xattr_example = remove_xattr-get_xattr sub tagged (tt, tt)

set_xattr-SetOutcome_example :
    SetOutcome env sub two_bytes 0 a_file (set_xattr env sub two_bytes 0 0 a_file)
set_xattr-SetOutcome_example =
    set_xattr-SetOutcome env sub two_bytes 0 a_file (omega arith) (omega arith) env-Reallocs

drop_all_links_lem_example : drop_all_links a_directory ≡ with_links 0 a_directory
drop_all_links_lem_example = drop_all_links_lem a_directory (omega arith)

is_empty-NoLive_example : (is_empty entries sample ≡ true) ↔ NoLive entries sample
is_empty-NoLive_example = is_empty-NoLive entries sample sample-DirectoryAt.layout.is_map

register_inode-accounted_example :
    (ino : ℕ) × (fs' : Fs) × (register_inode abi 100
        (new_inode (directory []))
        0o40755
        2
        1000
        1000
        sample
      ≡ some (ino, fs'))
    × ((accounted fs' + (48 + 511) / 512) % word_mod ≡ accounted sample)
register_inode-accounted_example =
    register_inode-accounted abi 100 0o40755 2 1000 1000 sample sample-IsTable (omega arith)

handle-OneReply_example : OneReply (handle abi env (rename 1 doc 1 sub) sample)
handle-OneReply_example = handle-OneReply abi env (rename 1 doc 1 sub) sample refl

sample_space : check_has_space_for none (min (length sub) 4096) sample ≡ true
unfolding check_has_space_for get_nblocks add64 sub64
sample_space = refl

fuse_symlink-OneMore_example :
    OneMore (reply_err (plus enospc) ∷ []) (fuse_symlink abi env doc 1 sub sample)
fuse_symlink-OneMore_example =
    fuse_symlink-OneMore abi env doc 1 sub sample a_directory entries sample-DirectoryAt.found refl
      refl sample_space (omega arith)

file_truncate-Truncates_example :
    Truncates env sample 2 a_file three_bytes 600 (file_truncate env 2 600 sample)
file_truncate-Truncates_example =
    file_truncate-Truncates env sample 2 a_file three_bytes 600 sample-FileAt env-Reallocs
      (omega arith)

fuse_setattr-size_example :
    (fs' : Fs) × (i' : Inode) × (fuse_setattr env 2 (get_attr a_directory) 8 false sample
      ≡ some (reply_attr (get_attr i') ∷ [], fs'))
    × (get_inode 2 fs' ≡ some i')
    × (size i' ≡ 3)
    × (i'.kind ≡ a_file.kind)
fuse_setattr-size_example =
    fuse_setattr-size env 2 (get_attr a_directory) 8 sample a_file sample-FileAt.found refl
