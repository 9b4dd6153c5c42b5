-- ===== src/Server/Cookies.antt =====
-- The table `readdirStates` of src/directory.hpp under all operations of src/fuse_cpp_ramfs.cpp.
use fuse_cpp_ramfs.Base.{ℕ, ◌≡◌, refl, List, [], ◌∷◌, inl, inr, Option-cases}
use fuse_cpp_ramfs.State.{
  Inode, Fs, ◌>>◌, pure, Kind, file, directory, symlink, special, Env, Abi, Code,
}
use fuse_cpp_ramfs.Table.{get_inode, change_inode, delete_inode, place_inode}
use fuse_cpp_ramfs.Space.{update_used_blocks, update_used_inodes}
use fuse_cpp_ramfs.Register.{register_inode, initialize_more, count_blocks, unregister, new_fs}
use fuse_cpp_ramfs.Directory.Readdir.Cookies.{Cookies}
use fuse_cpp_ramfs.Keeps.{Post, Keeps, Frame, Keeps->>=}
use fuse_cpp_ramfs.Keeps.Directory.{update_size-Keeps}
use fuse_cpp_ramfs.Keeps.Create.{Maker}
use fuse_cpp_ramfs.Server.{Request, mounted}
use fuse_cpp_ramfs.Server.Start.{mounted-Keeps}

abbrev HasCookies : Fs → Type 0
HasCookies fs = Cookies fs.readdir_states

HasCookies-Frame : Frame HasCookies
unfolding change_inode delete_inode update_used_blocks update_used_inodes
HasCookies-Frame = record {
  keep_attr = λ ino f fs _ h. h;
  keep_blocks = λ ino f fs i _ h. h;
  keep_contexts = λ m fs keep h. keep h;
  keep_delete = λ ino fs i _ h. h;
}

place_inode-HasCookies :
    (i : Inode) (fs : Fs) (ds : List ℕ)
    → fs.deleted ≡ ds
    → HasCookies fs
    → HasCookies (place_inode i fs).1
unfolding place_inode
place_inode-HasCookies i fs [] e h = rw (e, place_inode) h
place_inode-HasCookies i fs (d ∷ ds) e h = rw (e, place_inode) h

initialize_more-HasCookies :
    (abi : Abi) (ino : ℕ) (k : Kind) → Keeps HasCookies (initialize_more abi ino k)
unfolding initialize_more change_inode
initialize_more-HasCookies abi ino (directory ch) fs h =
    update_size-Keeps HasCookies HasCookies-Frame ino abi.sizeof_children fs h
initialize_more-HasCookies abi ino (file buf) fs h = h
initialize_more-HasCookies abi ino (symlink target) fs h = h
initialize_more-HasCookies abi ino (special t) fs h = h

count_blocks-HasCookies : (ino : ℕ) → Keeps HasCookies (count_blocks ino)
unfolding count_blocks update_used_blocks
count_blocks-HasCookies ino fs h = elim (Option-cases (get_inode ino fs)) [
  | inl e ↦ rw (e, count_blocks) tt
  | inr (i, e) ↦ rw (e, count_blocks) h
]

register_inode-HasCookies :
    (abi : Abi) (now : ℕ) (inode : Inode) (mode nlink gid uid : ℕ)
    → Keeps HasCookies (register_inode abi now inode mode nlink gid uid)
unfolding register_inode change_inode update_used_inodes
register_inode-HasCookies abi now inode mode nlink gid uid fs h =
    let ino = (place_inode inode fs).0 in
    Keeps->>= HasCookies (initialize_more abi ino inode.kind) (λ _. count_blocks ino >> pure ino)
      (initialize_more-HasCookies abi ino inode.kind)
      (λ _.
        Keeps->>= HasCookies (count_blocks ino) (λ _. pure ino) (count_blocks-HasCookies ino)
          λ _ fs' k. k)
      _ (place_inode-HasCookies inode fs fs.deleted refl h)

unregister-HasCookies : (ino : ℕ) (code : Code) → Keeps HasCookies (unregister ino code)
unfolding unregister update_used_blocks update_used_inodes delete_inode
unregister-HasCookies ino code fs h = elim (Option-cases (get_inode ino fs)) [
  | inl e ↦ rw (e, unregister) tt
  | inr (i, e) ↦ rw (e, unregister) h
]

HasCookies-Maker : Maker HasCookies
HasCookies-Maker = record {
  keep_register = register_inode-HasCookies;
  keep_unregister = unregister-HasCookies;
}

-- After the start and any sequence of calls that does not fault, no two of the directories that are
-- being read have the same cookie, and each context holds the cookie it is found under.
pub mounted-Cookies :
    (abi : Abi) (env : Env) (blocks inodes : ℕ) (rs : List (Env × Request))
    → Post (λ fs. Cookies fs.readdir_states) (mounted abi env blocks inodes rs)
unfolding new_fs
mounted-Cookies abi env blocks inodes rs =
    mounted-Keeps HasCookies HasCookies-Frame HasCookies-Maker abi env blocks inodes rs tt
