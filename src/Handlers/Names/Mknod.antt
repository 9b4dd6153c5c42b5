-- ===== src/Handlers/Names/Mknod.antt =====
-- `FuseMknod` of src/fuse_cpp_ramfs.cpp for a regular file, and the lookup of the name after it.
use fuse_cpp_ramfs.Base.{ℕ, ◌≡◌, ◌≢◌, ◌∙◌, refl, ap, Option, none, some, [], arith, sub64}
use fuse_cpp_ramfs.State.{Inode, Fs, Env, Abi, file, >>=-some, pure}
use fuse_cpp_ramfs.Table.{get_inode, change_inode, place_inode}
use fuse_cpp_ramfs.Table.Laws.{get-change, get-change_self}
use fuse_cpp_ramfs.Table.Invariant.{IsTable}
use fuse_cpp_ramfs.Table.Placed.{Placed, place_inode-Placed}
use fuse_cpp_ramfs.Space.{used_blocks, update_used_blocks, update_used_inodes}
use fuse_cpp_ramfs.Attr.{new_inode, initialize, with_attr}
use fuse_cpp_ramfs.Register.{register_inode, initialize_more, size_of_link, count_blocks}

-- A regular file as `RegisterInode` leaves it.
abbrev pub new_file : ℕ → ℕ → ℕ → ℕ → ℕ → Inode
new_file now ino mode gid uid =
    with_attr (size_of_link (file [])) (initialize now ino mode 1 gid uid (new_inode (file [])))

-- The registration of a file: it stands at a number that no inode had, no other number has changed,
-- and no block is taken.
abbrev pub Registered : Env → ℕ → Fs → Option (ℕ × Fs) → Type 0
Registered env mode fs r =
    (ino : ℕ) × (fs' : Fs) × (r ≡ some (ino, fs'))
    × (get_inode ino fs ≡ none)
    × (get_inode ino fs' ≡ some (new_file env.now ino mode env.gid env.uid))
    × ((j : ℕ) → ino ≢ j → get_inode j fs' ≡ get_inode j fs)
    × (fs'.stbuf.f_bfree ≡ sub64 fs.stbuf.f_bfree 0)

count_blocks-found :
    (ino : ℕ) (gs : Fs) (i : Inode)
    → get_inode ino gs ≡ some i
    → count_blocks ino gs ≡ some (tt, update_used_blocks (used_blocks i) gs)
unfolding count_blocks
count_blocks-found ino gs i e = rw (e, count_blocks)

-- The object at a number, after the changes to that at `ino`.
pub other_inode :
    (ino j : ℕ) (f : Inode → Inode) (gs : Fs)
    → ino ≢ j
    → get_inode j (change_inode ino f gs) ≡ get_inode j gs
other_inode ino j f gs ne = ground (arith, ne, get-change ino f gs j)

pub register_inode-Registered :
    (abi : Abi) (env : Env) (mode : ℕ) (fs : Fs)
    → IsTable fs
    → Registered env mode fs
        (register_inode abi env.now (new_inode (file [])) mode 1 env.gid env.uid fs)
unfolding register_inode initialize_more
register_inode-Registered abi env mode fs t = (
  ino,
  update_used_blocks (used_blocks made) fs3,
  >>=-some (count_blocks ino) (λ _. pure ino) fs3 (count_blocks-found ino fs3 made found),
  placed.0,
  found,
  λ j ne.
      other_inode ino j (with_attr (size_of_link (file []))) fs2 ne
      ∙ other_inode ino j (initialize env.now ino mode 1 env.gid env.uid) fs1 ne
      ∙ placed.2 j ne,
  ap (λ st. sub64 st.f_bfree 0) placed.3,
)
  where
    ino : ℕ
    ino = (place_inode (new_inode (file [])) fs).0

    fs1 : Fs
    fs1 = update_used_inodes 1 (place_inode (new_inode (file [])) fs).1

    fs2 : Fs
    fs2 = change_inode ino (initialize env.now ino mode 1 env.gid env.uid) fs1

    fs3 : Fs
    fs3 = change_inode ino (with_attr (size_of_link (file []))) fs2

    made : Inode
    made = new_file env.now ino mode env.gid env.uid

    placed : Placed (new_inode (file [])) fs (place_inode (new_inode (file [])) fs)
    placed = place_inode-Placed (new_inode (file [])) fs fs.deleted refl t

    found : get_inode ino fs3 ≡ some made
    found =
        get-change_self ino (with_attr (size_of_link (file []))) fs2
          (get-change_self ino (initialize env.now ino mode 1 env.gid env.uid) fs1 placed.1)
