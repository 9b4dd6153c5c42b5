-- ===== src/Handlers/Names/Forget.antt =====
-- `FuseForget` of src/fuse_cpp_ramfs.cpp after `FuseUnlink`: the inode is given back.
use fuse_cpp_ramfs.Base.{
  ℕ, ◌≡◌, ◌≢◌, ◌∙◌, refl, true, false, none, some, [], ◌∷◌, ◌++◌, ◌==◌, if◌then◌else◌, arith, Name,
  Map, lookup, erase, sub64, add64,
}
use fuse_cpp_ramfs.State.{Inode, Fs, Abi, reply_err, reply_none, success}
use fuse_cpp_ramfs.Table.{get_inode, change_inode, delete_inode}
use fuse_cpp_ramfs.Table.Laws.{slot-set, slot-length, get-change, get-change_self}
use fuse_cpp_ramfs.Space.{used_blocks, update_used_blocks, update_used_inodes}
use fuse_cpp_ramfs.Attr.{has_no_links, remove_hard_link, forget}
use fuse_cpp_ramfs.Directory.Size.{DirectoryAt}
use fuse_cpp_ramfs.Directory.Entries.{links}
use fuse_cpp_ramfs.Handlers.Remove.{fuse_unlink, fuse_forget, reclaim}
use fuse_cpp_ramfs.Handlers.Names.Unlink.{fuse_unlink-fuse_lookup}

get-delete :
    (ino : ℕ) (fs : Fs) (i : Inode) (j : ℕ)
    → get_inode ino fs ≡ some i
    → get_inode j (delete_inode ino fs) ≡ (if ino == j then none else get_inode j fs)
unfolding get_inode delete_inode
get-delete ino fs i j e = slot-set fs.inodes ino none j (slot-length fs.inodes ino e)

-- The inode is gone, its number waits to be used again, and its inode and its blocks are free again.
abbrev pub Reclaimed : Fs → ℕ → ℕ → Fs → Type 0
Reclaimed fs ino blocks fs' =
    (get_inode ino fs' ≡ none)
    × ((j : ℕ) → ino ≢ j → get_inode j fs' ≡ get_inode j fs)
    × (fs'.deleted ≡ fs.deleted ++ ino ∷ [])
    × (fs'.stbuf.f_ffree ≡ add64 fs.stbuf.f_ffree 1)
    × (fs'.stbuf.f_bfree ≡ add64 fs.stbuf.f_bfree blocks)

minus_minus : (a b : ℕ) → sub64 a (sub64 0 b) ≡ add64 a b
unfolding sub64 add64
minus_minus a b = omega arith

all_forgotten : (n : ℕ) → (sub64 n n == 0) ≡ true
unfolding sub64
all_forgotten n = ground arith

module _ (fs : Fs) (ino : ℕ) (i : Inode) (e : get_inode ino fs ≡ some i) where
  abbrev forget_all : Inode → Inode
  forget_all j = (forget i.nlookup j).0

  -- The state after `DeleteInode`, and after the counters.
  abbrev deleted_fs : Fs
  deleted_fs = delete_inode ino (change_inode ino forget_all fs)

  abbrev reclaimed_fs : Fs
  reclaimed_fs =
      update_used_blocks (sub64 0 (used_blocks i)) (update_used_inodes (sub64 0 1) deleted_fs)

  get-deleted_fs : (j : ℕ) → get_inode j deleted_fs ≡ (if ino == j then none else get_inode j fs)
  get-deleted_fs j = ground (
    arith,
    get-delete ino (change_inode ino forget_all fs) (forget_all i) j
        (get-change_self ino forget_all fs e),
    get-change ino forget_all fs j,
  )

  get-reclaimed_fs : (j : ℕ) → get_inode j reclaimed_fs ≡ get_inode j deleted_fs
  unfolding get_inode update_used_blocks update_used_inodes
  get-reclaimed_fs j = refl

  reclaimed_fs-Reclaimed : Reclaimed fs ino (used_blocks i) reclaimed_fs
  unfolding update_used_blocks update_used_inodes delete_inode change_inode
  reclaimed_fs-Reclaimed = (
    ground (arith, get-reclaimed_fs ino, get-deleted_fs ino),
    λ j ne. ground (arith, ne, get-reclaimed_fs j, get-deleted_fs j),
    refl,
    minus_minus fs.stbuf.f_ffree 1,
    minus_minus fs.stbuf.f_bfree (used_blocks i),
  )

  -- The last lookups of an inode without links are forgotten.
  pub fuse_forget-Reclaimed :
      has_no_links i ≡ true
      → (fs' : Fs) × (fuse_forget ino i.nlookup fs ≡ some (reply_none ∷ [], fs'))
        × Reclaimed fs ino (used_blocks i) fs'
  unfolding fuse_forget reclaim forget
  fuse_forget-Reclaimed dead = (
    reclaimed_fs,
    rw (e, fuse_forget) (rw (all_forgotten i.nlookup) (rw dead refl)),
    reclaimed_fs-Reclaimed,
  )

-- The last link of an inode is unlinked from a live and well-formed directory, and then all lookups
-- of the inode are forgotten: both calls are answered, the directory has lost the name alone and is
-- well formed, the inode is null, its number waits to be used again, the free inodes and the free
-- blocks have grown by one and by its blocks modulo 2^64, and every other inode is as it was.
pub fuse_unlink-fuse_forget :
    (abi : Abi) (fs : Fs) (parent : ℕ) (p : Inode) (ch : Map ℕ) (name : Name) (ino : ℕ) (i : Inode)
    → DirectoryAt abi fs parent p ch
    → has_no_links p ≡ false
    → lookup name ch ≡ some ino
    → ino ≢ 0
    → ino ≢ parent
    → get_inode ino fs ≡ some i
    → links i ≡ 1
    → (fs' fs'' : Fs) × (p' : Inode) × (fuse_unlink abi parent name fs
        ≡ some (reply_err success ∷ [], fs'))
      × (fuse_forget ino i.nlookup fs' ≡ some (reply_none ∷ [], fs''))
      × DirectoryAt abi fs'' parent p' (erase name ch)
      × Reclaimed fs' ino (used_blocks i) fs''
      × ((j : ℕ) → parent ≢ j → ino ≢ j → get_inode j fs'' ≡ get_inode j fs)
unfolding remove_hard_link
fuse_unlink-fuse_forget abi fs parent p ch name ino i at live e nonzero other there one =
    let (fs', p', r, at', there', others, missing) =
      fuse_unlink-fuse_lookup abi fs parent p ch name ino i at live e nonzero other there in
    let (fs'', f, gone) =
      fuse_forget-Reclaimed fs' ino (remove_hard_link i) there' (no_links one) in
    (
      fs',
      fs'',
      p',
      r,
      f,
      record {
        found = gone.1 parent other ∙ at'.found;
        is_directory = at'.is_directory;
        layout = at'.layout;
      },
      gone,
      λ j np ni. gone.1 j ni ∙ others j np ni,
    )
  where
    no_links : links i ≡ 1 → has_no_links (remove_hard_link i) ≡ true
    no_links h = rw h (all_forgotten 1)
