-- ===== src/Handlers/Replies/Symlink.antt =====
-- The replies of `FuseSymlink` of src/fuse_cpp_ramfs.cpp, whose tests for space do not return.
use fuse_cpp_ramfs.Base.{
  ℕ, ◌<◌, ◌≡◌, refl, true, false, not, Option, none, some, List, [], ◌∷◌, ◌++◌, length, ◌==◌, min,
  Name, Map, arith, if◌then◌else◌,
}
use fuse_cpp_ramfs.State.{
  Inode, Fs, Handler, Reply, reply_err, plus, enospc, Env, Abi, ◌>>=◌, error, eexist,
}
use fuse_cpp_ramfs.Table.{get_inode}
use fuse_cpp_ramfs.Space.{check_has_space_for, get_free_inodes}
use fuse_cpp_ramfs.Attr.{has_no_links, reply_entry_of}
use fuse_cpp_ramfs.Directory.{children_of, child_inode_number, ino_notfound}
use fuse_cpp_ramfs.Register.{do_create_node}
use fuse_cpp_ramfs.Handlers.Create.{after, space_errors, fuse_symlink, answer_created, link_mode}
use fuse_cpp_ramfs.Handlers.Enter.{with_live-found, with_children-found}
use fuse_cpp_ramfs.Handlers.Replies.{OneReply, Answers, Answers-if, Answers->>=}
use fuse_cpp_ramfs.Handlers.Replies.Data.{answer_created-Answers}

-- These replies are sent and then one more, unless the handler faults.
abbrev pub OneMore : List Reply → Option (List Reply × Fs) → Type 0
OneMore sent none = Unit
OneMore sent (some (rs, fs)) = (last : Reply) × (rs ≡ sent ++ last ∷ [])

after-OneMore :
    (sent : List Reply) (h : Handler) (fs : Fs) → OneReply (h fs) → OneMore sent (after sent h fs)
after-OneMore sent h fs p = go (h fs) p
  where
    one : (rs : List Reply) → length rs ≡ 1 → (last : Reply) × (sent ++ rs ≡ sent ++ last ∷ [])
    one [] e = absurd (omega arith)
    one (r ∷ []) e = (r, refl)
    one (r ∷ (q ∷ rs)) e = absurd (omega arith)

    go :
        (r : Option (List Reply × Fs))
        → OneReply r
        → OneMore sent (elim r as (λ _. Option (List Reply × Fs)) [
          | none ↦ none
          | some (rs, fs') ↦ some (sent ++ rs, fs')
        ])
    go none q = tt
    go (some (rs, fs')) q = one rs q

positive : (n : ℕ) → 0 < n → (n == 0) ≡ false
positive n h = ground arith

space_errors_found :
    (name : Name) (fs : Fs)
    → check_has_space_for none (min (length name) 4096) fs ≡ true
    → (get_free_inodes fs == 0) ≡ false
    → space_errors name fs ≡ reply_err (plus enospc) ∷ []
unfolding space_errors
space_errors_found name fs space free = rw (space, free)

-- In a live directory, where `CheckHasSpaceFor` finds space and inodes are free, the making of a
-- symbolic link sends `ENOSPC` and then one more reply, unless it faults.
pub fuse_symlink-OneMore :
    (abi : Abi) (env : Env) (link : Name) (parent : ℕ) (name : Name) (fs : Fs) (p : Inode)
    (ch : Map ℕ)
    → get_inode parent fs ≡ some p
    → has_no_links p ≡ false
    → children_of p.kind ≡ some ch
    → check_has_space_for none (min (length name) 4096) fs ≡ true
    → 0 < get_free_inodes fs
    → OneMore (reply_err (plus enospc) ∷ []) (fuse_symlink abi env link parent name fs)
unfolding fuse_symlink
fuse_symlink-OneMore abi env link parent name fs p ch e l c space free =
    rw (with_live-found parent _ fs p e l) (
      rw (with_children-found p _ fs ch c)
        (rw (sent) (after-OneMore (reply_err (plus enospc) ∷ []) rest fs (answers fs))))
  where
    rest : Handler
    rest =
        if not (child_inode_number name ch == ino_notfound)
        then error eexist
        else (do_create_node abi env parent name link_mode 0 (some link)
            >>= answer_created reply_entry_of)

    answers : Answers rest
    answers =
        Answers-if (not (child_inode_number name ch == ino_notfound)) _ _ (λ fs'. refl)
          (Answers->>= (do_create_node abi env parent name link_mode 0 (some link))
            (answer_created reply_entry_of) (answer_created-Answers reply_entry_of))

    sent : space_errors name fs ≡ reply_err (plus enospc) ∷ []
    sent = space_errors_found name fs space (positive (get_free_inodes fs) free)
