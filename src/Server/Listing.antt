-- ===== src/Server/Listing.antt =====
-- A caller that reads a directory by `FuseReadDir` of src/fuse_cpp_ramfs.cpp until it is sent an
-- empty buffer.
use fuse_cpp_ramfs.Base.{
  ℕ, zero, suc, ◌+◌, ◌≤◌, ◌<◌, ◌≡◌, ◌≢◌, ◌∙◌, refl, true, false, some, List, [], ◌∷◌, length,
  replicate, Name, Map,
}
use fuse_cpp_ramfs.State.{
  Inode, Fs, Env, Abi, Stat, Reply, reply_buf, directory, ◌>>=◌, pure, >>=-some,
}
use fuse_cpp_ramfs.Table.{get_inode}
use fuse_cpp_ramfs.Attr.{has_no_links}
use fuse_cpp_ramfs.Directory.Readdir.{find_ctx}
use fuse_cpp_ramfs.Handlers.Readdir.{entry_stat}
use fuse_cpp_ramfs.Handlers.Readdir.Listing.{room_of, fuse_readdir-resends}
use fuse_cpp_ramfs.Server.{Request, readdir, handle, serve}

-- A request that leaves the state as it was, made any number of times.
serve-replicate :
    (abi : Abi) (env : Env) (r : Request) (rs : List Reply) (fs : Fs) (n : ℕ)
    → handle abi env r fs ≡ some (rs, fs)
    → serve abi (replicate n (env, r)) fs ≡ some (replicate n rs, fs)
unfolding serve
serve-replicate abi env r rs fs zero e = refl
serve-replicate abi env r rs fs (suc n) e =
    >>=-some (handle abi env r)
      (λ sent. serve abi (replicate n (env, r)) >>= λ rest. pure (sent ∷ rest)) fs e
    ∙ >>=-some (serve abi (replicate n (env, r))) (λ rest. pure (rs ∷ rest)) fs
        (serve-replicate abi env r rs fs n e)

-- In a live directory, where `malloc` finds memory, the cookie is not zero and is in the table, the
-- next two children exist, and the entry of the first fits the reply but not that of the second
-- with it, the reading with this cookie never goes on: any number of calls sends the first of the
-- two again and again, and leaves the state as it was.
pub serve_readdir-resends :
    (abi : Abi) (env : Env) (ino size : ℕ) (fs : Fs) (i : Inode) (ch : Map ℕ) (n c k j l : ℕ)
    (a b : Name) (sent pending : Map ℕ) (s t : Stat)
    → get_inode ino fs ≡ some i
    → has_no_links i ≡ false
    → i.kind ≡ directory ch
    → env.malloc_ok ≡ true
    → c ≢ 0
    → find_ctx c fs.readdir_states
      ≡ some (record { cookie = k; sent = sent; pending = (a, j) ∷ (b, l) ∷ pending })
    → entry_stat j fs ≡ some s
    → entry_stat l fs ≡ some t
    → length (env.dirent a s k) ≤ room_of size
    → room_of size < length (env.dirent a s k) + length (env.dirent b t k)
    → serve abi (replicate n (env, readdir ino size c)) fs
      ≡ some (replicate n (reply_buf (env.dirent a s k) ∷ []), fs)
unfolding handle
serve_readdir-resends abi env ino size fs i ch n c k j l a b sent pending s t found links kind m ne
      e f g h over =
    serve-replicate abi env (readdir ino size c) (reply_buf (env.dirent a s k) ∷ []) fs n (
      fuse_readdir-resends env ino size fs i ch found links kind c k j l a b sent pending s t m ne e
        f g h over)
