-- ===== src/Tests/Listing.antt =====
-- The theorems on the reading of directories at inputs that meet their hypotheses.
use fuse_cpp_ramfs.Base.{
  ℕ, ◌≤◌, ◌<◌, ◌≡◌, refl, none, some, List, [], ◌∷◌, length, replicate, arith, min,
}
use fuse_cpp_ramfs.State.{Fs, Env, Stat, reply_buf}
use fuse_cpp_ramfs.Table.{get_inode, slot}
use fuse_cpp_ramfs.Attr.{get_attr}
use fuse_cpp_ramfs.Directory.{dot, dot_dot}
use fuse_cpp_ramfs.Directory.Readdir.{Contexts, find_ctx, fresh_cookie, new_ctx, set_contexts}
use fuse_cpp_ramfs.Directory.Readdir.Cookies.{Cookies, fresh_cookie-total}
use fuse_cpp_ramfs.Handlers.Readdir.{entry_stat, fuse_readdir}
use fuse_cpp_ramfs.Handlers.Readdir.Bounds.{SendsAtMost, fuse_readdir-SendsAtMost}
use fuse_cpp_ramfs.Handlers.Readdir.Fill.{live_bytes, live_count}
use fuse_cpp_ramfs.Handlers.Readdir.Listing.{room_of}
use fuse_cpp_ramfs.Handlers.Readdir.Whole.{fuse_readdir-fuse_readdir}
use fuse_cpp_ramfs.Keeps.{Post}
use fuse_cpp_ramfs.Server.{Request, mounted, readdir, mkdir, unlink, serve}
use fuse_cpp_ramfs.Server.Cookies.{mounted-Cookies}
use fuse_cpp_ramfs.Server.Listing.{serve_readdir-resends}
use fuse_cpp_ramfs.Tests.Setup.{abi, env, sample, sub, entries, a_directory}
use fuse_cpp_ramfs.Tests.Samples.{sample-DirectoryAt}

abbrev requests : List (Env × Request)
requests =
    (env, mkdir 1 sub 0o755)
    ∷ (env, readdir 1 100 0)
    ∷ (env, readdir 1 100 5)
    ∷ (env, unlink 1 sub)
    ∷ []

mounted-Cookies_example : Post (λ fs. Cookies fs.readdir_states) (mounted abi env 64 8 requests)
mounted-Cookies_example = mounted-Cookies abi env 64 8 requests

abbrev contexts : Contexts
contexts = (5, new_ctx 5 entries) ∷ []

fresh_cookie-total_example :
    (c : ℕ) × (fresh_cookie (5 ∷ 6 ∷ []) contexts ≡ some c) × (find_ctx c contexts ≡ none)
fresh_cookie-total_example =
    fresh_cookie-total (5 ∷ 6 ∷ []) contexts ((omega arith, tt), (tt, tt)) (omega arith)

fuse_readdir-SendsAtMost_example : SendsAtMost (min 4 384) (fuse_readdir env 1 4 0 sample)
fuse_readdir-SendsAtMost_example = fuse_readdir-SendsAtMost env 1 4 0 sample

cookie_found : fresh_cookie env.rand sample.readdir_states ≡ some 5
unfolding fresh_cookie
cookie_found = refl

listing_fits :
    length (live_bytes (λ name stat. env.dirent name stat 5) sample entries) ≤ room_of 100
unfolding live_bytes entry_stat get_inode slot
listing_fits = omega arith

listing_short : live_count (λ name stat. env.dirent name stat 5) sample entries < 255
unfolding live_count entry_stat get_inode slot
listing_short = omega arith

fuse_readdir-fuse_readdir_example :
    (fs' : Fs) × (fuse_readdir env 1 100 0 sample
      ≡ some
          (reply_buf (live_bytes (λ name stat. env.dirent name stat 5) sample entries) ∷ [], fs'))
    × (fuse_readdir env 1 7 5 fs' ≡ some (reply_buf [] ∷ [], sample))
fuse_readdir-fuse_readdir_example =
    fuse_readdir-fuse_readdir env 1 100 sample a_directory entries sample-DirectoryAt.found refl
      refl 5 env 7 refl cookie_found (omega arith) listing_fits listing_short

-- The directory is being read with the cookie 5, and nothing has been sent.
abbrev reading : Fs
reading = set_contexts contexts sample

abbrev root_stat : Stat
root_stat = record (get_attr a_directory) { st_ino = 1 }

reading_found : get_inode 1 reading ≡ some a_directory
unfolding get_inode slot
reading_found = refl

context_found :
    find_ctx 5 reading.readdir_states
    ≡ some
        (record { cookie = 5; sent = []; pending = (dot, 1) ∷ (dot_dot, 1) ∷ (b'd' ∷ [], 2) ∷ [] })
unfolding find_ctx
context_found = refl

root_found : entry_stat 1 reading ≡ some root_stat
unfolding entry_stat get_inode slot
root_found = refl

serve_readdir-resends_example :
    serve abi (replicate 4 (env, readdir 1 3 5)) reading
    ≡ some (replicate 4 (reply_buf (b'.' ∷ 1 ∷ []) ∷ []), reading)
serve_readdir-resends_example =
    serve_readdir-resends abi env 1 3 reading a_directory entries 4 5 5 1 1 dot dot_dot []
      ((b'd' ∷ [], 2) ∷ []) root_stat root_stat reading_found refl refl refl (omega arith)
      context_found root_found root_found (omega arith) (omega arith)
