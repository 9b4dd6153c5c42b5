-- ===== src/Directory/Readdir.antt =====
-- The contexts of the directories that are being read: `ReadDirCtx`, `readdirStates` and
-- `PrepareReaddir` of src/directory.hpp and src/directory.cpp. A pointer to a context is its cookie,
-- and the object is kept in the table.
pub mod Cookies
use fuse_cpp_ramfs.Base.{ℕ, Bool, Option, none, some, List, [], ◌∷◌, ◌==◌, if◌then◌else◌, Map}
use fuse_cpp_ramfs.State.{ReadDirCtx, Fs, Env, M, pure}

abbrev pub Contexts : Type 0
Contexts = List (ℕ × ReadDirCtx)

-- `find` and `at`
unfoldable pub find_ctx : ℕ → Contexts → Option ReadDirCtx
find_ctx c [] = none
find_ctx c ((k, ctx) ∷ m) = if c == k then some ctx else find_ctx c m

-- `erase`
unfoldable pub erase_ctx : ℕ → Contexts → Contexts
erase_ctx c [] = []
erase_ctx c ((k, ctx) ∷ m) = if c == k then m else (k, ctx) ∷ erase_ctx c m

-- A change of the object that an entry points to.
unfoldable pub store_ctx : ℕ → ReadDirCtx → Contexts → Contexts
store_ctx c new [] = []
store_ctx c new ((k, ctx) ∷ m) = if c == k then (k, new) ∷ m else (k, ctx) ∷ store_ctx c new m

abbrev pub set_contexts : Contexts → Fs → Fs
set_contexts m fs = record fs { readdir_states = m }

-- The loop that asks `rand` for a cookie until one is not in the table; `none` is that every value
-- is taken, where the loop goes on.
unfoldable pub fresh_cookie : List ℕ → Contexts → Option ℕ
unfolding find_ctx
fresh_cookie [] m = none
fresh_cookie (c ∷ cs) m = elim (find_ctx c m) [ none ↦ some c | some ctx ↦ fresh_cookie cs m ]

-- `ReadDirCtx(ck, ch)`
abbrev pub new_ctx : ℕ → Map ℕ → ReadDirCtx
new_ctx c ch = record { cookie = c; sent = []; pending = ch }

-- `PrepareReaddir` of a directory with these children, with the cookie of the context; `none` is
-- the exception `out_of_range`.
unfoldable pub prepare_readdir : Env → Map ℕ → ℕ → M (Option ℕ)
prepare_readdir env ch off fs =
    if off == 0
    then (elim (fresh_cookie env.rand fs.readdir_states) [
      | none ↦ none
      | some c ↦ some (some c, set_contexts ((c, new_ctx c ch) ∷ fs.readdir_states) fs)
    ])
    else elim (find_ctx off fs.readdir_states) [
      | none ↦ pure none fs
      | some ctx ↦ elim ctx.pending [
        | [] ↦ pure none (set_contexts (erase_ctx off fs.readdir_states) fs)
        | _ ∷ _ ↦ pure (some off) fs
      ]
    ]
