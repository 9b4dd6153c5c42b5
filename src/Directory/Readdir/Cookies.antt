-- ===== src/Directory/Readdir/Cookies.antt =====
-- The table of contexts of src/directory.cpp: no two contexts share a cookie, and the loop for a new
-- cookie ends.
use fuse_cpp_ramfs.Base.{
  ℕ, suc, ◌<◌, ◌≡◌, ◌∙◌, refl, sym, false, none, some, List, [], ◌∷◌, length, ◌==◌, if◌then◌else◌,
  inl, inr, Bool-cases, Option-cases, arith,
}
use fuse_cpp_ramfs.State.{ReadDirCtx}
use fuse_cpp_ramfs.Table.Invariant.{NotIn}
use fuse_cpp_ramfs.Directory.Readdir.{Contexts, find_ctx, erase_ctx, store_ctx, fresh_cookie}

-- Each context is kept under its cookie, and no cookie stands twice.
abbrev pub Cookies : Contexts → Type 0
Cookies [] = Unit
Cookies ((k, ctx) ∷ m) = (find_ctx k m ≡ none) × (ctx.cookie ≡ k) × Cookies m

pub find-erase_ctx :
    (c k : ℕ) (m : Contexts) → (k == c) ≡ false → find_ctx k (erase_ctx c m) ≡ find_ctx k m
unfolding find_ctx erase_ctx
find-erase_ctx c k [] h = refl
find-erase_ctx c k ((j, ctx) ∷ m) h = ground (arith, find-erase_ctx c k m)

pub find-store_ctx :
    (c k : ℕ) (new : ReadDirCtx) (m : Contexts) (ctx : ReadDirCtx)
    → find_ctx c m ≡ some ctx
    → find_ctx k (store_ctx c new m) ≡ (if k == c then some new else find_ctx k m)
unfolding find_ctx store_ctx
find-store_ctx c k new [] ctx h = cc
find-store_ctx c k new ((j, old) ∷ m) ctx h = ground (arith, find-store_ctx c k new m ctx)

find_none-erase : (c k : ℕ) (m : Contexts) → find_ctx k m ≡ none → find_ctx k (erase_ctx c m) ≡ none
unfolding find_ctx erase_ctx
find_none-erase c k [] h = refl
find_none-erase c k ((j, ctx) ∷ m) h = ground (arith, find_none-erase c k m)

find_none-store :
    (c k : ℕ) (new : ReadDirCtx) (m : Contexts)
    → find_ctx k m ≡ none
    → find_ctx k (store_ctx c new m) ≡ none
unfolding find_ctx store_ctx
find_none-store c k new [] h = refl
find_none-store c k new ((j, ctx) ∷ m) h = ground (arith, find_none-store c k new m)

pub erase_ctx-Cookies : (c : ℕ) (m : Contexts) → Cookies m → Cookies (erase_ctx c m)
unfolding erase_ctx
erase_ctx-Cookies c [] h = tt
erase_ctx-Cookies c ((k, ctx) ∷ m) h = elim (Bool-cases (c == k)) [
  | inl e ↦ rw e h.2
  | inr e ↦ rw e (find_none-erase c k m h.0, h.1, erase_ctx-Cookies c m h.2)
]

pub store_ctx-Cookies :
    (c : ℕ) (new : ReadDirCtx) (m : Contexts)
    → new.cookie ≡ c
    → Cookies m
    → Cookies (store_ctx c new m)
unfolding store_ctx
store_ctx-Cookies c new [] n h = tt
store_ctx-Cookies c new ((k, ctx) ∷ m) n h = elim (Bool-cases (c == k)) [
  | inl e ↦ rw e (h.0, ground arith, h.2)
  | inr e ↦ rw e (find_none-store c k new m h.0, h.1, store_ctx-Cookies c new m n h.2)
]

pub find_ctx-Cookies :
    (c : ℕ) (m : Contexts) (ctx : ReadDirCtx) → Cookies m → find_ctx c m ≡ some ctx → ctx.cookie ≡ c
unfolding find_ctx
find_ctx-Cookies c [] ctx h e = cc
find_ctx-Cookies c ((k, ctx') ∷ m) ctx h e = ground (arith, find_ctx-Cookies c m ctx)

-- The cookie that the loop ends with is not in the table.
pub fresh_cookie_lem :
    (cs : List ℕ) (m : Contexts) (c : ℕ) → fresh_cookie cs m ≡ some c → find_ctx c m ≡ none
unfolding fresh_cookie
fresh_cookie_lem [] m c h = cc
fresh_cookie_lem (k ∷ cs) m c h = ground (arith, fresh_cookie_lem cs m c)

length-erase_ctx :
    (c : ℕ) (m : Contexts) (ctx : ReadDirCtx)
    → find_ctx c m ≡ some ctx
    → suc (length (erase_ctx c m)) ≡ length m
unfolding find_ctx erase_ctx
length-erase_ctx c [] ctx h = cc
length-erase_ctx c ((k, old) ∷ m) ctx h = ground (arith, length-erase_ctx c m ctx)

-- A value that does not come again is looked for as well in a table without it.
fresh_cookie-erase :
    (c : ℕ) (cs : List ℕ) (m : Contexts)
    → NotIn c cs
    → fresh_cookie cs (erase_ctx c m) ≡ fresh_cookie cs m
unfolding fresh_cookie
fresh_cookie-erase c [] m h = refl
fresh_cookie-erase c (k ∷ cs) m h = elim (Option-cases (find_ctx k m)) [
  | inl e ↦ rw (same ∙ e, e, fresh_cookie)
  | inr (ctx, e) ↦ rw (same ∙ e, e, fresh_cookie) (fresh_cookie-erase c cs m h.1)
]
  where
    same : find_ctx k (erase_ctx c m) ≡ find_ctx k m
    same = find-erase_ctx c k m (ground (arith, h.0))

abbrev pub Distinct : List ℕ → Type 0
Distinct [] = Unit
Distinct (c ∷ cs) = NotIn c cs × Distinct cs

-- The loop for a new cookie ends: where `rand` gives more distinct values than there are contexts,
-- one of them is found, and it is not in the table.
pub fresh_cookie-total :
    (cs : List ℕ) (m : Contexts)
    → Distinct cs
    → length m < length cs
    → (c : ℕ) × (fresh_cookie cs m ≡ some c) × (find_ctx c m ≡ none)
unfolding fresh_cookie
fresh_cookie-total [] m d h = absurd (omega arith)
fresh_cookie-total (c ∷ cs) m d h = elim (Option-cases (find_ctx c m)) [
  | inl e ↦ (c, rw (e, fresh_cookie), e)
  | inr (ctx, e) ↦
      let (k, f, g) =
        fresh_cookie-total cs (erase_ctx c m) d.1 (omega (arith, length-erase_ctx c m ctx e)) in
      let found : fresh_cookie cs m ≡ some k = sym (fresh_cookie-erase c cs m d.0) ∙ f in
      (k, rw (e, fresh_cookie) found, fresh_cookie_lem cs m k found)
]
