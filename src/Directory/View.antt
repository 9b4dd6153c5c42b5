-- ===== src/Directory/View.antt =====
-- What a directory of src/directory.cpp is to its callers: a finite map from names to numbers, in
-- which neither the order of the entries nor their size is seen.
pub mod Refines
use fuse_cpp_ramfs.Base.{
  ℕ, ◌+◌, ◌≡◌, ◌≢◌, Option, none, some, List, [], ◌∷◌, Name, Map, if◌then◌else◌, lookup, name_eq,
}
use fuse_cpp_ramfs.State.{M, ◌>>=◌, pure, Abi, Code, success, minus, enoent, eexist, enospc}
use fuse_cpp_ramfs.Directory.{elem_size, add_child, update_child, remove_child}

abbrev pub View : Type 0
View = Name → Option ℕ

abbrev pub view : Map ℕ → View
view ch name = lookup name ch

-- The map with another value for a name.
abbrev pub assign : Name → Option ℕ → View → View
assign name v f k = if name_eq k name then v else f k

pub data DirOp : Type 0 where
  add : Name → ℕ → DirOp
  update : Name → ℕ → DirOp
  remove : Name → DirOp

-- What the operations may do to a map, with the code that they return.
pub data Step (f : View) : DirOp → Code → View → Type 0 where
  added :
      (name : Name) (ino : ℕ)
      → f name ≡ none
      → Step f (add name ino) success (assign name (some ino) f)
  exists : (name : Name) (ino : ℕ) → f name ≢ none → Step f (add name ino) (minus eexist) f
  no_space : (name : Name) (ino : ℕ) → f name ≡ none → Step f (add name ino) (minus enospc) f
  updated :
      (name : Name) (ino : ℕ)
      → f name ≢ none
      → Step f (update name ino) success (assign name (some ino) f)
  not_there : (name : Name) (ino : ℕ) → f name ≡ none → Step f (update name ino) (minus enoent) f
  removed : (name : Name) → f name ≢ none → Step f (remove name) success (assign name none f)
  missing : (name : Name) → f name ≡ none → Step f (remove name) (minus enoent) f

pub data Run : View → List DirOp → List Code → View → Type 0 where
  finished : {f : View} → Run f [] [] f
  step :
      {f : View} {op : DirOp} {c : Code} {g : View} {ops : List DirOp} {cs : List Code} {h : View}
      → Step f op c g
      → Run g ops cs h
      → Run f (op ∷ ops) (c ∷ cs) h

-- The methods of the directory at a number, one and several in turn.
unfoldable pub run_op : Abi → ℕ → DirOp → M Code
run_op abi this (add name ino) = add_child abi this name ino
run_op abi this (update name ino) = update_child this name ino
run_op abi this (remove name) = remove_child abi this name

unfoldable pub run_ops : Abi → ℕ → List DirOp → M (List Code)
run_ops abi this [] = pure []
run_ops abi this (op ∷ ops) = do c ← run_op abi this op; cs ← run_ops abi this ops; pure (c ∷ cs)

-- The bytes that the additions ask for.
abbrev pub growth_of : Abi → DirOp → ℕ
growth_of abi (add name ino) = elem_size abi name
growth_of abi _ = 0

unfoldable pub growth : Abi → List DirOp → ℕ
growth abi [] = 0
growth abi (op ∷ ops) = growth_of abi op + growth abi ops
