-- ===== src/Options/Args.antt =====
-- `fuse_args` and its changes: `erase_arg` of src/util.cpp and `copy_args` of src/main.cpp.
pub mod Laws
use fuse_cpp_ramfs.Base.{
  ℕ, zero, suc, ◌+◌, ◌-◌, Bool, Option, none, some, List, [], ◌∷◌, length, set, get_elem?, leb,
  if◌then◌else◌, Name,
}
use fuse_cpp_ramfs.Options.{CharPtr, null, text, Result, done, fault, found, ◌>>=◌}

-- `struct fuse_args`. The array may be longer than `argc`.
pub record FuseArgs : Type 0 where
  pub argc : ℕ
  pub argv : List CharPtr
  pub allocated : Bool

-- The loop that moves the arguments behind `i` to the front by one.
unfoldable pub shift_args : ℕ → ℕ → List CharPtr → Result (List CharPtr)
shift_args zero i argv = done argv
shift_args (suc rounds) i argv = elim (get_elem? argv (i + 1)) [
  | none ↦ fault
  | some p ↦ shift_args rounds (i + 1) (set argv i p)
]

-- `erase_arg`; the string is given back where `allocated` says so, and nothing else points to it.
unfoldable pub erase_arg : FuseArgs → ℕ → Result FuseArgs
unfolding shift_args
erase_arg args index = if leb args.argc index then done args else (do
  argv ← shift_args (args.argc - 1 - index) index args.argv
  done (record args { argc = args.argc - 1; argv = set argv (args.argc - 1) null }))

-- `copy_args`: the strings are copied, each with its zero.
unfoldable pub copy_args : List Name → List CharPtr
copy_args [] = []
copy_args (a ∷ as') = text a ∷ copy_args as'
