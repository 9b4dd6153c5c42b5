-- ===== src/Options.antt =====
-- The options of the program: `fuse_ramfs_options` of src/util.hpp and the results of the functions
-- of src/util.cpp, which may end the process or not return.
pub mod Number
pub mod Parse
pub mod Args
pub mod Cmdline
use fuse_cpp_ramfs.Base.{ℕ, Bool, Option, none, some, List, Name}

-- A `char *`: null, a string, or a pointer to memory that has been given back.
pub data CharPtr : Type 0 where
  null : CharPtr
  text : Name → CharPtr
  freed : CharPtr

-- `_optstr` is the whole buffer that it points to; the empty list is a null pointer.
pub record FuseRamfsOptions : Type 0 where
  pub capacity : ℕ
  pub inodes : ℕ
  pub deamonize : Bool
  pub subtype : CharPtr
  pub mountpoint : CharPtr
  pub optstr : List ℕ

-- What a call comes to: a value, an access outside of a buffer or through a null pointer, one through
-- a pointer to memory that has been given back, a loop that has not ended after the rounds that are
-- looked at, or the end of the process with a status.
pub data Result (A : Type 0) : Type 0 where
  done : A → Result A
  fault : Result A
  freed_access : Result A
  unfinished : Result A
  exit : ℕ → Result A

infixl 5 ◌>>=◌ ◌>>◌
abbrev pub ◌>>=◌ : {A B : Type 0} → Result A → (A → Result B) → Result B
done a >>= f = f a
fault >>= f = fault
freed_access >>= f = freed_access
unfinished >>= f = unfinished
exit n >>= f = exit n

abbrev pub ◌>>◌ : {A B : Type 0} → Result A → Result B → Result B
m >> k = m >>= λ _. k

-- A value that is there, or a fault.
abbrev pub found : {A : Type 0} → Option A → Result A
found none = fault
found (some a) = done a
