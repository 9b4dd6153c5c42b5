-- ===== src/Options/Cmdline.antt =====
-- `ramfs_parse_cmdline` and `ramfs_set_subtype` of src/util.cpp, and the start of `main` in
-- src/main.cpp. What is printed is not modelled, but the strings that are printed are followed.
pub mod Runs
use fuse_cpp_ramfs.Base.{
  ℕ, zero, suc, ◌+◌, ◌-◌, ◌/◌, Bool, true, false, Option, none, some, List, [], ◌∷◌, ◌++◌, length,
  take, set, get_elem?, ◌==◌, ltb, leb, if◌then◌else◌, min, Name, name_eq,
}
use fuse_cpp_ramfs.State.{Fs}
use fuse_cpp_ramfs.Space.{buf_block_size}
use fuse_cpp_ramfs.Register.{new_fs}
use fuse_cpp_ramfs.Options.{
  CharPtr, null, text, freed, FuseRamfsOptions, Result, done, fault, freed_access, unfinished, exit,
  ◌>>=◌, ◌>>◌, found,
}
use fuse_cpp_ramfs.Options.Parse.{parse_options, same}
use fuse_cpp_ramfs.Options.Args.{FuseArgs, erase_arg}

-- What a call of `getopt` gives: the letter of an option, or `none` for -1, and `optind` and the
-- order of the arguments that it leaves. The call is given the arguments and `optind`.
pub record Found : Type 0 where
  pub letter : Option ℕ
  pub optind : ℕ
  pub argv : List CharPtr

abbrev pub Getopt : Type 0
Getopt = FuseArgs → ℕ → Found

-- `OPTION_MAX`, the memory that `new` gives for a size, `basename`, and `fuse_opt_add_arg`.
pub record Libraries : Type 0 where
  pub option_max : ℕ
  pub fresh : ℕ → List ℕ
  pub basename : Name → Name
  pub fuse_opt_add_arg : FuseArgs → Name → FuseArgs

pub record Cmd : Type 0 where
  pub args : FuseArgs
  pub options : FuseRamfsOptions
  pub optind : ℕ
  pub argo_idx : ℕ
  pub o_idx1 : ℕ

-- The string that a pointer points to.
unfoldable pub follow : CharPtr → Result Name
follow null = fault
follow (text s) = done s
follow freed = freed_access

unfoldable pub arg : FuseArgs → ℕ → Result Name
unfolding follow
arg args i = elim (get_elem? args.argv i) [ none ↦ fault | some p ↦ follow p ]

-- The string in a buffer up to its zero, of which at most `n` characters are read.
unfoldable pub c_string : ℕ → List ℕ → Result Name
c_string zero buf = done []
c_string (suc n) [] = fault
c_string (suc n) (c ∷ cs) = elim (c == 0) [
  | true ↦ done []
  | false ↦ c_string n cs >>= λ s. done (c ∷ s)
]

-- Strings that point into a buffer, when it is given back.
abbrev pub release : CharPtr → CharPtr
release null = null
release (text s) = freed
release freed = freed

abbrev pub o_switch : Name
o_switch = b'-' ∷ b'o' ∷ []

-- The option string is left empty, and is marked to be erased, or it takes the place of its
-- argument.
unfoldable pub keep_optstr : ℕ → Name → Cmd → Result Cmd
unfolding arg
keep_optstr option_max [] s = if ltb s.optind 2 then fault else (do
  before ← arg s.args (s.optind - 2)
  done (record s {
    argo_idx = s.optind - 1;
    o_idx1 = if same option_max before o_switch then s.optind - 2 else s.o_idx1;
  }))
keep_optstr option_max (c ∷ cs) s =
    done (record s {
      args = record (s.args) { argv = set s.args.argv (s.optind - 1) (text (c ∷ cs)) };
    })

-- The case `o`: the argument is copied, parsed, and the copy is given back.
unfoldable pub case_o : Libraries → Cmd → Result Cmd
unfolding arg parse_options c_string keep_optstr
case_o lib s = if s.optind == 0 then fault else (do
  optstr ← arg s.args (s.optind - 1)
  (if ltb lib.option_max (length optstr) then fault else (do
    parsed ← parse_options lib.option_max lib.fresh optstr s.options
    left ← c_string lib.option_max (parsed.0)
    keep_optstr lib.option_max left (record s {
      options = record (parsed.1) { subtype = release (parsed.1.subtype); optstr = parsed.0 };
    }))))

-- The case `b`.
unfoldable pub case_b : Cmd → Result Cmd
unfolding erase_arg
case_b s = if s.optind == 0 then fault else (do
  args ← erase_arg s.args (s.optind - 1)
  done (record s {
    args = args;
    options = record (s.options) { deamonize = true };
    optind = s.optind - 1;
  }))

unfoldable pub take_letter : Libraries → ℕ → Cmd → Result Cmd
unfolding case_o case_b
take_letter lib c s = if c == b'o' then case_o lib s else if c == b'b' then case_b s else done s

-- The loop over the answers of `getopt`, of which those in the list are looked at.
unfoldable pub take_letters : Libraries → List Getopt → Cmd → Result Cmd
unfolding take_letter
take_letters lib [] s = unfinished
take_letters lib (g ∷ gs) s =
    let f = g s.args s.optind in
    let s' = record s { args = record (s.args) { argv = f.argv }; optind = f.optind } in
    elim f.letter [ none ↦ done s' | some c ↦ take_letter lib c s' >>= take_letters lib gs ]

-- "-osubtype="
abbrev pub subtype_switch : Name
subtype_switch = b'-' ∷ b'o' ∷ b's' ∷ b'u' ∷ b'b' ∷ b't' ∷ b'y' ∷ b'p' ∷ b'e' ∷ b'=' ∷ []

-- `ramfs_set_subtype`: `snprintf` fills a buffer of 32 characters more than the name.
unfoldable pub ramfs_set_subtype : Libraries → FuseArgs → Name → FuseArgs
ramfs_set_subtype lib args subtype =
    lib.fuse_opt_add_arg args
      (take (min (length subtype) lib.option_max + 31) (subtype_switch ++ subtype))

-- The subtype is the name of the program where no option has set it.
unfoldable pub default_subtype : Libraries → Cmd → Result Cmd
unfolding arg ramfs_set_subtype
default_subtype lib s = elim s.options.subtype [
  | null ↦ do
    program ← arg s.args 0
    let name = lib.basename program
    done (record s {
      args = ramfs_set_subtype lib s.args name;
      options = record (s.options) { subtype = text name };
    })
  | text v ↦ done s
  | freed ↦ done s
]

-- The mount point: the one argument that is left. A copy with no zero, where the argument is longer
-- than `OPTION_MAX`, is followed at the end.
unfoldable pub take_mountpoint : Libraries → Cmd → Result Cmd
unfolding arg erase_arg default_subtype
take_mountpoint lib s =
    if leb s.args.argc s.optind
    then exit 1
    else if s.optind == s.args.argc - 1
    then (do
      mp ← arg s.args s.optind
      (if ltb lib.option_max (length mp) then fault else (do
        args ← erase_arg s.args s.optind
        default_subtype lib
            (record s { args = args; options = record (s.options) { mountpoint = text mp } }))))
    else exit 1

-- An index that is not zero is erased.
unfoldable pub erase_marked : FuseArgs → ℕ → Result FuseArgs
unfolding erase_arg
erase_marked args index = if index == 0 then done args else erase_arg args index

-- The end: the marked arguments are erased, and the strings are printed.
unfoldable pub finish : Cmd → Result (FuseArgs × FuseRamfsOptions)
unfolding erase_marked follow
finish s = do
  args ← erase_marked s.args s.argo_idx
  args' ← erase_marked args s.o_idx1
  follow s.options.subtype
  follow s.options.mountpoint
  done (args', s.options)

-- The variables at the start; `optind` is 1 before the first call of `getopt`.
abbrev pub start : FuseArgs → FuseRamfsOptions → Cmd
start args options = record { args = args; options = options; optind = 1; argo_idx = 0; o_idx1 = 0 }

-- `ramfs_parse_cmdline`
unfoldable pub ramfs_parse_cmdline :
    Libraries → List Getopt → FuseArgs → FuseRamfsOptions → Result (FuseArgs × FuseRamfsOptions)
unfolding take_letters take_mountpoint finish
ramfs_parse_cmdline lib gs args options = do
  s ← take_letters lib gs (start args options)
  s' ← take_mountpoint lib s
  finish s'

-- The options of `main` before the parsing, and the file system that it makes of them.
abbrev pub no_options : FuseRamfsOptions
no_options = record {
  capacity = 0;
  inodes = 0;
  deamonize = false;
  subtype = null;
  mountpoint = null;
  optstr = [];
}

unfoldable pub core : FuseRamfsOptions → Fs
unfolding new_fs
core options = new_fs (options.capacity / buf_block_size) options.inodes
