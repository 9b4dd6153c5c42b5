-- ===== src/Options/Cmdline/Runs.antt =====
-- `ramfs_parse_cmdline` of src/util.cpp on the arguments `PROGRAM -oKEY=VALUE MOUNTPOINT`.
use fuse_cpp_ramfs.Base.{
  ℕ, zero, suc, ◌+◌, ◌≤◌, ◌<◌, ◌≡◌, refl, Bool, true, false, none, some, List, [], ◌∷◌, ◌++◌,
  length, take, min, ◌==◌, if◌then◌else◌, Name, arith, le→ltb_false, name_eq, name_eq_refl, ◌/◌,
}
use fuse_cpp_ramfs.Options.{null, text, freed, FuseRamfsOptions, done, freed_access, found}
use fuse_cpp_ramfs.Register.{new_fs}
use fuse_cpp_ramfs.Options.Number.{size_str_to_number}
use fuse_cpp_ramfs.Options.Parse.{
  Out, take_option, set_capacity, set_subtype, verify, parse_options, size_key, subtype_key, same,
}
use fuse_cpp_ramfs.Base.{Without}
use fuse_cpp_ramfs.Options.Parse.Known.{parse_options-known}
use fuse_cpp_ramfs.Options.Args.{FuseArgs, erase_arg, shift_args}
use fuse_cpp_ramfs.Options.Cmdline.{
  Getopt, Libraries, Cmd, follow, arg, c_string, release, o_switch, keep_optstr, case_o, start,
  take_letter, take_letters, ramfs_set_subtype, subtype_switch, default_subtype, take_mountpoint,
  erase_marked, finish, ramfs_parse_cmdline, no_options, core,
}

-- What `getopt` answers for these arguments: the option, and then -1 at the mount point.
abbrev pub one_option : List Getopt
one_option =
    (λ args optind. record { letter = some b'o'; optind = 2; argv = args.argv })
    ∷ (λ args optind. record { letter = none; optind = 2; argv = args.argv })
    ∷ []

abbrev pub three_args : Name → Name → Name → FuseArgs
three_args program optstr mp = record {
  argc = 3;
  argv = text program ∷ text optstr ∷ text mp ∷ [];
  allocated = true;
}

-- "-oKEY=VALUE"
abbrev pub assignment : Name → Name → Name
assignment key value = b'-' ∷ b'o' ∷ (key ++ b'=' ∷ value)

c_string-zero : (n : ℕ) (cs : List ℕ) → 0 < n → c_string n (0 ∷ cs) ≡ done []
unfolding c_string
c_string-zero zero cs h = absurd (omega arith)
c_string-zero (suc n) cs h = refl

if_zero : (b : Bool) → ◌≡◌ {A = ℕ} (if b then 0 else 0) 0
if_zero true = refl
if_zero false = refl

-- The option is read, and its argument is marked.
module _ (lib : Libraries) (program optstr mp : Name) (opt : FuseRamfsOptions) (rest : List ℕ)
    (pos : 0 < lib.option_max) (short : length optstr ≤ lib.option_max)
    (parsed : parse_options lib.option_max lib.fresh optstr no_options
      ≡ done (0 ∷ 0 ∷ rest, opt)) where
  abbrev pub marked : Cmd
  marked = record {
    args = three_args program optstr mp;
    options = record opt { subtype = release opt.subtype; optstr = 0 ∷ 0 ∷ rest };
    optind = 2;
    argo_idx = 1;
    o_idx1 = 0;
  }

  pub take_letters-marked :
      take_letters lib one_option (start (three_args program optstr mp) no_options) ≡ done marked
  unfolding take_letters take_letter case_o arg follow keep_optstr
  take_letters-marked = rw (le→ltb_false lib.option_max (length optstr) short) (
      rw parsed (
        rw (c_string-zero lib.option_max (0 ∷ rest) pos)
          (rw (if_zero (same lib.option_max program o_switch)) refl)))

-- `fuse_opt_add_arg` puts an argument behind the others, with a null pointer behind it.
abbrev pub AddsArg : Libraries → Type 0
AddsArg lib =
    (args : FuseArgs) (s : Name)
    → lib.fuse_opt_add_arg args s
      ≡ record args { argc = args.argc + 1; argv = take args.argc args.argv ++ text s ∷ null ∷ [] }

same_refl : (n : ℕ) (s : Name) → same n s s ≡ true
same_refl n s = name_eq_refl (take n s)

size_known :
    (option_max : ℕ) (value : Name) (n : ℕ) (out : Out)
    → size_str_to_number option_max (0 ∷ []) value ≡ some n
    → take_option option_max size_key (some value) no_options out
      ≡ done (record no_options { capacity = n }, out)
unfolding take_option set_capacity
size_known option_max value n out e = rw (same_refl option_max size_key) (rw (e, found))

verify_size : (n : ℕ) → 1024 ≤ n → verify (record no_options { capacity = n }) ≡ done tt
unfolding verify
verify_size n h = ground arith

some_blocks : (n : ℕ) → 1024 ≤ n → (n / 512 == 0) ≡ false
some_blocks n h = ground arith

-- The capacity is that of the option, and the mount point and the default subtype are set.
module _ (lib : Libraries) (program : Name) (y : ℕ) (value mp : Name) (n : ℕ) where
  abbrev optstr : Name
  optstr = assignment size_key (y ∷ value)

  abbrev subtype_arg : Name
  subtype_arg =
      take (min (length (lib.basename program)) lib.option_max + 31)
        (subtype_switch ++ lib.basename program)

  -- With a size of at least 1024 that `SizeStr2Number` reads from a value without "=" and ",",
  -- memory of the size that is asked for, arguments that are no longer than `OPTION_MAX`, and a
  -- `fuse_opt_add_arg` that adds an argument at the end, where `getopt` answers with the option and
  -- then with the end at the mount point, the command line `PROGRAM -osize=VALUE MOUNTPOINT` is read: the capacity is that number and the file system gets its blocks of 512
  -- bytes, the mount point is set, and the arguments that are left are the program and its subtype.
  pub ramfs_parse_cmdline-size :
      ((k : ℕ) → length (lib.fresh k) ≡ k)
      → AddsArg lib
      → length optstr ≤ lib.option_max
      → length mp ≤ lib.option_max
      → Without b'=' (y ∷ value)
      → Without b',' (y ∷ value)
      → size_str_to_number lib.option_max (0 ∷ []) (y ∷ value) ≡ some n
      → 1024 ≤ n
      → (args : FuseArgs) × (options : FuseRamfsOptions) × (ramfs_parse_cmdline lib one_option
            (three_args program optstr mp)
            no_options
          ≡ done (args, options))
        × (options.capacity ≡ n)
        × ((core options).stbuf.f_blocks ≡ n / 512)
        × (options.mountpoint ≡ text mp)
        × (args.argc ≡ 2)
        × (take 2 args.argv ≡ text program ∷ text subtype_arg ∷ [])
  unfolding ramfs_parse_cmdline take_mountpoint arg follow erase_arg shift_args default_subtype
      ramfs_set_subtype finish erase_marked core new_fs
  ramfs_parse_cmdline-size sized adds short fits no_eq no_comma e big =
      let (rest, parsed) =
        parse_options-known lib.option_max lib.fresh b's' (b'i' ∷ b'z' ∷ b'e' ∷ []) y value
          no_options (record no_options { capacity = n }) sized (omega arith)
          (refl, (refl, (refl, (refl, tt)))) no_eq (refl, (refl, (refl, (refl, tt)))) no_comma
          (λ out. size_known lib.option_max (y ∷ value) n out e) (verify_size n big) in
      (
        record {
          argc = 2;
          argv = text program ∷ text subtype_arg ∷ null ∷ null ∷ [];
          allocated = true;
        },
        record {
          capacity = n;
          inodes = 0;
          deamonize = false;
          subtype = text (lib.basename program);
          mountpoint = text mp;
          optstr = 0 ∷ 0 ∷ rest;
        },
        rw
            (take_letters-marked lib program optstr mp (record no_options { capacity = n }) rest
              (omega arith) short parsed)
            (rw (le→ltb_false lib.option_max (length mp) fits) (rw adds)),
        refl,
        rw (some_blocks n big),
        refl,
        refl,
        refl,
      )

subtype_known :
    (option_max : ℕ) (value : Name) (out : Out)
    → 1 < option_max
    → take_option option_max subtype_key (some value) no_options out
      ≡ done (record no_options { subtype = text value }, out)
unfolding take_option set_subtype name_eq
subtype_known zero value out pos = absurd (omega arith)
subtype_known (suc zero) value out pos = absurd (omega arith)
subtype_known (suc (suc m)) value out pos = rw (same_refl (suc (suc m)) subtype_key)

-- With a subtype in the options, the arguments no longer than `OPTION_MAX`, a value without "=" and
-- ",", and memory of the size that is asked for, where `getopt` answers with the option and then with
-- the end at the mount point, the options of the command line `PROGRAM -osubtype=VALUE MOUNTPOINT` are
-- parsed with VALUE as the subtype. After the loop over the options the subtype points to memory that
-- has been given back, and the reading of the command line ends in an access to such memory.
pub ramfs_parse_cmdline-subtype :
    (lib : Libraries) (program : Name) (y : ℕ) (value mp : Name)
    → ((k : ℕ) → length (lib.fresh k) ≡ k)
    → length (assignment subtype_key (y ∷ value)) ≤ lib.option_max
    → length mp ≤ lib.option_max
    → Without b'=' (y ∷ value)
    → Without b',' (y ∷ value)
    → let args = three_args program (assignment subtype_key (y ∷ value)) mp in
      (buf : List ℕ) × (opt : FuseRamfsOptions) × (s : Cmd) × (parse_options lib.option_max
          lib.fresh
          (assignment subtype_key (y ∷ value))
          no_options
        ≡ done (buf, opt))
      × (opt.subtype ≡ text (y ∷ value))
      × (take_letters lib one_option (start args no_options) ≡ done s)
      × (s.options.subtype ≡ freed)
      × (ramfs_parse_cmdline lib one_option args no_options ≡ freed_access)
unfolding ramfs_parse_cmdline take_mountpoint arg follow erase_arg shift_args default_subtype finish
    erase_marked
ramfs_parse_cmdline-subtype lib program y value mp sized short fits no_eq no_comma =
    let (rest, parsed) =
      parse_options-known lib.option_max lib.fresh b's'
        (b'u' ∷ b'b' ∷ b't' ∷ b'y' ∷ b'p' ∷ b'e' ∷ []) y value no_options
        (record no_options { subtype = text (y ∷ value) }) sized (omega arith)
        (refl, (refl, (refl, (refl, (refl, (refl, (refl, tt))))))) no_eq
        (refl, (refl, (refl, (refl, (refl, (refl, (refl, tt))))))) no_comma
        (λ out. subtype_known lib.option_max (y ∷ value) out (omega arith)) refl in
    let letters =
      take_letters-marked lib program (assignment subtype_key (y ∷ value)) mp
        (record no_options { subtype = text (y ∷ value) }) rest (omega arith) short parsed in
    (
      0 ∷ 0 ∷ rest,
      record no_options { subtype = text (y ∷ value) },
      marked lib program (assignment subtype_key (y ∷ value)) mp
          (record no_options { subtype = text (y ∷ value) }) rest (omega arith) short parsed,
      parsed,
      refl,
      letters,
      refl,
      rw letters (rw (le→ltb_false lib.option_max (length mp) fits) refl),
    )
