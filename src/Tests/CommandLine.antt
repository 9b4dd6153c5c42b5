-- ===== src/Tests/CommandLine.antt =====
-- The options of src/util.cpp on concrete command lines.
use fuse_cpp_ramfs.Base.{
  ℕ, ◌+◌, ◌*◌, ◌^◌, ◌%◌, ◌/◌, ◌≡◌, refl, true, some, List, [], ◌∷◌, ◌++◌, length, take, drop,
  replicate, name_eq, Name, word_mod, length-replicate, arith,
}
use fuse_cpp_ramfs.Options.{text, null, freed, done, freed_access, unfinished, FuseRamfsOptions}
use fuse_cpp_ramfs.Options.Number.{unit_of, size_str_to_number}
use fuse_cpp_ramfs.Options.Number.Digits.{decimal}
use fuse_cpp_ramfs.Options.Number.Laws.{
  suffix_text, size_str_to_number-decimal, size_str_to_number-malformed,
}
use fuse_cpp_ramfs.Options.Parse.{
  tokens, prefix_of, verify, parse_options, parse_rounds, size_key, subtype_key,
}
use fuse_cpp_ramfs.Options.Parse.Safe.{Parsed, parse_options-Parsed}
use fuse_cpp_ramfs.Options.Parse.Copied.{copies, parse_options-copied}
use fuse_cpp_ramfs.Options.Parse.Endless.{parse_rounds-unfinished}
use fuse_cpp_ramfs.Options.Args.{FuseArgs, erase_arg}
use fuse_cpp_ramfs.Options.Args.Laws.{erase_arg-append}
use fuse_cpp_ramfs.Options.Cmdline.{
  Libraries, Cmd, start, take_letters, subtype_switch, ramfs_parse_cmdline, no_options, core,
}
use fuse_cpp_ramfs.Options.Cmdline.Runs.{
  one_option, three_args, assignment, ramfs_parse_cmdline-size, ramfs_parse_cmdline-subtype,
}

-- "16"
abbrev sixteen : Name
sixteen = b'1' ∷ b'6' ∷ []

-- "16k "
size_str_to_number-decimal_example :
    size_str_to_number 100 (0 ∷ []) (sixteen ++ suffix_text (some b'k') ++ replicate 1 b' ')
    ≡ some ((decimal 0 sixteen * 2 ^ 10) % word_mod)
unfolding unit_of
size_str_to_number-decimal_example =
    size_str_to_number-decimal 100 (0 ∷ []) sixteen (some b'k') (2 ^ 10) 1 (refl, (refl, tt))
      (omega arith) refl (omega arith)

-- "1x6M"
size_str_to_number-malformed_example :
    size_str_to_number 100
      (0 ∷ [])
      (((b'1' ∷ []) ++ b'x' ∷ b'6' ∷ []) ++ suffix_text (some b'M') ++ replicate 0 b' ')
    ≡ some 0
unfolding unit_of
size_str_to_number-malformed_example =
    size_str_to_number-malformed 100 (0 ∷ []) (b'1' ∷ []) b'x' (b'6' ∷ []) (some b'M') (2 ^ 20) 0
      refl (refl, tt) (λ _. omega arith) refl (omega arith)

abbrev fresh : ℕ → List ℕ
fresh n = replicate n 7

fresh-length : (n : ℕ) → length (fresh n) ≡ n
fresh-length n = length-replicate {A = ℕ} n 7

-- "inodes=9,ro"
abbrev two_options : Name
two_options = b'i' ∷ b'n' ∷ b'o' ∷ b'd' ∷ b'e' ∷ b's' ∷ b'=' ∷ b'9' ∷ b',' ∷ b'r' ∷ b'o' ∷ []

parse_options-Parsed_example :
    Parsed 14 (parse_options 100 fresh (b'-' ∷ b'o' ∷ two_options) no_options)
unfolding prefix_of tokens
parse_options-Parsed_example =
    parse_options-Parsed 100 fresh (b'-' ∷ b'o' ∷ two_options) (b'-' ∷ b'o' ∷ []) two_options
      no_options fresh-length (omega arith) refl (omega arith) ((λ e. cc), ((λ e. cc), tt))

-- "-oro,a=b", of which "-oro,a=b," is copied.
abbrev ro_ab : Name
ro_ab = b'r' ∷ b'o' ∷ b',' ∷ b'a' ∷ b'=' ∷ b'b' ∷ []

parse_options-copied_example :
    let out =
      (b'-' ∷ b'o' ∷ []) ++ copies 100 ((b'r' ∷ b'o' ∷ []) ∷ (b'a' ∷ b'=' ∷ b'b' ∷ []) ∷ []) in
    parse_options 100 fresh (b'-' ∷ b'o' ∷ ro_ab) no_options
    ≡ done (out ++ drop (length out) (fresh 9), no_options)
unfolding prefix_of tokens verify name_eq
parse_options-copied_example =
    parse_options-copied 100 fresh (b'-' ∷ b'o' ∷ ro_ab) (b'-' ∷ b'o' ∷ []) ro_ab no_options
      (b'r' ∷ b'o' ∷ []) ((b'a' ∷ b'=' ∷ b'b' ∷ []) ∷ []) fresh-length (omega arith) refl refl
      (
        (b'r' ∷ b'o' ∷ [], [], refl, refl, refl, refl),
        ((b'a' ∷ [], (b'b' ∷ []) ∷ [], refl, refl, refl, refl), tt),
      )
      refl

-- "-oro,=,x"
parse_rounds-unfinished_example :
    parse_rounds 1000 100 fresh
      (b'-' ∷ b'o' ∷ b'r' ∷ b'o' ∷ b',' ∷ b'=' ∷ b',' ∷ b'x' ∷ [])
      no_options
    ≡ unfinished
unfolding prefix_of tokens
parse_rounds-unfinished_example =
    parse_rounds-unfinished 1000 100 fresh
      (b'-' ∷ b'o' ∷ b'r' ∷ b'o' ∷ b',' ∷ b'=' ∷ b',' ∷ b'x' ∷ []) (b'-' ∷ b'o' ∷ [])
      (b'r' ∷ b'o' ∷ b',' ∷ b'=' ∷ b',' ∷ b'x' ∷ []) no_options ((b'r' ∷ b'o' ∷ []) ∷ [])
      (b'=' ∷ []) ((b'x' ∷ []) ∷ []) fresh-length (omega arith) refl refl ((λ e. cc), tt) refl

-- "-b" between a program and a mount point.
erase_arg-append_example :
    let args : FuseArgs = record {
      argc = 3;
      argv = text (b'p' ∷ []) ∷ text (b'-' ∷ b'b' ∷ []) ∷ text (b'm' ∷ []) ∷ null ∷ [];
      allocated = true;
    } in
    (erase_arg args 1
      ≡ done (record {
        argc = 2;
        argv = text (b'p' ∷ []) ∷ text (b'm' ∷ []) ∷ null ∷ null ∷ [];
        allocated = true;
      }))
    × (erase_arg args 4 ≡ done args)
erase_arg-append_example =
    erase_arg-append (text (b'p' ∷ []) ∷ []) (text (b'-' ∷ b'b' ∷ [])) (text (b'm' ∷ []) ∷ [])
      (null ∷ []) true 1

-- Libraries that keep their promises.
abbrev libraries : Libraries
libraries = record {
  option_max = 100;
  fresh = fresh;
  basename = λ s. s;
  fuse_opt_add_arg = λ args s. record args {
    argc = args.argc + 1;
    argv = take args.argc args.argv ++ text s ∷ null ∷ [];
  };
}

-- "p -osize=16k m"
ramfs_parse_cmdline-size_example :
    (args : FuseArgs) × (options : FuseRamfsOptions) × (ramfs_parse_cmdline libraries one_option
        (three_args (b'p' ∷ []) (assignment size_key (b'1' ∷ b'6' ∷ b'k' ∷ [])) (b'm' ∷ []))
        no_options
      ≡ done (args, options))
    × (options.capacity ≡ 16384)
    × ((core options).stbuf.f_blocks ≡ 16384 / 512)
    × (options.mountpoint ≡ text (b'm' ∷ []))
    × (args.argc ≡ 2)
    × (take 2 args.argv ≡ text (b'p' ∷ []) ∷ text (take 32 (subtype_switch ++ b'p' ∷ [])) ∷ [])
unfolding size_str_to_number
ramfs_parse_cmdline-size_example =
    ramfs_parse_cmdline-size libraries (b'p' ∷ []) b'1' (b'6' ∷ b'k' ∷ []) (b'm' ∷ []) 16384
      fresh-length (λ args s. refl) (omega arith) (omega arith) (refl, (refl, (refl, tt)))
      (refl, (refl, (refl, tt))) refl (omega arith)

-- "p -osubtype=ab m"
ramfs_parse_cmdline-subtype_example :
    let optstr = assignment subtype_key (b'a' ∷ b'b' ∷ []) in
    let args = three_args (b'p' ∷ []) optstr (b'm' ∷ []) in
    (buf : List ℕ) × (opt : FuseRamfsOptions) × (s : Cmd) × (parse_options 100 fresh optstr
        no_options
      ≡ done (buf, opt))
    × (opt.subtype ≡ text (b'a' ∷ b'b' ∷ []))
    × (take_letters libraries one_option (start args no_options) ≡ done s)
    × (s.options.subtype ≡ freed)
    × (ramfs_parse_cmdline libraries one_option args no_options ≡ freed_access)
ramfs_parse_cmdline-subtype_example =
    ramfs_parse_cmdline-subtype libraries (b'p' ∷ []) b'a' (b'b' ∷ []) (b'm' ∷ []) fresh-length
      (omega arith) (omega arith) (refl, (refl, tt)) (refl, (refl, tt))
