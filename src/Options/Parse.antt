-- ===== src/Options/Parse.antt =====
-- `ramfs_parse_options` of src/util.cpp.
pub mod Fits
pub mod Safe
pub mod Endless
pub mod Known
pub mod Written
pub mod Copied
use fuse_cpp_ramfs.Base.{
  ℕ, zero, suc, ◌+◌, ◌-◌, ◌<◌, Bool, true, false, not, ◌&&◌, ◌||◌, Option, none, some, List, [],
  ◌∷◌, ◌++◌, length, take, set, get_elem?, ◌==◌, ltb, if◌then◌else◌, min, Name, name_eq, pieces,
}
use fuse_cpp_ramfs.Memory.{splice}
use fuse_cpp_ramfs.Options.{
  text, FuseRamfsOptions, Result, done, fault, unfinished, exit, ◌>>=◌, ◌>>◌, found,
}
use fuse_cpp_ramfs.Options.Number.{size_str_to_number}

-- `strncmp(a, b, n) == 0`
abbrev pub same : ℕ → Name → Name → Bool
same n a b = name_eq (take n a) (take n b)

unfoldable pub nonempty : List Name → List Name
nonempty [] = []
nonempty ([] ∷ ps) = nonempty ps
nonempty ((c ∷ p) ∷ ps) = (c ∷ p) ∷ nonempty ps

-- What the calls of `strtok_r` for a string give in turn: its parts that are not empty.
unfoldable pub tokens : ℕ → Name → List Name
unfolding pieces nonempty
tokens delim str = nonempty (pieces delim str)

-- The new buffer, and how far it is written: `newopt` and `ptr`.
abbrev pub Out : Type 0
Out = List ℕ × ℕ

-- Bytes that are written at `ptr`.
unfoldable pub put : List ℕ → Out → Result Out
unfolding splice
put bytes (buf, ptr) = elim (splice ptr bytes buf) [
  | none ↦ fault
  | some buf' ↦ done (buf', ptr + length bytes)
]

-- The loop that looks for the `o` of the switches: what it passes, and the rest. `none` is that it
-- passes the end of the string.
unfoldable pub switches : Name → Option (Name × Name)
switches [] = none
switches (c ∷ cs) =
    if c == b'o'
    then some (c ∷ [], cs)
    else (elim (switches cs) [ none ↦ none | some (front, rest) ↦ some (c ∷ front, rest) ])

unfoldable pub prefix_of : Name → Option (Name × Name)
unfolding switches
prefix_of [] = some ([], [])
prefix_of (c ∷ cs) = if c == b'-' then switches (c ∷ cs) else some ([], c ∷ cs)

-- The keys.
abbrev pub size_key : Name
size_key = b's' ∷ b'i' ∷ b'z' ∷ b'e' ∷ []

abbrev pub inodes_key : Name
inodes_key = b'i' ∷ b'n' ∷ b'o' ∷ b'd' ∷ b'e' ∷ b's' ∷ []

abbrev pub subtype_key : Name
subtype_key = b's' ∷ b'u' ∷ b'b' ∷ b't' ∷ b'y' ∷ b'p' ∷ b'e' ∷ []

-- The second token of an option, if there is one.
abbrev pub value_of : List Name → Option Name
value_of [] = none
value_of (v ∷ vs) = some v

-- What is copied of an option that is not known.
unfoldable pub copied : ℕ → Name → Option Name → List ℕ
copied option_max key none = take option_max key ++ b',' ∷ []
copied option_max key (some value) =
    take option_max key ++ (b'=' ∷ (take option_max value ++ b',' ∷ []))

-- A number from the value of an option. Before the value stands a zero or a `=`, and neither is a
-- unit.
abbrev number : ℕ → Name → Result ℕ
number option_max value = found (size_str_to_number option_max (0 ∷ []) value)

unfoldable pub set_capacity : ℕ → FuseRamfsOptions → Option Name → Result FuseRamfsOptions
unfolding size_str_to_number
set_capacity option_max opt none = done opt
set_capacity option_max opt (some v) = do
  n ← number option_max v
  done (record opt { capacity = n })

unfoldable pub set_inodes : ℕ → FuseRamfsOptions → Option Name → Result FuseRamfsOptions
unfolding size_str_to_number
set_inodes option_max opt none = done opt
set_inodes option_max opt (some v) = do n ← number option_max v; done (record opt { inodes = n })

unfoldable pub set_subtype : FuseRamfsOptions → Option Name → FuseRamfsOptions
set_subtype opt none = opt
set_subtype opt (some v) = record opt { subtype = text v }

-- An option that is known is kept, and any other is copied.
unfoldable pub take_option :
    ℕ → Name → Option Name → FuseRamfsOptions → Out → Result (FuseRamfsOptions × Out)
unfolding set_capacity set_inodes set_subtype copied put
take_option option_max key value opt out =
    if same option_max key size_key
    then (do opt' ← set_capacity option_max opt value; done (opt', out))
    else if same option_max key inodes_key
    then (do opt' ← set_inodes option_max opt value; done (opt', out))
    else if same option_max key subtype_key
    then done (set_subtype opt value, out)
    else (do out' ← put (copied option_max key value) out; done (opt, out'))

-- What is left for the next round: the tokens, with what an option has made of the rest.
abbrev pub next :
    List Name → Result (FuseRamfsOptions × Out) → Result (List Name × (FuseRamfsOptions × Out))
next later r = r >>= λ s. done (later, s)

-- One round of the loop on a token, with the tokens that the next round has. Where the token holds no
-- key, `continue` leaves it: `strtok_r` has found only delimiters in it and has changed nothing.
unfoldable pub take_token :
    ℕ → Name → List Name → FuseRamfsOptions → Out → Result (List Name × (FuseRamfsOptions × Out))
unfolding tokens take_option
take_token option_max kvtoken later opt out = elim (tokens b'=' kvtoken) [
  | [] ↦ done (kvtoken ∷ later, (opt, out))
  | key ∷ rest ↦ next later (take_option option_max key (value_of rest) opt out)
]

-- The loop, where no more than the given number of rounds is looked at.
unfoldable pub take_tokens :
    ℕ → ℕ → List Name → FuseRamfsOptions → Out → Result (FuseRamfsOptions × Out)
unfolding take_token
take_tokens zero option_max kvtokens opt out = unfinished
take_tokens (suc rounds) option_max [] opt out = done (opt, out)
take_tokens (suc rounds) option_max (t ∷ ts) opt out =
    take_token option_max t ts opt out >>= λ r. take_tokens rounds option_max r.0 r.1.0 r.1.1

-- The values that are too small.
unfoldable pub verify : FuseRamfsOptions → Result (Unit {0})
verify opt =
    if ltb 0 opt.capacity && ltb opt.capacity 1024
    then exit 1
    else if ltb 0 opt.inodes && ltb opt.inodes 2
    then exit 1
    else done tt

-- The character before the one that `ptr` points at.
unfoldable pub last_byte : List ℕ → ℕ → Result ℕ
last_byte buf zero = fault
last_byte buf (suc ptr) = found (get_elem? buf ptr)

-- `-o` is erased where no option is left.
unfoldable pub erase_switch : Out → Result (List ℕ)
unfolding last_byte
erase_switch (buf, ptr) = do
  c ← last_byte buf ptr
  (if c == b'o'
      then (do
        d ← last_byte (set buf (ptr - 1) 0) (ptr - 1)
        done (if d == b'-' then set (set buf (ptr - 1) 0) (ptr - 2) 0 else set buf (ptr - 1) 0))
      else done buf)

-- `ramfs_parse_options`, with the memory that `new` gives for a buffer of a size, where no more than
-- the given number of rounds of its loop is looked at.
unfoldable pub parse_rounds :
    ℕ → ℕ → (ℕ → List ℕ) → Name → FuseRamfsOptions → Result (List ℕ × FuseRamfsOptions)
unfolding prefix_of put take_tokens verify erase_switch
parse_rounds rounds option_max fresh optstr opt = do
  parts ← found (prefix_of optstr)
  out ← put (parts.0) (fresh (min (length optstr) option_max + 1), 0)
  read ← take_tokens rounds option_max (tokens b',' (parts.1)) opt out
  verify (read.0)
  buf ← erase_switch (read.1)
  done (buf, read.0)

-- The same with more rounds than a string has tokens: where a loop over tokens with keys ends.
unfoldable pub parse_options :
    ℕ → (ℕ → List ℕ) → Name → FuseRamfsOptions → Result (List ℕ × FuseRamfsOptions)
unfolding parse_rounds
parse_options option_max fresh optstr opt =
    parse_rounds (length optstr + 2) option_max fresh optstr opt
