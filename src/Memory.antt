-- ===== src/Memory.antt =====
-- The C library's copies into a buffer, as lists of bytes: `memcpy` and `memset` of <cstring>. A
-- copy that leaves the buffer is a fault.
use fuse_cpp_ramfs.Base.{
  take-append, drop-take-append, ℕ, ◌+◌, ◌≤◌, ◌≡◌, Option, none, some, List, ◌++◌, arith, length,
  take, drop, leb, if◌then◌else◌, length-append, length-take, length-drop,
}

-- `memcpy(buf + off, bytes, size)`
unfoldable pub splice : ℕ → List ℕ → List ℕ → Option (List ℕ)
splice off bytes buf =
    if leb (off + length bytes) (length buf)
    then some (take off buf ++ (bytes ++ drop (off + length bytes) buf))
    else none

pub splice_fits :
    (off : ℕ) (bytes buf : List ℕ)
    → off + length bytes ≤ length buf
    → (splice off bytes buf ≡ some (take off buf ++ (bytes ++ drop (off + length bytes) buf)))
      × (length (take off buf ++ (bytes ++ drop (off + length bytes) buf)) ≡ length buf)
unfolding splice
splice_fits off bytes buf h = (
  ground arith,
  omega (
    arith,
    length-append (take off buf) (bytes ++ drop (off + length bytes) buf),
    length-append bytes (drop (off + length bytes) buf),
    length-take off buf,
    length-drop (off + length bytes) buf,
  ),
)

-- The buffer after a copy that fits.
abbrev pub spliced : ℕ → List ℕ → List ℕ → List ℕ
spliced off bytes buf = take off buf ++ (bytes ++ drop (off + length bytes) buf)

pub splice-spliced :
    (off : ℕ) (bytes buf : List ℕ)
    → off + length bytes ≤ length buf
    → splice off bytes buf ≡ some (spliced off bytes buf)
splice-spliced off bytes buf h = (splice_fits off bytes buf h).0

pub length-spliced :
    (off : ℕ) (bytes buf : List ℕ)
    → off + length bytes ≤ length buf
    → length (spliced off bytes buf) ≡ length buf
length-spliced off bytes buf h = (splice_fits off bytes buf h).1

-- What a read finds where bytes were copied to.
pub take-drop-spliced :
    (n off : ℕ) (bytes buf : List ℕ)
    → off + length bytes ≤ length buf
    → n ≤ length bytes
    → take n (drop off (spliced off bytes buf)) ≡ take n bytes
take-drop-spliced n off bytes buf h k =
    rw (drop-take-append off buf (bytes ++ drop (off + length bytes) buf) (omega arith))
      (take-append n bytes (drop (off + length bytes) buf) k)
