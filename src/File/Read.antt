-- ===== src/File/Read.antt =====
-- `File::ReadAndReply` of src/file.cpp on a well-formed file, alone and after a write.
use fuse_cpp_ramfs.Base.{
  ltb→lt, le→leb, le_of_ltb-false, ℕ, ◌+◌, ◌-◌, ◌^◌, ◌≤◌, ◌<◌, ◌≡◌, ◌∙◌, false, some, List, [], ◌∷◌,
  length, take, drop, arith, ltb, if◌then◌else◌, inl, inr, Bool-cases, signed_lt, add64, sub64, min,
}
use fuse_cpp_ramfs.State.{Inode, Fs, Env, reply_buf}
use fuse_cpp_ramfs.Table.{change_inode}
use fuse_cpp_ramfs.Space.{size}
use fuse_cpp_ramfs.Attr.{with_attr, has_no_links}
use fuse_cpp_ramfs.Handlers.Enter.{with_live-found}
use fuse_cpp_ramfs.Handlers.Data.{read_and_reply, fuse_read}
use fuse_cpp_ramfs.File.{file_read_from, file_read, touch_atim}
use fuse_cpp_ramfs.File.Layout.{IsFile, FileAt, on_file-FileAt}

-- The state that a read leaves: the access time is set unless the read starts past the end.
abbrev pub after_read : Env → ℕ → Inode → ℕ → Fs → Fs
after_read env this i off fs =
    if ltb (size i) off then fs else change_inode this (with_attr (touch_atim env.now)) fs

signed_small : (a b : ℕ) → a < 2 ^ 63 → b < 2 ^ 63 → signed_lt a b ≡ ltb a b
signed_small a b h k = ground arith

-- The number of bytes that the source computes is that of the bytes before the end of the file.
bytes_read :
    (total off count : ℕ)
    → off ≤ total
    → off + count < 2 ^ 62
    → total < 2 ^ 63
    → (if ltb total (add64 off count) then sub64 total off else count) ≡ min count (total - off)
unfolding add64 sub64
bytes_read total off count h k l = ground arith

file_read_from-FileAt :
    (env : Env) (fs : Fs) (this : ℕ) (i : Inode) (buf : List ℕ) (count off : ℕ)
    → IsFile i buf
    → off + count < 2 ^ 62
    → file_read_from env this i buf count off fs
      ≡ some (
        reply_buf (take (min count (size i - off)) (drop off buf)) ∷ [],
        after_read env this i off fs,
      )
unfolding file_read_from
file_read_from-FileAt env fs this i buf count off l h =
    rw (signed_small (size i) off (omega (arith, l.room, l.fits, l.small)) (omega arith))
      (elim (Bool-cases (ltb (size i) off)) [
        | inl past ↦ rw (past, none_left (ltb→lt _ _ past))
        | inr inside ↦
            rw
              (
                inside,
                bytes_read (size i) off count (ground arith) h
                    (omega (arith, l.room, l.fits, l.small)),
              )
              (rw (
                le→leb (off + min count (size i - off)) (length buf)
                  (omega (arith, l.fits, le_of_ltb-false (size i) off inside))))
      ])
  where
    none_left : size i < off → min count (size i - off) ≡ 0
    none_left past = omega arith

-- A read of a well-formed file with links that ends below 2^62 sends the bytes from the offset on, as many as
-- were asked for and as stand before the end of the file. It does not fault, and changes no more
-- than the access time.
pub fuse_read-FileAt :
    (env : Env) (fs : Fs) (this : ℕ) (i : Inode) (buf : List ℕ) (count off : ℕ)
    → FileAt fs this i buf
    → has_no_links i ≡ false
    → off + count < 2 ^ 62
    → fuse_read env this count off fs
      ≡ some (
        reply_buf (take (min count (size i - off)) (drop off buf)) ∷ [],
        after_read env this i off fs,
      )
unfolding fuse_read read_and_reply file_read
fuse_read-FileAt env fs this i buf count off at links h =
    with_live-found this (λ j. read_and_reply env this j.kind count off) fs i at.found links
    ∙ rw at.is_file (on_file-FileAt this (λ j b. file_read_from env this j b count off) fs i buf at)
    ∙ file_read_from-FileAt env fs this i buf count off at.layout h
