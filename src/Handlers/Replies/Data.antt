-- ===== src/Handlers/Replies/Data.antt =====
-- The number of replies of the handlers that make inodes and of those that read and write bytes and
-- extended attributes.
use Prim.Native.Nat.{bit_or}
use fuse_cpp_ramfs.Base.{◌/◌, ◌%◌, if◌then◌else◌}
use fuse_cpp_ramfs.Base.{
  ℕ, ltb, leb, ◌==◌, ◌+◌, refl, Bool, true, false, Option, none, some, List, length, inl, inr,
  Option-cases, not, Name, add64, mul64, sub64, signed_lt,
}
use fuse_cpp_ramfs.State.{Inode, Handler, Reply, Env, Abi, Kind, file, directory, symlink, special}
use fuse_cpp_ramfs.Table.{get_inode}
use fuse_cpp_ramfs.Space.{buf_block_size, used_blocks, size, check_has_space_for, get_free_inodes}
use fuse_cpp_ramfs.Attr.{reply_entry_of, reply_create_of}
use fuse_cpp_ramfs.Xattr.{set_xattr}
use fuse_cpp_ramfs.Directory.{child_inode_number, ino_notfound}
use fuse_cpp_ramfs.File.{
  file_write, file_read, on_file, buffer_of, file_write_to, file_read_from, store_bytes,
}
use fuse_cpp_ramfs.Memory.{splice}
use fuse_cpp_ramfs.Register.{Created, node, failed, do_create_node}
use fuse_cpp_ramfs.Handlers.Create.{s_ifreg, answer_created, make_node, fuse_create}
use fuse_cpp_ramfs.Handlers.Data.{
  write_and_reply, read_and_reply, fuse_write, fuse_read, fuse_setxattr,
}
use fuse_cpp_ramfs.Handlers.Replies.{
  Answers, Answers->>=, Answers-if, OneReply-if, Answers-with_live, Answers-with_children,
  Answers-call,
}

pub answer_created-Answers :
    (method : Inode → Inode × Reply) (c : Created) → Answers (answer_created method c)
unfolding answer_created
answer_created-Answers method (node ino) fs =
    Answers-if (ltb 0 ino) _ _ (Answers-call ino method) (λ fs'. refl) fs
answer_created-Answers method (failed code) fs = refl

pub make_node-Answers :
    (abi : Abi) (env : Env) (parent : ℕ) (name : Name) (mode rdev : ℕ)
    → Answers (make_node abi env parent name mode rdev)
unfolding make_node
make_node-Answers abi env parent name mode rdev = Answers-with_live parent _ λ p.
    Answers-with_children p _ λ ch fs. OneReply-if (get_free_inodes fs == 0) _ _ refl (
      OneReply-if (not (child_inode_number name ch == ino_notfound)) _ _ refl (
        Answers->>= (do_create_node abi env parent name mode rdev none)
          (answer_created reply_entry_of) (answer_created-Answers reply_entry_of) fs))

pub fuse_create-Answers :
    (abi : Abi) (env : Env) (parent : ℕ) (name : Name) (mode : ℕ)
    → Answers (fuse_create abi env parent name mode)
unfolding fuse_create
fuse_create-Answers abi env parent name mode = Answers-with_live parent _ λ p.
    Answers-with_children p _ λ ch.
      Answers->>= (do_create_node abi env parent name (bit_or mode s_ifreg) 0 none)
        (answer_created reply_create_of) (answer_created-Answers reply_create_of)

on_file-Answers :
    (this : ℕ) (k : Inode → List ℕ → Handler)
    → ((i : Inode) (buf : List ℕ) → Answers (k i buf))
    → Answers (on_file this k)
on_file-Answers this k h fs = elim (Option-cases (get_inode this fs)) [
  | inl e ↦ rw (e, on_file) tt
  | inr (i, e) ↦ elim (Option-cases (buffer_of i.kind)) [
    | inl b ↦ rw (e, on_file) (rw b tt)
    | inr (buf, b) ↦ rw (e, on_file) (rw b (h i buf fs))
  ]
]

store_bytes-Answers :
    (env : Env) (this : ℕ) (i : Inode) (buf : List ℕ) (grows : Bool) (bytes : List ℕ)
    (off new_size new_blocks : ℕ)
    → Answers (store_bytes env this i buf grows bytes off new_size new_blocks)
unfolding store_bytes
store_bytes-Answers env this i buf grows bytes off new_size new_blocks fs =
    elim (Option-cases (splice off bytes buf)) [
      | inl e ↦ rw (e, store_bytes) tt
      | inr (b, e) ↦ rw (e, store_bytes) (OneReply-if grows _ _ refl refl)
    ]

file_write_to-Answers :
    (env : Env) (this : ℕ) (i : Inode) (buf bytes : List ℕ) (off : ℕ)
    → Answers (file_write_to env this i buf bytes off)
unfolding file_write_to
file_write_to-Answers env this i buf bytes off fs =
    OneReply-if (ltb (mul64 buf_block_size (used_blocks i)) new_size) _ _
      (OneReply-if (not (check_has_space_for (some i) (sub64 new_size (size i)) fs)) _ _ refl
        (elim (Option-cases (env.realloc buf (mul64 new_blocks buf_block_size))) [
          | inl r ↦ rw r refl
          | inr (g, r) ↦
              rw r (store_bytes-Answers env this i g true bytes off new_size new_blocks fs)
        ]))
      (store_bytes-Answers env this i buf false bytes off new_size new_blocks fs)
  where
    new_size : ℕ
    new_size = add64 off (length bytes)

    new_blocks : ℕ
    new_blocks = new_size / buf_block_size + (if new_size % buf_block_size == 0 then 0 else 1)

file_read_from-Answers :
    (env : Env) (this : ℕ) (i : Inode) (buf : List ℕ) (count off : ℕ)
    → Answers (file_read_from env this i buf count off)
unfolding file_read_from
file_read_from-Answers env this i buf count off fs = OneReply-if (signed_lt (size i) off) _ _ refl (
    OneReply-if
      (leb (off + (if ltb (size i) (add64 off count) then sub64 (size i) off else count))
        (length buf))
      _ none refl tt)

write_and_reply-Answers :
    (env : Env) (ino : ℕ) (k : Kind) (bytes : List ℕ) (off : ℕ)
    → Answers (write_and_reply env ino k bytes off)
unfolding write_and_reply file_write
write_and_reply-Answers env ino (file buf) bytes off =
    on_file-Answers ino (λ i b. file_write_to env ino i b bytes off)
      λ i b. file_write_to-Answers env ino i b bytes off
write_and_reply-Answers env ino (directory ch) bytes off = λ fs. refl
write_and_reply-Answers env ino (symlink link) bytes off = λ fs. refl
write_and_reply-Answers env ino (special type) bytes off = λ fs. refl

read_and_reply-Answers :
    (env : Env) (ino : ℕ) (k : Kind) (count off : ℕ) → Answers (read_and_reply env ino k count off)
unfolding read_and_reply file_read
read_and_reply-Answers env ino (file buf) count off =
    on_file-Answers ino (λ i b. file_read_from env ino i b count off)
      λ i b. file_read_from-Answers env ino i b count off
read_and_reply-Answers env ino (directory ch) count off = λ fs. refl
read_and_reply-Answers env ino (symlink link) count off = λ fs. refl
read_and_reply-Answers env ino (special type) count off = λ fs. refl

pub fuse_write-Answers :
    (env : Env) (ino : ℕ) (bytes : Option (List ℕ)) (off : ℕ)
    → Answers (fuse_write env ino bytes off)
unfolding fuse_write
fuse_write-Answers env ino none off = λ fs. refl
fuse_write-Answers env ino (some bytes) off =
    Answers-with_live ino _ λ i. write_and_reply-Answers env ino i.kind bytes off

pub fuse_read-Answers : (env : Env) (ino count off : ℕ) → Answers (fuse_read env ino count off)
unfolding fuse_read
fuse_read-Answers env ino count off =
    Answers-with_live ino _ λ i. read_and_reply-Answers env ino i.kind count off

pub fuse_setxattr-Answers :
    (env : Env) (ino : ℕ) (name : Name) (value : List ℕ) (flags : ℕ)
    → Answers (fuse_setxattr env ino name value flags)
unfolding fuse_setxattr
fuse_setxattr-Answers env ino name value flags = Answers-with_live ino _ λ i fs.
    elim (Option-cases (set_xattr env name value flags 0 i)) [
      | inl c ↦ rw c tt
      | inr (r, c) ↦ rw c refl
    ]
