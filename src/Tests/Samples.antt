-- ===== src/Tests/Samples.antt =====
-- The file system of the tests is well formed, and its memory keeps its promises.
use fuse_cpp_ramfs.Base.{ℕ, ◌≡◌, refl, some, List, length, arith}
use fuse_cpp_ramfs.Base.{
  ◌++◌, replicate, ◌-◌, ◌∙◌, min, length-take, take-take, length-append, length-replicate,
  take-append, ◌<◌, ◌+◌, name_lt,
}
use fuse_cpp_ramfs.Table.Laws.{total}
use fuse_cpp_ramfs.Base.{◌^◌}
use fuse_cpp_ramfs.Table.{get_inode, slot}
use fuse_cpp_ramfs.Table.Invariant.{IsTable}
use fuse_cpp_ramfs.Space.{size}
use fuse_cpp_ramfs.Directory.{elem_size}
use fuse_cpp_ramfs.Directory.Size.{DirectoryAt, entries_size}
use fuse_cpp_ramfs.File.Layout.{FileAt, Reallocs}
use fuse_cpp_ramfs.Tests.Setup.{abi, env, sample, a_file, three_bytes, sub, entries, a_directory}

-- The memory that the environment gives.
some_inj : (a b : List ℕ) → some a ≡ some b → a ≡ b
some_inj a b e = cc

pub env-Reallocs : Reallocs env
env-Reallocs = record {
  sized = λ buf n buf' e. rw (← some_inj _ _ e) (
      omega (
        arith,
        length-take n (buf ++ replicate (n - length buf) 7),
        length-append buf (replicate (n - length buf) 7),
        length-replicate {A = ℕ} (n - length buf) 7,
      ));
  keeps = λ buf n buf' e. rw (← some_inj _ _ e) (
      take-take (min (length buf) n) n (buf ++ replicate (n - length buf) 7) (omega arith)
      ∙ take-append (min (length buf) n) buf (replicate (n - length buf) 7) (omega arith));
}

pub sample-FileAt : FileAt sample 2 a_file three_bytes
unfolding get_inode slot
sample-FileAt = record {
  found = refl;
  is_file = refl;
  layout = record { room = refl; fits = omega arith; small = omega arith };
}

pub sample-DirectoryAt : DirectoryAt abi sample 1 a_directory entries
unfolding get_inode slot entries_size elem_size name_lt
sample-DirectoryAt = record {
  found = refl;
  is_directory = refl;
  layout = record {
    is_map = ((refl, (refl, tt)), ((refl, tt), (tt, tt)));
    sized = refl;
    blocked = refl;
    small = omega arith;
  };
}

pub sample-IsTable : IsTable sample
unfolding total
sample-IsTable = record { vacant = tt; counted = refl; balanced = refl }

pub sub_fits : size a_directory + elem_size abi sub < 2 ^ 62
unfolding elem_size
sub_fits = omega arith
