-- ===== src/Server/Start.antt =====
-- What every operation keeps holds after the start, which is `FuseInit` of src/fuse_cpp_ramfs.cpp,
-- and any calls that follow it.
use fuse_cpp_ramfs.Base.{ℕ, Option, none, some, List, []}
use fuse_cpp_ramfs.State.{type_no_block, Fs, pure, directory, Reply, Env, Abi}
use fuse_cpp_ramfs.Attr.{new_inode}
use fuse_cpp_ramfs.Directory.{add_child, dot, dot_dot}
use fuse_cpp_ramfs.Register.{
  register_inode, new_fs, fuse_init, reset_counters, new_special, root_mode,
}
use fuse_cpp_ramfs.Keeps.{Post, Frame, Keeps->>=}
use fuse_cpp_ramfs.Keeps.Directory.{add_child-Keeps}
use fuse_cpp_ramfs.Keeps.Create.{Maker}
use fuse_cpp_ramfs.Server.{Request, serve, mounted}
use fuse_cpp_ramfs.Server.Keeps.{serve-Keeps}

module _ (P : Fs → Type 0) (frame : Frame P) (maker : Maker P) (abi : Abi) (env : Env) where
  fuse_init-Keeps : (fs : Fs) → P (reset_counters fs) → Post P (fuse_init abi env fs)
  unfolding fuse_init
  fuse_init-Keeps fs t =
      Keeps->>= P (register_inode abi env.now (new_special type_no_block 0) 0 0 env.gid env.uid) _
        (maker.keep_register abi env.now (new_special type_no_block 0) 0 0 env.gid env.uid)
        (λ _.
          Keeps->>= P
            (register_inode abi env.now (new_inode (directory [])) root_mode 3 env.gid env.uid) _
            (maker.keep_register abi env.now (new_inode (directory [])) root_mode 3 env.gid env.uid)
            λ rootno.
              Keeps->>= P (add_child abi rootno dot rootno) _
                (add_child-Keeps P frame abi rootno dot rootno)
                λ _.
                  Keeps->>= P (add_child abi rootno dot_dot rootno) (λ _. pure tt)
                    (add_child-Keeps P frame abi rootno dot_dot rootno) λ _ fs' h. h)
        (reset_counters fs) t

  pub mounted-Keeps :
      (blocks inodes : ℕ) (rs : List (Env × Request))
      → P (reset_counters (new_fs blocks inodes))
      → Post P (mounted abi env blocks inodes rs)
  unfolding mounted
  mounted-Keeps blocks inodes rs t =
      start (fuse_init abi env (new_fs blocks inodes)) (fuse_init-Keeps (new_fs blocks inodes) t)
    where
      start :
          (r : Option (Unit {0} × Fs))
          → Post P r
          → Post P (elim r as (λ _. Option (List (List Reply) × Fs)) [
            | none ↦ none
            | some (a, fs) ↦ serve abi rs fs
          ])
      start none h = tt
      start (some (a, fs)) h = serve-Keeps P frame maker abi rs fs h
