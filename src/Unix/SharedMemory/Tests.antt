-- ===== src/Unix/SharedMemory/Tests.antt =====
-- A concrete run of shared memory of src/platform/unix/mod.rs.
use ipc_channel.Base.{◌≡◌, refl, true, none, some, [], ◌∷◌, Result, ok, pos}
use ipc_channel.Unix.Kernel.{UnixError, Kernel}
use ipc_channel.Unix.SharedMemory.{
  Shm, Creation, from_bytes, from_fd, duplicated, clone, drop_memory,
}
use ipc_channel.Unix.SharedMemory.Effects.{Creates, memory}
use ipc_channel.Unix.SharedMemory.Sharing.{drop_memory-from_bytes}
use ipc_channel.Unix.Handles.{OsIpcSharedMemory}

abbrev kernel : Kernel
kernel = record {
  sendbuf_size = 96;
  enobufs = 105;
  eagain = 11;
  ewouldblock = 11;
  st_mode = λ fd. some 33152;
  st_size = λ fd. none;
  s_ifmt = 61440;
  s_ifsock = 49152;
  mmap = λ fd n. none;
}

abbrev creation : Creation
creation = record { fd = some (pos 5); unlinked = true; truncated = true }

-- Another object is there before.
abbrev before : Shm
before = record { objects = (9 ∷ []) ∷ []; fds = (pos 3, 0) ∷ []; maps = (4096, 0) ∷ [] }

abbrev made : Shm × Result UnixError OsIpcSharedMemory
made = from_bytes kernel creation (some 8192) (1 ∷ 2 ∷ []) before

abbrev sent : Shm × Result UnixError OsIpcSharedMemory
sent = from_fd kernel (some 12288) (pos 7) (duplicated (pos 7) (pos 5) made.0)

creation-Creates : Creates creation (pos 5)
creation-Creates = record { made = refl; unlinked = refl; truncated = refl }

abbrev once : Shm × Result UnixError (Unit {0})
once =
    drop_memory (memory (1 ∷ 2 ∷ []) 12288 (pos 7))
      (clone kernel (pos 7) (some 12288) (memory (1 ∷ 2 ∷ []) 8192 (pos 5)) made.0).0

abbrev twice : Shm × Result UnixError (Unit {0})
twice = drop_memory (memory (1 ∷ 2 ∷ []) 8192 (pos 5)) once.0

drop_memory-from_bytes_example :
    (once ≡ (made.0, ok tt))
    × (twice.1 ≡ ok tt)
    × (twice.0.fds ≡ (pos 3, 0) ∷ [])
    × (twice.0.maps ≡ (4096, 0) ∷ [])
drop_memory-from_bytes_example =
    drop_memory-from_bytes kernel creation (pos 5) (pos 7) 8191 12287 (1 ∷ 2 ∷ []) before
      creation-Creates
