-- ===== src/Unix/Recv/Sorting.antt =====
-- The loop of `recv` in src/platform/unix/mod.rs that tells sockets from shared memory.
use ipc_channel.Base.{
  ℤ, ◌≡◌, refl, ap, sym, ◌∙◌, true, false, some, List, [], ◌∷◌, ◌++◌, map, ok, All, append-nil,
  append_assoc,
}
use ipc_channel.Unix.Kernel.{Kernel}
use ipc_channel.Unix.Handles.{
  OsOpaqueIpcChannel, OsIpcSharedMemory, is_socket, shared_memory_from_fd,
}
use ipc_channel.Unix.Recv.{sort_fds, pop}

-- `OsOpaqueIpcChannel::from_fd`
abbrev pub from_fd : ℤ → OsOpaqueIpcChannel
from_fd fd = record { fd = fd }

-- What `fstat` and `mmap` make of a descriptor for shared memory.
abbrev pub Maps : Kernel → OsIpcSharedMemory → Type 0
Maps k m = (is_socket k m.store ≡ false) × (shared_memory_from_fd k m.store ≡ ok m)

abbrev pub IsSocket : Kernel → ℤ → Type 0
IsSocket k fd = is_socket k fd ≡ true

abbrev pub stores : List OsIpcSharedMemory → List ℤ
stores = map λ m. m.store

module _ (k : Kernel) where
  sort_sockets :
      (xs rest : List ℤ) (cs : List OsOpaqueIpcChannel) (ms : List OsIpcSharedMemory)
      → All (IsSocket k) xs
      → sort_fds k (xs ++ rest) (record { channels = cs; shared_memory_regions = ms })
        ≡ sort_fds k rest (record { channels = cs ++ map from_fd xs; shared_memory_regions = ms })
  unfolding sort_fds
  sort_sockets [] rest cs ms h = rw (append-nil cs)
  sort_sockets (x ∷ xs) rest cs ms h = rw h.0 (
      sort_sockets xs rest (cs ++ (from_fd x ∷ [])) ms h.1
      ∙ rw (append_assoc cs (from_fd x ∷ []) (map from_fd xs)))

  sort_memory :
      (ms : List OsIpcSharedMemory) (rest : List ℤ) (cs : List OsOpaqueIpcChannel)
      (ns : List OsIpcSharedMemory)
      → All (Maps k) ms
      → sort_fds k (stores ms ++ rest) (record { channels = cs; shared_memory_regions = ns })
        ≡ sort_fds k rest (record { channels = cs; shared_memory_regions = ns ++ ms })
  unfolding sort_fds
  sort_memory [] rest cs ns h = rw (append-nil ns)
  sort_memory (m ∷ ms) rest cs ns h =
      rw (h.0.0, h.0.1)
        (sort_memory ms rest cs (ns ++ (m ∷ [])) h.1 ∙ rw (append_assoc ns (m ∷ []) ms))

  -- Channels first, then shared memory, then more sockets: each kind keeps its order.
  pub sort_fds-sorts :
      (xs : List ℤ) (ms : List OsIpcSharedMemory) (ys : List ℤ)
      → All (IsSocket k) xs
      → All (Maps k) ms
      → All (IsSocket k) ys
      → sort_fds k (xs ++ (stores ms ++ ys)) (record { channels = []; shared_memory_regions = [] })
        ≡ ok (record { channels = map from_fd xs ++ map from_fd ys; shared_memory_regions = ms })
  sort_fds-sorts xs ms ys hx hm hy =
      sort_sockets xs (stores ms ++ ys) [] [] hx
      ∙ sort_memory ms ys (map from_fd xs) [] hm
      ∙ ap (λ zs. sort_fds k zs (record { channels = map from_fd xs; shared_memory_regions = ms }))
          (sym (append-nil ys))
      ∙ sort_sockets ys [] (map from_fd xs) ms hy
      ∙ done (map from_fd xs ++ map from_fd ys) ms
    where
      done :
          (cs : List OsOpaqueIpcChannel) (ns : List OsIpcSharedMemory)
          → sort_fds k [] (record { channels = cs; shared_memory_regions = ns })
            ≡ ok (record { channels = cs; shared_memory_regions = ns })
      done cs ns = unfold sort_fds in refl

pub pop-append {ℓ} : {A : Type ℓ} (xs : List A) (x : A) → pop (xs ++ (x ∷ [])) ≡ some (xs, x)
unfolding pop
pop-append [] x = refl
pop-append (y ∷ xs) x = rw (pop-append xs x)
