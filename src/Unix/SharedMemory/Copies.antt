-- ===== src/Unix/SharedMemory/Copies.antt =====
-- What a second descriptor of an object gives: `from_fd` and `clone` of src/platform/unix/mod.rs.
use ipc_channel.Base.{
  ℕ, suc, ◌≡◌, refl, some, List, [], ◌∷◌, ◌++◌, arith, ==_refl, ==_false, length, take_all, ok, ℤ,
}
use ipc_channel.Unix.Kernel.{Kernel}
use ipc_channel.Unix.SharedMemory.{
  Shm, object_of, object_at, size_of, seen, mapped, from_fd, duplicated, clone, deref,
}
use ipc_channel.Unix.SharedMemory.Effects.{
  same_fd_refl, pointer, maps_with, memory, mapped_lem, contents_lem, map_file_lem,
}
use ipc_channel.Unix.Handles.{map_at, map_file, shared_memory_from_fd}

-- The state in which descriptor `fd` stands for the object `xs`, which is mapped at `a`.
abbrev pub holding : List ℕ → ℕ → ℤ → Shm → Shm
holding xs a fd s = record {
  objects = s.objects ++ (xs ∷ []);
  fds = (fd, length s.objects) ∷ s.fds;
  maps = maps_with xs a (length s.objects) s.maps;
}

-- The same, with a second descriptor and a second mapping.
abbrev pub holding_twice : List ℕ → ℕ → ℤ → ℕ → ℤ → Shm → Shm
holding_twice xs a fd b fd' s = record {
  objects = s.objects ++ (xs ∷ []);
  fds = (fd', length s.objects) ∷ (fd, length s.objects) ∷ s.fds;
  maps = maps_with xs b (length s.objects) (maps_with xs a (length s.objects) s.maps);
}

pub deref_lem :
    (xs : List ℕ) (a : ℕ) (fd : ℤ) (s : Shm) (fds : List (ℤ × ℕ)) (maps : List (ℕ × ℕ))
    → deref (memory xs a fd) (record {
      objects = s.objects ++ (xs ∷ []);
      fds = fds;
      maps = maps_with xs a (length s.objects) maps;
    })
      ≡ xs
unfolding deref object_at
deref_lem [] a fd s fds maps = refl
deref_lem (x ∷ xs) a fd s fds maps = rw (
  ==_refl a,
  object_at,
  contents_lem (x ∷ xs) s.objects fds ((a, length s.objects) ∷ maps),
  take_all (length xs) xs (omega arith),
)

pub duplicated_lem :
    (xs : List ℕ) (a : ℕ) (fd fd' : ℤ) (s : Shm)
    → duplicated fd' fd (holding xs a fd s) ≡ record (holding xs a fd s) {
      fds = (fd', length s.objects) ∷ (fd, length s.objects) ∷ s.fds;
    }
unfolding duplicated object_of
duplicated_lem xs a fd fd' s = rw (same_fd_refl fd, duplicated)

size_of_lem :
    (xs : List ℕ) (fd : ℤ) (objects : List (List ℕ)) (fds : List (ℤ × ℕ)) (maps : List (ℕ × ℕ))
    → size_of
        (record { objects = objects ++ (xs ∷ []); fds = (fd, length objects) ∷ fds; maps = maps })
        fd
      ≡ some (length xs)
unfolding size_of object_of
size_of_lem xs fd objects fds maps =
    rw (same_fd_refl fd, size_of, contents_lem xs objects ((fd, length objects) ∷ fds) maps)

-- The size that `fstat` gives is the size that is mapped.
memory_from_fd_lem :
    (k : Kernel) (xs : List ℕ) (a : ℕ) (fd : ℤ) (s : Shm)
    → size_of s fd ≡ some (length xs)
    → shared_memory_from_fd (seen k s (some (suc a))) fd ≡ ok (memory xs (suc a) fd)
unfolding shared_memory_from_fd map_file map_at
memory_from_fd_lem k [] a fd s h = rw (h, shared_memory_from_fd, map_file)
memory_from_fd_lem k (x ∷ xs) a fd s h =
    rw (h, shared_memory_from_fd, map_file, ==_false (suc (length xs)) 0 (λ e. omega arith), map_at)

mapped_from_fd :
    (k : Kernel) (xs : List ℕ) (b o : ℕ) (fd' : ℤ) (objects : List (List ℕ)) (fds : List (ℤ × ℕ))
    (maps : List (ℕ × ℕ))
    → mapped fd'
        (ok (pointer xs b, length xs))
        (record { objects = objects; fds = (fd', o) ∷ fds; maps = maps })
      ≡ record { objects = objects; fds = (fd', o) ∷ fds; maps = maps_with xs b o maps }
unfolding mapped
mapped_from_fd k [] b o fd' objects fds maps = refl
mapped_from_fd k (x ∷ xs) b o fd' objects fds maps =
    mapped_lem fd' b (length (x ∷ xs)) o objects fds maps

pub from_fd_lem :
    (k : Kernel) (xs : List ℕ) (b : ℕ) (fd' : ℤ) (objects : List (List ℕ)) (fds : List (ℤ × ℕ))
    (maps : List (ℕ × ℕ))
    → from_fd k
        (some (suc b))
        fd'
        (record { objects = objects ++ (xs ∷ []); fds = (fd', length objects) ∷ fds; maps = maps })
      ≡ (
        record {
          objects = objects ++ (xs ∷ []);
          fds = (fd', length objects) ∷ fds;
          maps = maps_with xs (suc b) (length objects) maps;
        },
        ok (memory xs (suc b) fd'),
      )
unfolding from_fd
from_fd_lem k xs b fd' objects fds maps = rw (
  memory_from_fd_lem k xs b fd' _ (size_of_lem xs fd' objects fds maps),
  mapped_from_fd k xs (suc b) (length objects) fd' (objects ++ (xs ∷ [])) fds maps,
)

pub clone_lem :
    (k : Kernel) (xs : List ℕ) (a b : ℕ) (fd fd' : ℤ) (s : Shm)
    → clone k fd' (some (suc b)) (memory xs a fd) (holding xs a fd s)
      ≡ (holding_twice xs a fd (suc b) fd' s, ok (memory xs (suc b) fd'))
unfolding clone map_file map_at
clone_lem k [] a b fd fd' s = rw (duplicated_lem [] a fd fd' s)
clone_lem k (x ∷ xs) a b fd fd' s = rw (
  duplicated_lem (x ∷ xs) a fd fd' s,
  map_file_lem k _ fd' b (length (x ∷ xs)) (omega arith),
  mapped_lem fd' (suc b) (length (x ∷ xs)) (length s.objects) (s.objects ++ ((x ∷ xs) ∷ []))
      ((fd, length s.objects) ∷ s.fds) ((a, length s.objects) ∷ s.maps),
)
