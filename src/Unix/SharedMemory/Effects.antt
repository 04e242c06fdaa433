-- ===== src/Unix/SharedMemory/Effects.antt =====
-- What the operations on shared memory of src/platform/unix/mod.rs do, where the kernel does what it is
-- asked for.
use ipc_channel.Base.{
  ℕ, zero, suc, ◌<◌, ◌≡◌, refl, ap, true, Option, none, some, List, [], ◌∷◌, ◌++◌, append-nil,
  arith, ==_refl, ==_false, length, drop, replicate, get_elem?-append, set-append, ok, ℤ, pos,
  negsuc,
}
use ipc_channel.Unix.Kernel.{Kernel}
use ipc_channel.Unix.Handles.{OsIpcSharedMemory, map_at, map_file}
use ipc_channel.Unix.SharedMemory.{
  Shm, Creation, same_fd, object_of, object_at, contents, create_shmem, seen, mapped, write, fill,
  filled,
}

pub same_fd_refl : (fd : ℤ) → same_fd fd fd ≡ true
same_fd_refl (pos n) = ==_refl n
same_fd_refl (negsuc n) = ==_refl n

drop-replicate : {A : Type 0} (n : ℕ) (a : A) → drop n (replicate n a) ≡ []
drop-replicate zero a = refl
drop-replicate (suc n) a = drop-replicate n a

-- Empty memory is not mapped.
abbrev pub pointer : List ℕ → ℕ → Option ℕ
pointer [] a = none
pointer (x ∷ xs) a = some a

abbrev pub maps_with : List ℕ → ℕ → ℕ → List (ℕ × ℕ) → List (ℕ × ℕ)
maps_with [] a o m = m
maps_with (x ∷ xs) a o m = (a, o) ∷ m

abbrev pub memory : List ℕ → ℕ → ℤ → OsIpcSharedMemory
memory xs a fd = record { ptr = pointer xs a; length = length xs; store = fd }

-- The answers of a kernel that creates and maps what it is asked for.
pub record Creates (c : Creation) (fd : ℤ) : Type 0 where
  pub made : c.fd ≡ some fd
  pub unlinked : c.unlinked ≡ true
  pub truncated : c.truncated ≡ true

create_shmem_lem :
    (c : Creation) (fd : ℤ) (n : ℕ) (s : Shm)
    → Creates c fd
    → create_shmem c n s ≡ (
      record s {
        objects = s.objects ++ (replicate n 0 ∷ []);
        fds = (fd, length s.objects) ∷ s.fds;
      },
      ok fd,
    )
unfolding create_shmem
create_shmem_lem c fd n s h = rw (h.made, h.unlinked, h.truncated)

-- A descriptor that has just been made is mapped.
pub mapped_lem :
    (fd : ℤ) (a n o : ℕ) (objects : List (List ℕ)) (fds : List (ℤ × ℕ)) (maps : List (ℕ × ℕ))
    → mapped fd (ok (some a, n)) (record { objects = objects; fds = (fd, o) ∷ fds; maps = maps })
      ≡ record { objects = objects; fds = (fd, o) ∷ fds; maps = (a, o) ∷ maps }
unfolding mapped object_of
mapped_lem fd a n o objects fds maps = rw (same_fd_refl fd, mapped)

pub contents_lem :
    (xs : List ℕ) (objects : List (List ℕ)) (fds : List (ℤ × ℕ)) (maps : List (ℕ × ℕ))
    → contents
        (record { objects = objects ++ (xs ∷ []); fds = fds; maps = maps })
        (some (length objects))
      ≡ xs
unfolding contents
contents_lem xs objects fds maps =
    rw (get_elem?-append objects xs [] (length objects) refl, contents)

write_lem :
    (a : ℕ) (xs : List ℕ) (objects : List (List ℕ)) (fds : List (ℤ × ℕ)) (maps : List (ℕ × ℕ))
    → write (some a) xs (record {
      objects = objects ++ (replicate (length xs) 0 ∷ []);
      fds = fds;
      maps = (a, length objects) ∷ maps;
    })
      ≡ record { objects = objects ++ (xs ∷ []); fds = fds; maps = (a, length objects) ∷ maps }
unfolding write object_at
write_lem a xs objects fds maps = rw (
  ==_refl a,
  write,
  contents_lem (replicate (length xs) 0) objects fds ((a, length objects) ∷ maps),
  drop-replicate {A = ℕ} (length xs) 0,
  append-nil xs,
  set-append objects (replicate (length xs) 0) xs [] (length objects) refl,
  append-nil (objects ++ (xs ∷ [])),
)

pub map_file_lem :
    (k : Kernel) (s : Shm) (fd : ℤ) (a n : ℕ)
    → 0 < n
    → map_file (seen k s (some (suc a))) fd (some n) ≡ ok (some (suc a), n)
unfolding map_file map_at
map_file_lem k s fd a n h = rw (==_false n 0 (λ e. omega arith))

fill_lem :
    (k : Kernel) (fd : ℤ) (a : ℕ) (xs : List ℕ) (s s2 : Shm)
    → 0 < length xs
    → mapped fd (ok (some (suc a), length xs)) s ≡ s2
    → fill k (some (suc a)) xs s fd ≡ (
      write (some (suc a)) xs s2,
      ok (record { ptr = some (suc a); length = length xs; store = fd }),
    )
unfolding fill
fill_lem k fd a xs s s2 h e = rw (map_file_lem k s fd a (length xs) h, e)

pub filled_lem :
    (k : Kernel) (c : Creation) (fd : ℤ) (a : ℕ) (xs : List ℕ) (s : Shm)
    → Creates c fd
    → filled k c (some (suc a)) xs s ≡ (
      record {
        objects = s.objects ++ (xs ∷ []);
        fds = (fd, length s.objects) ∷ s.fds;
        maps = maps_with xs (suc a) (length s.objects) s.maps;
      },
      ok (memory xs (suc a) fd),
    )
unfolding filled fill map_file map_at write
filled_lem k c fd a [] s h = rw (create_shmem_lem c fd 0 s h)
filled_lem k c fd a (x ∷ xs) s h =
    rw
      (
        create_shmem_lem c fd (length (x ∷ xs)) s h,
        fill_lem k fd a (x ∷ xs) _ _ (omega arith) (
            mapped_lem fd (suc a) (length (x ∷ xs)) (length s.objects)
              (s.objects ++ (replicate (length (x ∷ xs)) 0 ∷ [])) s.fds s.maps),
      )
      (ap (λ t. (t, ok (memory (x ∷ xs) (suc a) fd)))
        (write_lem (suc a) (x ∷ xs) s.objects ((fd, length s.objects) ∷ s.fds) s.maps))
