-- ===== src/Unix/SharedMemory/Sharing.antt =====
-- That shared memory of src/platform/unix/mod.rs is shared, and that nothing of it is leaked.
use ipc_channel.Base.{ℕ, suc, ◌≡◌, sym, ap, ◌∙◌, some, List, [], ◌∷◌, ◌++◌, ==_refl, length, ok, ℤ}
use ipc_channel.Unix.Kernel.{Kernel}
use ipc_channel.Unix.SharedMemory.{
  Shm, Creation, object_of, without_fd, object_at, without_address, from_bytes, clone, unmap, close,
  drop_memory,
}
use ipc_channel.Unix.SharedMemory.Effects.{Creates, same_fd_refl, maps_with, memory, filled_lem}
use ipc_channel.Unix.SharedMemory.Copies.{clone_lem}

close_lem :
    (o : ℕ) (fd : ℤ) (objects : List (List ℕ)) (fds : List (ℤ × ℕ)) (maps : List (ℕ × ℕ))
    → close fd (record { objects = objects; fds = (fd, o) ∷ fds; maps = maps })
      ≡ (record { objects = objects; fds = fds; maps = maps }, ok tt)
unfolding close object_of without_fd
close_lem o fd objects fds maps = rw (same_fd_refl fd, close, same_fd_refl fd)

unmap_lem :
    (a o : ℕ) (objects : List (List ℕ)) (fds : List (ℤ × ℕ)) (maps : List (ℕ × ℕ))
    → unmap (some a) (record { objects = objects; fds = fds; maps = (a, o) ∷ maps })
      ≡ (record { objects = objects; fds = fds; maps = maps }, ok tt)
unfolding unmap object_at without_address
unmap_lem a o objects fds maps = rw (==_refl a, unmap, ==_refl a)

drop_memory_lem :
    (xs : List ℕ) (a o : ℕ) (fd : ℤ) (objects : List (List ℕ)) (fds : List (ℤ × ℕ))
    (maps : List (ℕ × ℕ))
    → drop_memory
        (memory xs a fd)
        (record { objects = objects; fds = (fd, o) ∷ fds; maps = maps_with xs a o maps })
      ≡ (record { objects = objects; fds = fds; maps = maps }, ok tt)
unfolding drop_memory unmap
drop_memory_lem [] a o fd objects fds maps = close_lem o fd objects fds maps
drop_memory_lem (x ∷ xs) a o fd objects fds maps =
    rw (unmap_lem a o objects ((fd, o) ∷ fds) maps) (close_lem o fd objects fds maps)

-- Where the kernel creates and maps what it is asked for, shared memory is made from bytes and cloned:
-- when then first the copy and then the original are dropped, no call fails, and the descriptors and
-- mappings are those from before the memory was made.
pub drop_memory-from_bytes :
    (k : Kernel) (c : Creation) (fd fd' : ℤ) (a b : ℕ) (xs : List ℕ) (s : Shm)
    → Creates c fd
    → let made = from_bytes k c (some (suc a)) xs s in
      let copied = clone k fd' (some (suc b)) (memory xs (suc a) fd) made.0 in
      let once = drop_memory (memory xs (suc b) fd') copied.0 in
      let twice = drop_memory (memory xs (suc a) fd) once.0 in
      (once ≡ (made.0, ok tt)) × (twice.1 ≡ ok tt) × (twice.0.fds ≡ s.fds) × (twice.0.maps ≡ s.maps)
unfolding from_bytes
drop_memory-from_bytes k c fd fd' a b xs s h =
    let made = filled_lem k c fd a xs s h in
    let once =
      ap
        (λ x.
          drop_memory (memory xs (suc b) fd')
            (clone k fd' (some (suc b)) (memory xs (suc a) fd) x.0).0)
        made
      ∙ ap (λ x. drop_memory (memory xs (suc b) fd') x.0) (clone_lem k xs (suc a) b fd fd' s)
      ∙ drop_memory_lem xs (suc b) (length s.objects) fd' (s.objects ++ (xs ∷ []))
          ((fd, length s.objects) ∷ s.fds) (maps_with xs (suc a) (length s.objects) s.maps) in
    let twice =
      ap (λ x. drop_memory (memory xs (suc a) fd) x.0) once
      ∙ drop_memory_lem xs (suc a) (length s.objects) fd (s.objects ++ (xs ∷ [])) s.fds s.maps in
    (
      once ∙ sym (ap (λ x. (x.0, ok tt)) made),
      ap (λ x. x.1) twice,
      ap (λ x. x.0.fds) twice,
      ap (λ x. x.0.maps) twice,
    )
