-- ===== src/Unix/SharedMemory.antt =====
-- Shared memory of src/platform/unix/mod.rs: `BackingStore`, `create_shmem` and `OsIpcSharedMemory`,
-- over the objects that the kernel keeps, the descriptors that name them, and where they are mapped.
pub mod Effects
pub mod Copies
pub mod Sharing
mod Tests
use ipc_channel.Base.{
  ℕ, Bool, false, ◌&&◌, Option, none, some, List, [], ◌∷◌, ◌++◌, ◌==◌, if◌then◌else◌, length,
  get_elem?, set, take, drop, replicate, Result, ◌>>=◌, on_ok, panic, ok, ℤ, pos, negsuc,
}
use ipc_channel.Unix.Kernel.{UnixError, Kernel}
use ipc_channel.Unix.Handles.{OsIpcSharedMemory, map_file, shared_memory_from_fd}

-- `objects` are the contents by number; a descriptor, or an address, stands for an object.
pub record Shm : Type 0 where
  pub objects : List (List ℕ)
  pub fds : List (ℤ × ℕ)
  pub maps : List (ℕ × ℕ)

abbrev pub same_fd : ℤ → ℤ → Bool
same_fd (pos m) (pos n) = m == n
same_fd (negsuc m) (negsuc n) = m == n
same_fd _ _ = false

unfoldable pub object_of : ℤ → List (ℤ × ℕ) → Option ℕ
object_of fd [] = none
object_of fd ((g, o) ∷ t) = if same_fd g fd then some o else object_of fd t

unfoldable pub without_fd : ℤ → List (ℤ × ℕ) → List (ℤ × ℕ)
without_fd fd [] = []
without_fd fd ((g, o) ∷ t) = if same_fd g fd then t else (g, o) ∷ without_fd fd t

unfoldable pub object_at : ℕ → List (ℕ × ℕ) → Option ℕ
object_at a [] = none
object_at a ((b, o) ∷ t) = if b == a then some o else object_at a t

unfoldable pub without_address : ℕ → List (ℕ × ℕ) → List (ℕ × ℕ)
without_address a [] = []
without_address a ((b, o) ∷ t) = if b == a then t else (b, o) ∷ without_address a t

unfoldable pub contents : Shm → Option ℕ → List ℕ
contents s none = []
contents s (some o) = elim (get_elem? s.objects o) [ none ↦ [] | some xs ↦ xs ]

-- The answers to the calls of `create_shmem`: the descriptor of `shm_open` or `memfd_create`, and
-- whether `shm_unlink` (not called for a memfd: `true`) and `ftruncate` succeeded.
pub record Creation : Type 0 where
  pub fd : Option ℤ
  pub unlinked : Bool
  pub truncated : Bool

-- `create_shmem`: an object of `length` zeros. A call that fails fails an assertion.
unfoldable pub create_shmem : Creation → ℕ → Shm → Shm × Result UnixError ℤ
create_shmem c size s = elim c.fd [
  | none ↦ (s, panic)
  | some fd ↦
      let opened : ℕ → Shm = λ n. record s {
        objects = s.objects ++ (replicate n 0 ∷ []);
        fds = (fd, length s.objects) ∷ s.fds;
      } in
      if c.unlinked && c.truncated then (opened size, ok fd) else (opened 0, panic)
]

-- `fstat`: the size of the object.
unfoldable pub size_of : Shm → ℤ → Option ℕ
size_of s fd = elim (object_of fd s.fds) [
  | none ↦ none
  | some o ↦ some (length (contents s (some o)))
]

-- The kernel as `map_file` sees it in a state; the address of a mapping is the one given.
abbrev pub seen : Kernel → Shm → Option ℕ → Kernel
seen k s a = record k { st_size = size_of s; mmap = λ fd n. a }

-- What a successful `map_file` of the descriptor adds.
unfoldable pub mapped : ℤ → Result UnixError (Option ℕ × ℕ) → Shm → Shm
mapped fd (ok (some a, n)) s = elim (object_of fd s.fds) [
  | none ↦ s
  | some o ↦ record s { maps = (a, o) ∷ s.maps }
]
mapped fd _ s = s

-- The bytes are written from the pointer on.
unfoldable pub write : Option ℕ → List ℕ → Shm → Shm
write none xs s = s
write (some a) xs s = elim (object_at a s.maps) [
  | none ↦ s
  | some o ↦ record s { objects = set s.objects o (xs ++ drop (length xs) (contents s (some o))) }
]

-- `map_file`, and then the copy of `from_bytes`, or the loop of `from_byte`.
unfoldable pub fill :
    Kernel → Option ℕ → List ℕ → Shm → ℤ → Shm × Result UnixError OsIpcSharedMemory
unfolding map_file mapped write
fill k a xs s fd =
    let m = map_file (seen k s a) fd (some (length xs)) in
    on_ok (mapped fd m s) m λ (address, _). (
      write address xs (mapped fd m s),
      ok (record { ptr = address; length = length xs; store = fd }),
    )

-- `BackingStore::new`, and the rest.
unfoldable pub filled :
    Kernel → Creation → Option ℕ → List ℕ → Shm → Shm × Result UnixError OsIpcSharedMemory
unfolding create_shmem fill
filled k c a xs s = let (s1, r) = create_shmem c (length xs) s in on_ok s1 r (fill k a xs s1)

-- `OsIpcSharedMemory::from_bytes`
unfoldable pub from_bytes :
    Kernel → Creation → Option ℕ → List ℕ → Shm → Shm × Result UnixError OsIpcSharedMemory
unfolding filled
from_bytes = filled

-- `OsIpcSharedMemory::from_byte`
unfoldable pub from_byte :
    Kernel → Creation → Option ℕ → ℕ → ℕ → Shm → Shm × Result UnixError OsIpcSharedMemory
unfolding filled
from_byte k c a byte n s = filled k c a (replicate n byte) s

-- `OsIpcSharedMemory::from_fd`
unfoldable pub from_fd : Kernel → Option ℕ → ℤ → Shm → Shm × Result UnixError OsIpcSharedMemory
unfolding shared_memory_from_fd mapped
from_fd k a fd s =
    let m = shared_memory_from_fd (seen k s a) fd in
    (mapped fd (m >>= λ x. ok (x.ptr, x.length)) s, m)

-- A second descriptor for an object: `dup`, or a descriptor that is sent.
unfoldable pub duplicated : ℤ → ℤ → Shm → Shm
duplicated new_fd fd s = elim (object_of fd s.fds) [
  | none ↦ s
  | some o ↦ record s { fds = (new_fd, o) ∷ s.fds }
]

-- `clone`, where `dup` gives `new_fd`.
unfoldable pub clone :
    Kernel → ℤ → Option ℕ → OsIpcSharedMemory → Shm → Shm × Result UnixError OsIpcSharedMemory
unfolding duplicated map_file mapped
clone k new_fd a m s =
    let s1 = duplicated new_fd m.store s in
    let r = map_file (seen k s1 a) new_fd (some m.length) in
    let s2 = mapped new_fd r s1 in
    on_ok s2 r
      λ (address, _). (s2, ok (record { ptr = address; length = m.length; store = new_fd }))

-- `deref`: the bytes behind the pointer; there are none behind a null pointer.
unfoldable pub deref : OsIpcSharedMemory → Shm → List ℕ
unfolding contents
deref m s = elim m.ptr [ none ↦ [] | some a ↦ take m.length (contents s (object_at a s.maps)) ]

-- `drop`: `munmap`, if something is mapped, and then `close`, by the drop of the `BackingStore`. Each
-- must succeed, or else an assertion fails.
unfoldable pub unmap : Option ℕ → Shm → Shm × Result UnixError (Unit {0})
unmap none s = (s, ok tt)
unmap (some a) s = elim (object_at a s.maps) [
  | none ↦ (s, panic)
  | some _ ↦ (record s { maps = without_address a s.maps }, ok tt)
]

unfoldable pub close : ℤ → Shm → Shm × Result UnixError (Unit {0})
close fd s = elim (object_of fd s.fds) [
  | none ↦ (s, panic)
  | some _ ↦ (record s { fds = without_fd fd s.fds }, ok tt)
]

unfoldable pub drop_memory : OsIpcSharedMemory → Shm → Shm × Result UnixError (Unit {0})
unfolding unmap close
drop_memory m s = let (s1, r) = unmap m.ptr s in on_ok s1 r λ _. close m.store s1
