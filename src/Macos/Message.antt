-- ===== src/Macos/Message.antt =====
-- The messages of src/platform/macos/mod.rs: their layout, the shared memory that they carry, and the
-- form of the data, in the message or out of line. What an address points to is written in its place.
use ipc_channel.Base.{
  ℕ, ◌+◌, ◌-◌, ◌*◌, ◌%◌, ◌≤◌, ◌<◌, ◌≡◌, Bool, true, false, Option, none, some, List, [], ◌++◌,
  arith, ltb, leb, ◌==◌, if◌then◌else◌, length, take, drop, replicate, Result, ◌>>=◌, unwrap, panic,
  ok,
}
use ipc_channel.Macos.System.{MachError}

pub data Address : Type 0 where
  null : Address
  pages : List ℕ → Address

pub record OsIpcSharedMemory : Type 0 where
  pub ptr : Address
  pub length : ℕ

-- The bytes at an address: an attempt to read at the null address panics.
unfoldable pub bytes_at : Address → ℕ → Result MachError (List ℕ)
bytes_at null n = if ltb 0 n then panic else ok []
bytes_at (pages xs) n = ok (take n xs)

-- `Deref`
unfoldable pub deref : OsIpcSharedMemory → Result MachError (List ℕ)
unfolding bytes_at
deref m = bytes_at m.ptr m.length

-- `vm_allocate`, by the length: the address, or a failure.
abbrev pub VmAllocate : Type 0
VmAllocate = ℕ → Option Address

unfoldable pub allocate_vm_pages : VmAllocate → ℕ → Result MachError Address
allocate_vm_pages vm n = unwrap (vm n)

-- Bytes stored from an address on.
abbrev pub store : Address → List ℕ → Address
store null bytes = null
store (pages xs) bytes = pages (bytes ++ drop (length bytes) xs)

unfoldable pub from_bytes : VmAllocate → List ℕ → Result MachError OsIpcSharedMemory
unfolding allocate_vm_pages
from_bytes vm bytes = allocate_vm_pages vm (length bytes) >>= λ address.
    ok (record { ptr = store address bytes; length = length bytes })

unfoldable pub from_byte : VmAllocate → ℕ → ℕ → Result MachError OsIpcSharedMemory
unfolding allocate_vm_pages
from_byte vm byte n = allocate_vm_pages vm n >>= λ address.
    ok (record { ptr = store address (replicate n byte); length = n })

-- `Clone`: a second mapping of the same pages; `vm_remap` gives whether it succeeds.
unfoldable pub clone_memory : Bool → OsIpcSharedMemory → Result MachError OsIpcSharedMemory
clone_memory remaps m = elim m.ptr [
  | null ↦ ok (record { ptr = null; length = m.length })
  | pages xs ↦ if remaps then ok (record { ptr = pages xs; length = m.length }) else panic
]

-- `Drop`, with whether `vm_deallocate` succeeds.
unfoldable pub drop_memory : Bool → OsIpcSharedMemory → Result MachError (Unit {0})
drop_memory deallocates m = elim m.ptr [
  | null ↦ ok tt
  | pages xs ↦ if deallocates then ok tt else panic
]

pub data SendData : Type 0 where
  inline : List ℕ → SendData
  out_of_line : Option OsIpcSharedMemory → SendData

-- `From<&[u8]> for SendData`, with the value of MAX_INLINE_SIZE.
unfoldable pub send_data_from : VmAllocate → ℕ → List ℕ → Result MachError SendData
unfolding from_bytes
send_data_from vm max_inline_size bytes =
    if leb max_inline_size (length bytes)
    then (from_bytes vm bytes >>= λ m. ok (out_of_line (some m)))
    else ok (inline bytes)

unfoldable pub take_shared_memory : SendData → SendData × Option OsIpcSharedMemory
take_shared_memory (inline bytes) = (inline bytes, none)
take_shared_memory (out_of_line m) = (out_of_line none, m)

unfoldable pub is_inline : SendData → Bool
is_inline (inline _) = true
is_inline (out_of_line _) = false

unfoldable pub inline_data : SendData → List ℕ
inline_data (inline bytes) = bytes
inline_data (out_of_line _) = []

-- The sizes of `Message`, and of a descriptor of either kind.
abbrev pub message_size : ℕ
message_size = 28

abbrev pub port_descriptor_size : ℕ
port_descriptor_size = 12

abbrev pub ool_descriptor_size : ℕ
ool_descriptor_size = 16

-- `Message::size_of`, before the size is rounded up.
unfoldable pub content_size : SendData → ℕ → ℕ → ℕ
unfolding is_inline inline_data
content_size send_data port_length shared_memory_length =
    let n =
      message_size
      + port_descriptor_size * port_length
      + ool_descriptor_size * shared_memory_length
      + 1 in
    if is_inline send_data then n + (8 + length (inline_data send_data)) else n

unfoldable pub size_of : SendData → ℕ → ℕ → ℕ
unfolding content_size
size_of send_data port_length shared_memory_length =
    let size = content_size send_data port_length shared_memory_length in
    if size % 4 == 0 then size else size - size % 4 + 4

pub data Disposition : Type 0 where
  move_send move_receive : Disposition

-- A descriptor; its constructor is its `type_`.
pub data Descriptor : Type 0 where
  port_descriptor : ℕ → Disposition → Descriptor
  ool_descriptor : Address → ℕ → Descriptor

-- A message: the fields of its header and body, the descriptors, the flag, and, if it is set, the
-- number of bytes and the bytes.
pub record Message : Type 0 where
  pub msgh_size : ℕ
  pub msgh_remote_port : ℕ
  pub msgh_local_port : ℕ
  pub msgh_id : ℕ
  pub msgh_descriptor_count : ℕ
  pub descriptors : List Descriptor
  pub has_inline_data : Bool
  pub data_size : ℕ
  pub bytes : List ℕ

-- `size_of` is a multiple of 4, has room for what the message holds, and at most 3 bytes more.
pub size_of_bounds :
    (d : SendData) (p s : ℕ)
    → (size_of d p s % 4 ≡ 0)
      × (content_size d p s ≤ size_of d p s)
      × (size_of d p s < content_size d p s + 4)
unfolding size_of
size_of_bounds d p s = (ground arith, ground arith, ground arith)
