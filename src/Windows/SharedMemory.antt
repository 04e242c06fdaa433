-- ===== src/Windows/SharedMemory.antt =====
-- Shared memory of src/platform/windows/mod.rs: a mapping without a file, and a view of it. What the
-- views hold is a function of their addresses.
use ipc_channel.Base.{
  ℕ, ◌-◌, ◌/◌, ◌%◌, ◌^◌, not, ◌&&◌, List, ◌++◌, ltb, ◌==◌, if◌then◌else◌, length, take, drop,
  replicate, Result, panic, err, ok,
}
use ipc_channel.Windows.System.{WinError, System, from_system}
use ipc_channel.Windows.Handle.{WinHandle, new_handle, is_valid, Duplicate, dup_handle}

pub record OsIpcSharedMemory : Type 0 where
  pub handle : WinHandle
  pub ptr : ℕ
  pub length : ℕ

abbrev pub Views : Type 0
Views = ℕ → List ℕ

-- `from_handle`: the view of the whole mapping. `GetLastError` is the last argument.
unfoldable pub from_handle : System → WinHandle → ℕ → ℕ → Result WinError OsIpcSharedMemory
unfolding from_system
from_handle w x n last_error =
    let address = w.map_view_of_file x.h in
    if address == 0
    then err (from_system last_error)
    else ok (record { handle = x; ptr = address; length = n })

-- What CreateFileMappingA gives for a size, in two halves, and the error that is the last.
abbrev pub CreateMapping : Type 0
CreateMapping = ℕ → ℕ → ℕ × ℕ

-- `OsIpcSharedMemory::new`: sizes up to 2^32 - 2.
unfoldable pub new_memory : System → CreateMapping → ℕ → Result WinError OsIpcSharedMemory
unfolding from_handle from_system new_handle
new_memory w create n =
    let (h, last_error) = create (n / 2 ^ 32 % 2 ^ 32) (n % 2 ^ 32) in
    if ltb n (2 ^ 32 - 1)
    then (if h == w.invalid_handle_value
        then err (from_system last_error)
        else from_handle w (new_handle h) n last_error)
    else panic

abbrev pub write_view : Views → ℕ → List ℕ → Views
write_view views p xs q = if q == p then xs ++ drop (length xs) (views q) else views q

-- `unwrap` of `new`, then the bytes are stored through the pointer.
unfoldable pub filled_with :
    System → CreateMapping → List ℕ → Views → Result WinError (OsIpcSharedMemory × Views)
unfolding new_memory
filled_with w create xs views = elim (new_memory w create (length xs)) [
  | ok m ↦ ok (m, write_view views m.ptr xs)
  | _ ↦ panic
]

unfoldable pub from_byte :
    System → CreateMapping → ℕ → ℕ → Views → Result WinError (OsIpcSharedMemory × Views)
unfolding filled_with
from_byte w create byte n views = filled_with w create (replicate n byte) views

unfoldable pub from_bytes :
    System → CreateMapping → List ℕ → Views → Result WinError (OsIpcSharedMemory × Views)
unfolding filled_with
from_bytes w create bytes views = filled_with w create bytes views

unfoldable pub deref : System → OsIpcSharedMemory → Views → Result WinError (List ℕ)
unfolding is_valid
deref w m views =
    if not (m.ptr == 0) && is_valid w m.handle then ok (take m.length (views m.ptr)) else panic

-- `Clone`: `unwrap` of the handle's duplicate and of its view.
unfoldable pub clone_memory :
    System → Duplicate → ℕ → OsIpcSharedMemory → Result WinError OsIpcSharedMemory
unfolding dup_handle from_handle
clone_memory w dup last_error m = elim (dup_handle w dup m.handle) [
  | ok x ↦ elim (from_handle w x m.length last_error) [ ok m' ↦ ok m' | _ ↦ panic ]
  | _ ↦ panic
]
