-- ===== src/Windows/Handle.antt =====
-- `WinHandle` of src/platform/windows/mod.rs, the duplication of handles for another process, and the
-- types that a handle is wrapped in: opaque channels, senders.
use ipc_channel.Base.{ℕ, Bool, true, false, not, ◌||◌, ◌==◌, if◌then◌else◌, Result, panic, err, ok}
use ipc_channel.Windows.System.{WinError, Answer, System, from_system, gives, fails}

-- A HANDLE is a number; `as intptr_t` and back keep it.
pub record WinHandle : Type 0 where
  pub h : ℕ

unfoldable pub new_handle : ℕ → WinHandle
new_handle h = record { h = h }

unfoldable pub invalid : System → WinHandle
invalid w = record { h = w.invalid_handle_value }

unfoldable pub is_valid : System → WinHandle → Bool
is_valid w x = not (x.h == w.invalid_handle_value)

-- `take_raw`: the handle, and the invalid one that is left.
unfoldable pub take_raw : System → WinHandle → ℕ × WinHandle
take_raw w x = (x.h, record { h = w.invalid_handle_value })

unfoldable pub take_handle : System → WinHandle → WinHandle × WinHandle
unfolding take_raw new_handle
take_handle w x = let (raw, rest) = take_raw w x in (new_handle raw, rest)

-- The drop: whether CloseHandle succeeds is asked of a valid handle only.
unfoldable pub drop_handle : System → Bool → Bool → WinHandle → Result WinError (Unit {0})
unfolding is_valid
drop_handle w panicking closes x =
    if is_valid w x then (if panicking || closes then ok tt else panic) else ok tt

-- What DuplicateHandle gives: the handle in the target process, or the last error.
-- It is asked with a handle, the target process, and whether the source is closed.
abbrev pub Duplicate : Type 0
Duplicate = ℕ → ℕ → Bool → Answer

unfoldable pub dup_handle_to_process_with_flags :
    System → Duplicate → WinHandle → WinHandle → Bool → Result WinError WinHandle
unfolding is_valid invalid new_handle from_system
dup_handle_to_process_with_flags w dup x other_process close_source =
    if is_valid w x
    then (elim (dup x.h other_process.h close_source) [
      | gives h ↦ ok (new_handle h)
      | fails e ↦ err (from_system e)
    ])
    else ok (invalid w)

unfoldable pub dup_handle_to_process :
    System → Duplicate → WinHandle → WinHandle → Result WinError WinHandle
unfolding dup_handle_to_process_with_flags
dup_handle_to_process w dup x other_process =
    dup_handle_to_process_with_flags w dup x other_process false

unfoldable pub dup_handle : System → Duplicate → WinHandle → Result WinError WinHandle
unfolding dup_handle_to_process new_handle
dup_handle w dup x = dup_handle_to_process w dup x (new_handle w.current_process_handle)

-- The source is closed by the call, and forgotten.
unfoldable pub move_handle_to_process :
    System → Duplicate → WinHandle → WinHandle → Result WinError WinHandle
unfolding dup_handle_to_process_with_flags
move_handle_to_process w dup x other_process =
    dup_handle_to_process_with_flags w dup x other_process true

pub record OsIpcSender : Type 0 where
  pub handle : WinHandle

unfoldable pub sender_from_handle : WinHandle → OsIpcSender
sender_from_handle x = record { handle = x }

-- `Clone for OsIpcSender`: `unwrap` of the duplicate.
unfoldable pub clone_sender : System → Duplicate → OsIpcSender → Result WinError OsIpcSender
unfolding dup_handle sender_from_handle
clone_sender w dup s = elim (dup_handle w dup s.handle) [
  | ok x ↦ ok (sender_from_handle x)
  | _ ↦ panic
]

pub record OsOpaqueIpcChannel : Type 0 where
  pub handle : WinHandle

unfoldable pub opaque : WinHandle → OsOpaqueIpcChannel
opaque x = record { handle = x }

-- `to_sender`, with the channel that is left.
unfoldable pub to_sender : System → OsOpaqueIpcChannel → OsIpcSender × OsOpaqueIpcChannel
unfolding take_handle sender_from_handle
to_sender w c =
    let (x, rest) = take_handle w c.handle in (sender_from_handle x, record { handle = rest })

-- The drop of an opaque channel (in a debug build): it must have been converted.
unfoldable pub drop_opaque : System → OsOpaqueIpcChannel → Result WinError (Unit {0})
unfolding is_valid
drop_opaque w c = if is_valid w c.handle then panic else ok tt
