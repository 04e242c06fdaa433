-- ===== src/Windows/System.antt =====
-- What the parts of src/platform/windows/mod.rs share: the errors and sizes, the constants of the
-- system and bincode as arguments, and the `AliasedCell` of src/platform/windows/aliased_cell.rs.
use ipc_channel.Base.{
  ℕ, ◌+◌, ◌*◌, Bool, true, false, Option, List, if◌then◌else◌, Result, panic, ok,
}

pub data WinError : Type 0 where
  windows_result : ℕ → WinError
  channel_closed no_data : WinError

-- `WinError::from_system`; the name of the call is only traced.
unfoldable pub from_system : ℕ → WinError
from_system e = windows_result e

unfoldable pub channel_is_closed : WinError → Bool
channel_is_closed channel_closed = true
channel_is_closed _ = false

abbrev pub max_fragment_size : ℕ
max_fragment_size = 64 * 1024

abbrev pub pipe_buffer_size : ℕ
pipe_buffer_size = max_fragment_size + 4 * 1024

-- A timeout is in milliseconds.
pub data BlockingMode : Type 0 where
  blocking nonblocking : BlockingMode
  timeout : ℕ → BlockingMode

abbrev pub is_blocking : BlockingMode → Bool
is_blocking blocking = true
is_blocking _ = false

-- What a call that makes a handle or a number gives, or the last error.
pub data Answer : Type 0 where
  gives : ℕ → Answer
  fails : ℕ → Answer

-- The tuple that the implementations of `Serialize` and `Deserialize` go through: process, handles of
-- channels, handles and sizes of shared memory, handle and size of the big data.
abbrev pub OobTuple : Type 0
OobTuple = ℕ × List ℕ × List (ℕ × ℕ) × Option (ℕ × ℕ)

-- The numbers of winapi, this process, and bincode on the tuple. `map_view_of_file` gives the address
-- of a view, 0 where there is none.
pub record System : Type 0 where
  pub invalid_handle_value : ℕ
  pub error_not_found : ℕ
  pub error_io_pending : ℕ
  pub error_broken_pipe : ℕ
  pub error_io_incomplete : ℕ
  pub wait_timeout : ℕ
  pub error_pipe_connected : ℕ
  pub error_no_data : ℕ
  pub current_process_id : ℕ
  pub current_process_handle : ℕ
  pub map_view_of_file : ℕ → ℕ
  pub serialize : OobTuple → List ℕ
  pub deserialize : List ℕ → Option OobTuple

-- `AliasedCell<T>`: the value cannot be reached but by `alias`, `alias_mut` and `into_inner`.
pub record AliasedCell {ℓ} (A : Type ℓ) : Type ℓ where
  pub value : A

module _ {ℓ} {A : Type ℓ} where
  unfoldable pub new_cell : A → AliasedCell A
  new_cell a = record { value = a }

  unfoldable pub alias : AliasedCell A → A
  alias c = c.value

  -- `alias_mut`, with what is done through the reference.
  unfoldable pub alias_mut : (A → A) → AliasedCell A → AliasedCell A
  alias_mut f c = record { value = f c.value }

  unfoldable pub into_inner : AliasedCell A → A
  into_inner c = c.value

  -- Its drop: the bomb goes off (or prints, in a thread that panics already), and the value leaks.
  unfoldable pub drop_cell : Bool → AliasedCell A → Result WinError (Unit {0})
  drop_cell panicking c = if panicking then ok tt else panic
