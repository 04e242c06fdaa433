-- ===== src/Windows/Receiver.antt =====
-- `OsIpcReceiver` of src/platform/windows/mod.rs: how messages are taken out of the buffer of a
-- `MessageReader`, and the loops that fill it.
pub mod Invariant
pub mod Framing
pub mod Reassembly
pub mod Transfer
use ipc_channel.Base.{
  ℕ, Bool, false, Option, none, some, List, [], ◌∷◌, map, ltb, ◌==◌, if◌then◌else◌, length, drop,
  Result, ◌>>=◌, on_ok, chain, panic, waits, err, ok,
}
use ipc_channel.Windows.System.{
  WinError, BlockingMode, System, from_system, new_cell, into_inner, drop_cell, channel_closed,
  blocking, nonblocking, timeout,
}
use ipc_channel.Windows.Handle.{WinHandle, OsOpaqueIpcChannel, new_handle, take_handle, opaque}
use ipc_channel.Windows.Message.{
  Message, OutOfBandMessage, from_bytes, message_data, size, is_empty, is_some, oob_data,
}
use ipc_channel.Windows.SharedMemory.{OsIpcSharedMemory, from_handle}
use ipc_channel.Windows.Reader.{
  MessageReader, ReadFile, Cancel, Wait, reserve, new_reader, Outcome, start_read,
  fetch_async_result, cancel_io,
}

-- The reader is in a `RefCell`: a function on it gives the reader that is left.
pub record OsIpcReceiver : Type 0 where
  pub reader : MessageReader

unfoldable pub receiver_from_handle : WinHandle → OsIpcReceiver
unfolding new_reader
receiver_from_handle x = record { reader = new_reader x }

-- `to_receiver`, with the channel that is left.
unfoldable pub to_receiver : System → OsOpaqueIpcChannel → OsIpcReceiver × OsOpaqueIpcChannel
unfolding take_handle receiver_from_handle
to_receiver w c =
    let (x, rest) = take_handle w c.handle in (receiver_from_handle x, record { handle = rest })

-- What the kernel answers in one turn of a loop: to ReadFile, and to the waits for its completion.
pub record Turn : Type 0 where
  pub read : ReadFile
  pub answers : List Wait

unfoldable pub start_and_fetch : System → BlockingMode → Turn → MessageReader → Outcome
unfolding start_read fetch_async_result
start_and_fetch w mode t r =
    chain (start_read w t.read r) λ r' _. fetch_async_result w t.answers mode r'

-- A closed channel is not reported as such by `read_raw_sized`.
unfoldable pub raw_error : System → WinError → WinError
unfolding from_system
raw_error w channel_closed = from_system w.error_broken_pipe
raw_error w e = e

-- What a turn comes to: an error ends the loop.
unfoldable pub raw_next :
    System → (MessageReader → Result WinError (List ℕ)) → Outcome → Result WinError (List ℕ)
unfolding raw_error
raw_next w go (r, ok _) = go r
raw_next w go (r, err e) = err (raw_error w e)
raw_next w go (r, panic) = panic
raw_next w go (r, waits) = waits

-- `while self.read_buf.len() < size`
unfoldable pub raw_loop : System → ℕ → List Turn → MessageReader → Result WinError (List ℕ)
unfolding start_and_fetch raw_next
raw_loop w n [] r = if ltb (length r.read_buf.bytes) n then waits else ok r.read_buf.bytes
raw_loop w n (t ∷ turns) r =
    if ltb (length r.read_buf.bytes) n
    then raw_next w (λ r'. raw_loop w n turns r') (start_and_fetch w blocking t r)
    else ok r.read_buf.bytes

-- The reader is consumed.
unfoldable pub read_raw_sized : System → List Turn → ℕ → MessageReader → Result WinError (List ℕ)
unfolding raw_loop reserve
read_raw_sized w turns n r =
    if length r.read_buf.bytes == 0
    then raw_loop w n turns (record r { read_buf = reserve n r.read_buf })
    else panic

unfoldable pub recv_raw : System → List Turn → ℕ → OsIpcReceiver → Result WinError (List ℕ)
unfolding read_raw_sized
recv_raw w turns n receiver = read_raw_sized w turns n receiver.reader

pub record Received : Type 0 where
  pub bytes : List ℕ
  pub channels : List OsOpaqueIpcChannel
  pub regions : List OsIpcSharedMemory

unfoldable pub open_channels : List ℕ → List OsOpaqueIpcChannel
unfolding opaque new_handle
open_channels handles = map (λ h. opaque (new_handle h)) handles

-- `from_handle(..).unwrap()` for each region.
unfoldable pub open_regions : System → List (ℕ × ℕ) → Result WinError (List OsIpcSharedMemory)
unfolding from_handle new_handle
open_regions w [] = ok []
open_regions w ((h, n) ∷ rest) = elim (from_handle w (new_handle h) n 0) [
  | ok m ↦ (open_regions w rest >>= λ ms. ok (m ∷ ms))
  | _ ↦ panic
]

-- What arrives on the pipe made for a message, by its handle.
abbrev pub Dedicated : Type 0
Dedicated = ℕ → List Turn

unfoldable pub big_data : System → Dedicated → Option (ℕ × ℕ) → Result WinError (Option (List ℕ))
unfolding receiver_from_handle recv_raw new_handle
big_data w dedicated none = ok none
big_data w dedicated (some (h, n)) =
    recv_raw w (dedicated h) n (receiver_from_handle (new_handle h)) >>= λ bytes. ok (some bytes)

unfoldable pub data_or : Message → Option (List ℕ) → List ℕ
unfolding message_data
data_or m none = message_data m
data_or m (some bytes) = bytes

-- The body of `get_message` for a message with its out-of-band data.
unfoldable pub open_message :
    System → Dedicated → Message → Option OutOfBandMessage → Result WinError Received
unfolding message_data open_channels open_regions big_data data_or
open_message w dedicated m none =
    ok (record { bytes = message_data m; channels = []; regions = [] })
open_message w dedicated m (some oob) = do
  regions ← open_regions w oob.shmem_handles
  big ← big_data w dedicated oob.big_data_receiver_handle
  ok (record {
    bytes = data_or m big;
    channels = open_channels oob.channel_handles;
    regions = regions;
  })

unfoldable pub drain : ℕ → MessageReader → MessageReader
drain n r = record r {
  read_buf = record r.read_buf {
    bytes = if length r.read_buf.bytes == n then [] else drop n r.read_buf.bytes;
  };
}

-- The message is opened, and then its bytes leave the buffer.
unfoldable pub take_message :
    System → Dedicated → Message → MessageReader → MessageReader × Result WinError (Option Received)
unfolding oob_data open_message drain size
take_message w dedicated m r =
    on_ok r (oob_data w m >>= λ oob. open_message w dedicated m oob)
      λ received. (drain (size m) r, ok (some received))

unfoldable pub get_message :
    System → Dedicated → MessageReader → MessageReader × Result WinError (Option Received)
unfolding from_bytes
get_message w dedicated r = elim r.async [
  | some _ ↦ (r, ok none)
  | none ↦ elim (from_bytes r.read_buf.bytes) [
    | none ↦ (r, ok none)
    | some m ↦ take_message w dedicated m r
  ]
]

-- A message ends the loop of `receive_message`; without one it goes on.
abbrev pub next :
    (MessageReader → MessageReader × Result WinError Received)
    → MessageReader
    → Option Received
    → MessageReader × Result WinError Received
next go r (some received) = (r, ok received)
next go r none = go r

-- The loop of `receive_message`; after the first turn it blocks.
unfoldable pub receive_loop :
    System
    → Dedicated
    → BlockingMode
    → List Turn
    → MessageReader
    → MessageReader × Result WinError Received
unfolding get_message start_and_fetch
receive_loop w dedicated mode [] r = chain (get_message w dedicated r) (next λ r'. (r', waits))
receive_loop w dedicated mode (t ∷ turns) r = chain (get_message w dedicated r) (
    next λ r'.
      chain (start_and_fetch w mode t r') λ r'' _. receive_loop w dedicated blocking turns r'')

unfoldable pub receive_message :
    System
    → Dedicated
    → BlockingMode
    → List Turn
    → OsIpcReceiver
    → OsIpcReceiver × Result WinError Received
unfolding receive_loop
receive_message w dedicated mode turns receiver =
    let (reader, result) = receive_loop w dedicated mode turns receiver.reader in
    if is_some receiver.reader.entry_id
    then (receiver, panic)
    else (record { reader = reader }, result)

unfoldable pub recv :
    System → Dedicated → List Turn → OsIpcReceiver → OsIpcReceiver × Result WinError Received
unfolding receive_message
recv w dedicated turns receiver = receive_message w dedicated blocking turns receiver

unfoldable pub try_recv :
    System → Dedicated → List Turn → OsIpcReceiver → OsIpcReceiver × Result WinError Received
unfolding receive_message
try_recv w dedicated turns receiver = receive_message w dedicated nonblocking turns receiver

unfoldable pub try_recv_timeout :
    System → Dedicated → ℕ → List Turn → OsIpcReceiver → OsIpcReceiver × Result WinError Received
unfolding receive_message
try_recv_timeout w dedicated duration turns receiver =
    receive_message w dedicated (timeout duration) turns receiver

-- `prepare_for_transfer`: whether nothing is left in the buffer, once no read is in progress.
unfoldable pub prepare_for_transfer :
    System → Cancel → List Wait → OsIpcReceiver → OsIpcReceiver × Result WinError Bool
unfolding cancel_io
prepare_for_transfer w cancel answers receiver =
    let (r, result) = cancel_io w cancel answers receiver.reader in
    on_ok (record { reader = r }) result
      λ _. (record { reader = r }, ok (is_empty r.read_buf.bytes))

-- `consume`: a receiver for the handle, and what is left.
unfoldable pub consume : System → OsIpcReceiver → OsIpcReceiver × Result WinError OsIpcReceiver
unfolding take_handle receiver_from_handle
consume w receiver =
    let (x, rest) = take_handle w receiver.reader.handle in
    if is_some receiver.reader.async
    then (receiver, panic)
    else (record { reader = record receiver.reader { handle = rest } }, ok (receiver_from_handle x))

-- ConnectNamedPipe: TRUE, or FALSE and the last error.
pub data Connect : Type 0 where
  connect_true : Connect
  connect_false : ℕ → Connect

-- `accept`. The answer of GetOverlappedResult is `none`, or the last error; the `OVERLAPPED` is in an
-- `AliasedCell`, which a return from the middle drops.
unfoldable pub accept : System → Connect → Option ℕ → Result WinError (Unit {0})
unfolding from_system new_cell drop_cell into_inner
accept w connect_true overlapped = panic
accept w (connect_false e) overlapped =
    if e == w.error_pipe_connected
    then ok tt
    else if e == w.error_no_data
    then ok tt
    else if e == w.error_io_pending
    then (elim overlapped [
      | none ↦ ok tt
      | some failed ↦ (drop_cell false (new_cell failed) >>= λ _. err (from_system failed))
    ])
    else err (from_system e)
