-- ===== src/Windows/Reader.antt =====
-- `MessageReader` of src/platform/windows/mod.rs: the reading end of a pipe. While a read is in
-- progress, handle and buffer are in the `AliasedCell` of `async`, where only the kernel uses them.
pub mod Invariant
pub mod Release
use ipc_channel.Base.{
  ℕ, ◌+◌, ◌-◌, ◌*◌, ◌%◌, ◌^◌, max, not, ◌&&◌, Option, none, some, List, [], ◌∷◌, ◌++◌, leb, ◌==◌,
  if◌then◌else◌, length, take, Result, chain, panic, waits, err, ok,
}
use ipc_channel.Windows.System.{
  WinError, BlockingMode, System, AliasedCell, from_system, pipe_buffer_size, is_blocking, new_cell,
  into_inner, windows_result, channel_closed, no_data, blocking,
}
use ipc_channel.Windows.Handle.{WinHandle, invalid, take_handle}
use ipc_channel.Windows.Message.{is_some}

-- `Vec<u8>` with its capacity.
pub record Vec : Type 0 where
  pub bytes : List ℕ
  pub capacity : ℕ

abbrev pub empty_vec : Vec
empty_vec = record { bytes = []; capacity = 0 }

-- `reserve`: room for so many more, at least twice the capacity if there is too little.
unfoldable pub reserve : ℕ → Vec → Vec
reserve additional v =
    if leb additional (v.capacity - length v.bytes)
    then v
    else record v { capacity = max (2 * v.capacity) (length v.bytes + additional) }

-- The `OVERLAPPED` is the kernel's: it comes with the completion.
pub record AsyncData : Type 0 where
  pub handle : WinHandle
  pub buf : Vec

pub record MessageReader : Type 0 where
  pub handle : WinHandle
  pub read_buf : Vec
  pub async : Option (AliasedCell AsyncData)
  pub entry_id : Option ℕ

unfoldable pub new_reader : WinHandle → MessageReader
new_reader x = record { handle = x; read_buf = empty_vec; async = none; entry_id = none }

-- `take`: the reader, and what is left in its place.
unfoldable pub take_reader : System → MessageReader → MessageReader × MessageReader
unfolding new_reader invalid
take_reader w r = (r, new_reader (invalid w))

-- What ReadFile, CancelIoEx and GetOverlappedResultEx give: TRUE, or FALSE and the last error.
pub data ReadFile : Type 0 where
  read_true : ReadFile
  read_false : ℕ → ReadFile

pub data Cancel : Type 0 where
  cancel_true : Cancel
  cancel_false : ℕ → Cancel

-- What the kernel has written: the two numbers in the `OVERLAPPED`, and the room behind the buffer.
pub record Overlapped : Type 0 where
  pub internal_high : ℕ
  pub offset : ℕ
  pub written : List ℕ

-- With an error stands what a CancelIoEx gives that follows it.
pub data Wait : Type 0 where
  wait_true : Overlapped → Wait
  wait_false : ℕ → Cancel → Wait

pub data IoResult : Type 0 where
  io_ok : Overlapped → IoResult
  io_err : WinError → IoResult

abbrev pub Outcome : Type 0
Outcome = MessageReader × Result WinError (Unit {0})

-- Handle and buffer are moved back, and no read is in progress any more.
unfoldable pub take_back : AsyncData → MessageReader → MessageReader
take_back d r = record r { handle = d.handle; read_buf = d.buf; async = none }

unfoldable pub issue_async_cancel : System → Cancel → MessageReader → Outcome
unfolding into_inner take_back
issue_async_cancel w answer r = elim r.async [
  | none ↦ (r, panic)
  | some cell ↦ elim answer [
    | cancel_true ↦ (r, ok tt)
    | cancel_false e ↦
        if e == w.error_not_found then (take_back (into_inner cell) r, ok tt) else (r, panic)
  ]
]

-- `let _ = ...`: only what is no result goes on.
abbrev pub ignore : Outcome → Outcome
ignore (r, ok _) = (r, ok tt)
ignore (r, err _) = (r, ok tt)
ignore (r, panic) = (r, panic)
ignore (r, waits) = (r, waits)

-- `cancel_io`, with the call of `fetch_async_result` in it as an argument.
unfoldable pub cancel_with : System → Cancel → (MessageReader → Outcome) → MessageReader → Outcome
unfolding issue_async_cancel
cancel_with w answer fetch r =
    if is_some r.async
    then (if is_some r.entry_id
        then (r, panic)
        else chain (issue_async_cancel w answer r)
            λ r' _. if is_some r'.async then ignore (fetch r') else (r', ok tt))
    else (r, ok tt)

-- The number of bytes that ReadFile may write: the room, `as u32`.
unfoldable pub room : Vec → ℕ
room v = (v.capacity - length v.bytes) % 2 ^ 32

unfoldable pub reserve_if_full : Vec → Vec
unfolding reserve
reserve_if_full v = if length v.bytes == v.capacity then reserve pipe_buffer_size v else v

-- The handle and the buffer as they are moved to the cell.
unfoldable pub issued : System → MessageReader → MessageReader
unfolding reserve_if_full take_handle new_cell
issued w r =
    let (x, rest) = take_handle w r.handle in
    record r {
      handle = rest;
      read_buf = empty_vec;
      async = some (new_cell (record { handle = x; buf = reserve_if_full r.read_buf }));
    }

-- The `match` on the result of ReadFile.
unfoldable pub read_file : System → ReadFile → MessageReader → Outcome
unfolding into_inner take_back from_system
read_file w read_true r = (r, ok tt)
read_file w (read_false e) r = if e == w.error_io_pending then (r, ok tt) else (elim r.async [
  | none ↦ (r, panic)
  | some cell ↦ (
    take_back (into_inner cell) r,
    err (if e == w.error_broken_pipe then channel_closed else from_system e),
  )
])

unfoldable pub start_read : System → ReadFile → MessageReader → Outcome
unfolding read_file issued
start_read w answer r = if is_some r.async then (r, ok tt) else read_file w answer (issued w r)

-- The bytes that were read become part of the buffer.
unfoldable pub extend : Overlapped → MessageReader → Outcome
extend ov r =
    let nbytes = ov.internal_high % 2 ^ 32 in
    let new_size = length r.read_buf.bytes + nbytes in
    let read_buf : Vec = record r.read_buf { bytes = r.read_buf.bytes ++ take nbytes ov.written } in
    if ov.offset == 0 && leb new_size r.read_buf.capacity
    then (record r { read_buf = read_buf }, ok tt)
    else (r, panic)

-- The error that a failed read is reported as.
unfoldable pub read_error : System → WinError → WinError
read_error w (windows_result e) =
    if e == w.error_broken_pipe then channel_closed else windows_result e
read_error w e = e

unfoldable pub notify_completion : System → IoResult → MessageReader → Outcome
unfolding into_inner take_back extend read_error
notify_completion w io_result r = elim r.async [
  | none ↦ (r, panic)
  | some cell ↦ elim io_result [
    | io_ok ov ↦ extend ov (take_back (into_inner cell) r)
    | io_err e ↦ (take_back (into_inner cell) r, err (read_error w e))
  ]
]

-- The answers of the kernel are used up by the calls, the retries after a cancelled read among them;
-- without a further one, the call waits.
unfoldable pub fetch_async_result : System → List Wait → BlockingMode → MessageReader → Outcome
unfolding notify_completion cancel_with from_system
fetch_async_result w [] mode r = if is_some r.async then (r, waits) else (r, panic)
fetch_async_result w (wait_true ov ∷ _) mode r = notify_completion w (io_ok ov) r
fetch_async_result w (wait_false e cancel ∷ answers) mode r =
    let cancelled = cancel_with w cancel (fetch_async_result w answers blocking) r in
    if is_some r.async
    then (if not (is_blocking mode) && e == w.error_io_incomplete
        then (r, err no_data)
        else (if e == w.wait_timeout
            then chain cancelled (λ r' _. (r', err no_data))
            else notify_completion w (io_err (from_system e)) r))
    else (r, panic)

unfoldable pub cancel_io : System → Cancel → List Wait → MessageReader → Outcome
unfolding cancel_with fetch_async_result
cancel_io w cancel answers r = cancel_with w cancel (fetch_async_result w answers blocking) r

-- The drop of a reader; the handle is dropped after it.
unfoldable pub drop_reader : System → Cancel → List Wait → MessageReader → Outcome
unfolding cancel_io
drop_reader w cancel answers r = cancel_io w cancel answers r

-- The answer of CreateIoCompletionPort is `none`, or the last error.
unfoldable pub add_to_iocp : System → Option ℕ → ReadFile → ℕ → MessageReader → Outcome
unfolding start_read from_system
add_to_iocp w port answer entry_id r = if is_some r.entry_id then (r, panic) else (elim port [
  | some e ↦ (r, err (from_system e))
  | none ↦ start_read w answer (record r { entry_id = some entry_id })
])
