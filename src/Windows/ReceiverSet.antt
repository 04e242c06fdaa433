-- ===== src/Windows/ReceiverSet.antt =====
-- `OsIpcReceiverSet` of src/platform/windows/mod.rs: readers that all have a read in progress, and a
-- completion port that tells which read has ended.
pub mod Listening
pub mod Delivery
use ipc_channel.Base.{
  ℕ, zero, suc, ◌+◌, ◌-◌, ◌%◌, ◌^◌, Bool, Option, none, some, List, [], ◌∷◌, ◌++◌, map, ◌==◌,
  if◌then◌else◌, length, get_elem?, set, take, Result, ◌>>=◌, unwrap, on_ok, chain, panic, waits,
  err, ok,
}
use ipc_channel.Windows.System.{
  WinError, Answer, System, from_system, alias, channel_closed, gives, fails,
}
use ipc_channel.Windows.Handle.{WinHandle, new_handle}
use ipc_channel.Windows.Message.{is_empty, is_some}
use ipc_channel.Windows.Reader.{
  MessageReader, ReadFile, Cancel, Overlapped, IoResult, Outcome, issue_async_cancel, start_read,
  notify_completion, add_to_iocp, io_ok, io_err,
}
use ipc_channel.Windows.Receiver.{OsIpcReceiver, Received, Dedicated, get_message}

pub record OsIpcReceiverSet : Type 0 where
  pub incrementor : ℕ
  pub iocp : WinHandle
  pub readers : List MessageReader
  pub closed_readers : List ℕ

pub data OsIpcSelectionResult : Type 0 where
  data_received : ℕ → Received → OsIpcSelectionResult
  closed_channel : ℕ → OsIpcSelectionResult

-- `new`, with the answer of CreateIoCompletionPort.
unfoldable pub new : Answer → Result WinError OsIpcReceiverSet
unfolding from_system new_handle
new (gives h) =
    ok (record { incrementor = 0; iocp = new_handle h; readers = []; closed_readers = [] })
new (fails e) = err (from_system e)

-- What `add` makes of the end of `add_to_iocp`.
unfoldable pub added : ℕ → OsIpcReceiverSet → Outcome → OsIpcReceiverSet × Result WinError ℕ
added entry_id s (r, ok _) = (record s { readers = s.readers ++ (r ∷ []) }, ok entry_id)
added entry_id s (r, err channel_closed) =
    (record s { closed_readers = s.closed_readers ++ (entry_id ∷ []) }, ok entry_id)
added entry_id s (r, err e) = (s, err e)
added entry_id s (r, panic) = (s, panic)
added entry_id s (r, waits) = (s, waits)

unfoldable pub add :
    System
    → Option ℕ
    → ReadFile
    → OsIpcReceiver
    → OsIpcReceiverSet
    → OsIpcReceiverSet × Result WinError ℕ
unfolding add_to_iocp added
add w port answer receiver s =
    let entry_id = s.incrementor in
    let s' : OsIpcReceiverSet = record s { incrementor = (s.incrementor + 1) % 2 ^ 64 } in
    added entry_id s' (add_to_iocp w port answer entry_id receiver.reader)

-- What GetQueuedCompletionStatus gives: its result, the key, the `OVERLAPPED` if the pointer is not
-- null, and the last error.
pub record Dequeued : Type 0 where
  pub succeeds : Bool
  pub key : ℕ
  pub ov : Option Overlapped
  pub error : ℕ

-- The index of the first reader with the handle. One without a read in progress panics, and so does
-- a handle that no reader has.
unfoldable pub find_reader : ℕ → List MessageReader → Result WinError ℕ
unfolding alias
find_reader key [] = panic
find_reader key (r ∷ readers) = unwrap r.async >>= λ cell.
    if (alias cell).handle.h == key then ok 0 else (find_reader key readers >>= λ i. ok (suc i))

-- `Vec::swap_remove`: the last element takes the place.
unfoldable pub swap_remove : {A : Type 0} → ℕ → List A → List A
swap_remove i xs =
    let n = length xs - 1 in
    elim (get_elem? xs n) [ none ↦ xs | some last ↦ take n (set xs i last) ]

-- The reader's end of `fetch_iocp_result`: its own result is handed on.
abbrev pub notified :
    OsIpcReceiverSet
    → Outcome
    → OsIpcReceiverSet × Result WinError (MessageReader × Result WinError (Unit {0}))
notified s (r, ok u) = (s, ok (r, ok u))
notified s (r, err e) = (s, ok (r, err e))
notified s (r, panic) = (s, panic)
notified s (r, waits) = (s, waits)

-- The reader of the key is taken out and told.
unfoldable pub complete :
    System
    → ℕ
    → IoResult
    → OsIpcReceiverSet
    → OsIpcReceiverSet × Result WinError (MessageReader × Result WinError (Unit {0}))
unfolding find_reader swap_remove notify_completion
complete w key io_result s = on_ok s (find_reader key s.readers) λ i.
    on_ok s (unwrap (get_elem? s.readers i)) λ r.
      notified (record s { readers = swap_remove i s.readers }) (notify_completion w io_result r)

-- Without an `OVERLAPPED`, the call itself has failed.
unfoldable pub conclude :
    System
    → Dequeued
    → OsIpcReceiverSet
    → Option Overlapped
    → OsIpcReceiverSet × Result WinError (MessageReader × Result WinError (Unit {0}))
unfolding complete from_system
conclude w d s none = (s, if d.succeeds then panic else err (from_system d.error))
conclude w d s (some ov) =
    if d.key == w.invalid_handle_value
    then (s, panic)
    else (complete w d.key (if d.succeeds then io_ok ov else io_err (from_system d.error)) s)

unfoldable pub fetch_iocp_result :
    System
    → Dequeued
    → OsIpcReceiverSet
    → OsIpcReceiverSet × Result WinError (MessageReader × Result WinError (Unit {0}))
unfolding conclude
fetch_iocp_result w d s = conclude w d s d.ov

-- The loop goes on after a message.
abbrev pub more :
    (MessageReader → MessageReader × Result WinError (List Received))
    → MessageReader
    → Option Received
    → MessageReader × Result WinError (List Received)
more go r none = (r, ok [])
more go r (some m) = chain (go r) λ r' ms. (r', ok (m ∷ ms))

-- `while let Some(..) = reader.get_message()?`. Each message takes a header at least, so the length of
-- the buffer is enough fuel.
unfoldable pub drain_messages :
    System → Dedicated → ℕ → MessageReader → MessageReader × Result WinError (List Received)
unfolding get_message
drain_messages w dedicated zero r = (r, waits)
drain_messages w dedicated (suc fuel) r =
    chain (get_message w dedicated r) (more λ r'. drain_messages w dedicated fuel r')

-- The results of a reader's messages; `entry_id.unwrap()`.
unfoldable pub data_results : Option ℕ → List Received → Result WinError (List OsIpcSelectionResult)
data_results id [] = ok []
data_results id (m ∷ ms) = do
  entry_id ← unwrap id
  rest ← data_results id ms
  ok (data_received entry_id m ∷ rest)

-- What is done with a reader after its messages: it goes back to the set, or is reported closed.
unfoldable pub reinstate :
    OsIpcReceiverSet
    → List OsIpcSelectionResult
    → Outcome
    → OsIpcReceiverSet × Result WinError (List OsIpcSelectionResult)
reinstate s results (r, ok _) = (record s { readers = s.readers ++ (r ∷ []) }, ok results)
reinstate s results (r, err channel_closed) =
    on_ok s (unwrap r.entry_id) λ id. (s, ok (results ++ (closed_channel id ∷ [])))
reinstate s results (r, err e) = (s, err e)
reinstate s results (r, panic) = (s, panic)
reinstate s results (r, waits) = (s, waits)

unfoldable pub serve :
    System
    → Dedicated
    → ReadFile
    → OsIpcReceiverSet
    → MessageReader
    → OsIpcReceiverSet × Result WinError (List OsIpcSelectionResult)
unfolding drain_messages data_results start_read reinstate
serve w dedicated answer s r =
    let (r', messages) = drain_messages w dedicated (suc (length r.read_buf.bytes)) r in
    on_ok s messages λ ms.
      on_ok s (data_results r'.entry_id ms) λ results. reinstate s results (start_read w answer r')

-- The kernel's answers in one turn of the loop of `select`.
pub record SelectTurn : Type 0 where
  pub dequeued : Dequeued
  pub read : ReadFile

-- What is done with the reader whose read has ended.
unfoldable pub turn :
    System
    → Dedicated
    → SelectTurn
    → OsIpcReceiverSet
    → MessageReader × Result WinError (Unit {0})
    → OsIpcReceiverSet × Result WinError (List OsIpcSelectionResult)
unfolding serve
turn w dedicated t s (r, ok _) = serve w dedicated t.read s r
turn w dedicated t s (r, err channel_closed) =
    on_ok s (unwrap r.entry_id) λ id. (s, ok (closed_channel id ∷ []))
turn w dedicated t s (r, err e) = (s, err e)
turn w dedicated t s (r, panic) = (s, panic)
turn w dedicated t s (r, waits) = (s, waits)

unfoldable pub select_turn :
    System
    → Dedicated
    → SelectTurn
    → OsIpcReceiverSet
    → OsIpcReceiverSet × Result WinError (List OsIpcSelectionResult)
unfolding fetch_iocp_result turn
select_turn w dedicated t s = chain (fetch_iocp_result w t.dequeued s) (turn w dedicated t)

unfoldable pub select_loop :
    System
    → Dedicated
    → List SelectTurn
    → OsIpcReceiverSet
    → OsIpcReceiverSet × Result WinError (List OsIpcSelectionResult)
unfolding select_turn
select_loop w dedicated [] s = (s, waits)
select_loop w dedicated (t ∷ turns) s =
    chain (select_turn w dedicated t s)
      λ s' results. if is_empty results then select_loop w dedicated turns s' else (s', ok results)

unfoldable pub select :
    System
    → Dedicated
    → List SelectTurn
    → OsIpcReceiverSet
    → OsIpcReceiverSet × Result WinError (List OsIpcSelectionResult)
unfolding select_loop
select w dedicated turns s =
    let results = map closed_channel s.closed_readers in
    let s' : OsIpcReceiverSet = record s { closed_readers = [] } in
    if length s.readers + length s.closed_readers == 0
    then (s, panic)
    else (if is_empty results then select_loop w dedicated turns s' else (s', ok results))

-- `OsIpcSelectionResult::unwrap`
unfoldable pub unwrap_selection : OsIpcSelectionResult → Result WinError (ℕ × Received)
unwrap_selection (data_received id m) = ok (id, m)
unwrap_selection (closed_channel id) = panic

-- The drop: every read is cancelled; the readers that still have one are waited for.
unfoldable pub cancel_all :
    System
    → (MessageReader → Cancel)
    → List MessageReader
    → List MessageReader × Result WinError (Unit {0})
unfolding issue_async_cancel
cancel_all w cancel [] = ([], ok tt)
cancel_all w cancel (r ∷ readers) =
    let (r', result) = issue_async_cancel w (cancel r) r in
    let (rest, results) = cancel_all w cancel readers in
    on_ok (r' ∷ readers) result λ _. (r' ∷ rest, results)

unfoldable pub retain_reading : List MessageReader → List MessageReader
retain_reading [] = []
retain_reading (r ∷ readers) =
    let rest = retain_reading readers in if is_some r.async then r ∷ rest else rest

-- `fetch_iocp_result().unwrap()` until no reader is left.
unfoldable pub await_all :
    System → List Dequeued → OsIpcReceiverSet → OsIpcReceiverSet × Result WinError (Unit {0})
unfolding fetch_iocp_result
await_all w [] s = (s, if is_empty s.readers then ok tt else waits)
await_all w (d ∷ dequeued) s =
    let (s', result) = fetch_iocp_result w d s in
    let rest = await_all w dequeued s' in
    if is_empty s.readers then (s, ok tt) else (elim result [
      | ok _ ↦ rest
      | err _ ↦ (s', panic)
      | panic ↦ (s', panic)
      | waits ↦ (s', waits)
    ])

unfoldable pub drop_set :
    System
    → (MessageReader → Cancel)
    → List Dequeued
    → OsIpcReceiverSet
    → OsIpcReceiverSet × Result WinError (Unit {0})
unfolding cancel_all retain_reading await_all
drop_set w cancel dequeued s =
    let (readers, result) = cancel_all w cancel s.readers in
    on_ok (record s { readers = readers }) result
      λ _. await_all w dequeued (record s { readers = retain_reading readers })
