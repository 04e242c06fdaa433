-- ===== src/Windows/Receiver/Invariant.antt =====
-- Receiving keeps the reader's invariant, whatever the kernel answers.
use ipc_channel.Base.{
  ℕ, ◌≤◌, ◌≡◌, inl, inr, Option, none, some, List, [], ◌∷◌, arith, ◌==◌, if◌then◌else◌, Bool-cases,
  Option-cases, if_keeps, length, drop, length-drop, Result, ◌>>=◌, on_ok_keeps, chain, chain_keeps,
  waits, ok,
}
use ipc_channel.Windows.System.{WinError, BlockingMode, System, blocking}
use ipc_channel.Windows.Message.{Message, from_bytes, size, is_some, oob_data}
use ipc_channel.Windows.Reader.{MessageReader, start_read, fetch_async_result}
use ipc_channel.Windows.Reader.Invariant.{IsValid, start_read-IsValid, fetch_async_result-IsValid}
use ipc_channel.Windows.Receiver.{
  OsIpcReceiver, Turn, Received, start_and_fetch, Dedicated, open_message, drain, take_message,
  get_message, next, receive_loop, receive_message,
}

drain-IsValid :
    (w : System) (n : ℕ) (r : MessageReader) → r.async ≡ none → IsValid w r → IsValid w (drain n r)
unfolding drain
drain-IsValid w n r e v = record { idle = λ _. fits; reading = λ c f. cc (e, f) }
  where
    fits :
        length (if length r.read_buf.bytes == n then [] else drop n r.read_buf.bytes)
        ≤ r.read_buf.capacity
    fits = elim (Bool-cases (length r.read_buf.bytes == n)) [
      | inl all ↦ rw all (omega arith)
      | inr part ↦ rw part (omega (arith, v.idle e, length-drop n r.read_buf.bytes))
    ]

take_message-IsValid :
    (w : System) (dedicated : Dedicated) (m : Message) (r : MessageReader)
    → r.async ≡ none
    → IsValid w r
    → IsValid w (take_message w dedicated m r).0
unfolding take_message
take_message-IsValid w dedicated m r e v =
    on_ok_keeps (IsValid w) r (oob_data w m >>= λ oob. open_message w dedicated m oob)
      (λ received. (drain (size m) r, ok (some received))) v
      (λ received. drain-IsValid w (size m) r e v)

get_message-IsValid :
    (w : System) (dedicated : Dedicated) (r : MessageReader)
    → IsValid w r
    → IsValid w (get_message w dedicated r).0
unfolding get_message
get_message-IsValid w dedicated r v = elim (Option-cases r.async) [
  | inr (c, e) ↦ simp (e, get_message) v
  | inl e ↦ elim (Option-cases (from_bytes r.read_buf.bytes)) [
    | inl f ↦ simp (e, f, get_message) v
    | inr (m, f) ↦ simp (e, f, get_message) (take_message-IsValid w dedicated m r e v)
  ]
]

start_and_fetch-IsValid :
    (w : System) (mode : BlockingMode) (t : Turn) (r : MessageReader)
    → IsValid w r
    → IsValid w (start_and_fetch w mode t r).0
unfolding start_and_fetch
start_and_fetch-IsValid w mode t r v =
    chain_keeps (IsValid w) (start_read w t.read r) (λ r' _. fetch_async_result w t.answers mode r')
      (start_read-IsValid w t.read r v) λ r' _ v'. fetch_async_result-IsValid w t.answers mode r' v'

-- What follows `get_message` in a turn of the loop keeps the invariant, if the next turns do.
next-IsValid :
    (w : System) (go : MessageReader → MessageReader × Result WinError Received)
    → ((r : MessageReader) → IsValid w r → IsValid w (go r).0)
    → (r : MessageReader) (got : Option Received) → IsValid w r
    → IsValid w (next go r got).0
next-IsValid w go h r none v = h r v
next-IsValid w go h r (some received) v = v

receive_loop-IsValid :
    (w : System) (dedicated : Dedicated) (mode : BlockingMode) (turns : List Turn)
    (r : MessageReader)
    → IsValid w r
    → IsValid w (receive_loop w dedicated mode turns r).0
unfolding receive_loop
receive_loop-IsValid w dedicated mode [] r v =
    chain_keeps (IsValid w) (get_message w dedicated r) (next λ r'. (r', waits))
      (get_message-IsValid w dedicated r v) (next-IsValid w (λ r'. (r', waits)) λ r' v'. v')
receive_loop-IsValid w dedicated mode (t ∷ turns) r v =
    chain_keeps (IsValid w) (get_message w dedicated r) (next rest)
      (get_message-IsValid w dedicated r v)
      (next-IsValid w rest λ r' v'.
        chain_keeps (IsValid w) (start_and_fetch w mode t r')
          (λ r'' _. receive_loop w dedicated blocking turns r'')
          (start_and_fetch-IsValid w mode t r' v')
          λ r'' _ v''. receive_loop-IsValid w dedicated blocking turns r'' v'')
  where
    rest : MessageReader → MessageReader × Result WinError Received
    rest r' =
        chain (start_and_fetch w mode t r') λ r'' _. receive_loop w dedicated blocking turns r''

-- A receiver stays well-formed, whatever the kernel answers to a receiving call: no read is in
-- progress and the buffer is within its capacity, or a read is, and then the handle and the buffer are
-- with the kernel, with room for at least one byte.
pub receive_message-IsValid :
    (w : System) (dedicated : Dedicated) (mode : BlockingMode) (turns : List Turn)
    (rx : OsIpcReceiver)
    → IsValid w rx.reader
    → IsValid w (receive_message w dedicated mode turns rx).0.reader
unfolding receive_message
receive_message-IsValid w dedicated mode turns rx v =
    if_keeps (λ (o : OsIpcReceiver × Result WinError Received). IsValid w o.0.reader)
      (is_some rx.reader.entry_id) v (receive_loop-IsValid w dedicated mode turns rx.reader v)
