-- ===== src/Windows/Receiver/Transfer.antt =====
-- What happens to the bytes of a receiver's buffer when it is handed on, or when a message in it
-- cannot be opened.
use ipc_channel.Base.{
  ℕ, ◌≡◌, refl, sym, subst, ◌≢◌, inl, inr, true, List, [], ◌∷◌, arith, ltb, ◌==◌, Bool-cases,
  length, Result, panic, waits, err, ok,
}
use ipc_channel.Windows.System.{
  WinError, System, from_system, windows_result, channel_closed, no_data, blocking,
}
use ipc_channel.Windows.Handle.{new_handle, take_raw, take_handle}
use ipc_channel.Windows.Reader.{
  MessageReader, Cancel, Wait, reserve, new_reader, Outcome, cancel_with, cancel_io,
}
use ipc_channel.Windows.Receiver.{
  OsIpcReceiver, Turn, receiver_from_handle, start_and_fetch, raw_error, raw_next, raw_loop,
  read_raw_sized, recv_raw, prepare_for_transfer, consume,
}

-- A receiver that has been consumed can be sent, whatever was in its buffer: the new one has the handle
-- only, so the check of `prepare_for_transfer` finds nothing, and messages that had been read but not
-- yet received stay behind.
pub prepare_for_transfer-consume :
    (w : System) (rx left new : OsIpcReceiver) (cancel : Cancel) (answers : List Wait)
    → consume w rx ≡ (left, ok new)
    → (prepare_for_transfer w cancel answers new ≡ (new, ok true))
      × (left.reader.read_buf ≡ rx.reader.read_buf)
unfolding prepare_for_transfer cancel_io cancel_with consume receiver_from_handle new_reader
    take_handle take_raw new_handle
prepare_for_transfer-consume w rx left new cancel answers e =
    let new_is : new ≡ record { reader = new_reader rx.reader.handle } = ground arith in
    (
      subst (λ n. prepare_for_transfer w cancel answers n ≡ (n, ok true)) (sym new_is) refl,
      ground arith,
    )

-- An error of a turn is passed on, but never as the end of the channel.
raw_next_not_closed :
    (w : System) (go : MessageReader → Result WinError (List ℕ)) (o : Outcome)
    → ((r : MessageReader) → go r ≢ err channel_closed)
    → raw_next w go o ≢ err channel_closed
unfolding raw_next raw_error from_system
raw_next_not_closed w go (r, ok _) h e = h r e
raw_next_not_closed w go (r, err channel_closed) h e = cc e
raw_next_not_closed w go (r, err no_data) h e = cc e
raw_next_not_closed w go (r, err (windows_result n)) h e = cc e
raw_next_not_closed w go (r, panic) h e = cc e
raw_next_not_closed w go (r, waits) h e = cc e

raw_loop_not_closed :
    (w : System) (n : ℕ) (turns : List Turn) (r : MessageReader)
    → raw_loop w n turns r ≢ err channel_closed
unfolding raw_loop
raw_loop_not_closed w n [] r = λ e. ground arith
raw_loop_not_closed w n (t ∷ turns) r = elim (Bool-cases (ltb (length r.read_buf.bytes) n)) [
  | inr full ↦ rw full (λ e. cc e)
  | inl more ↦ rw more (
      raw_next_not_closed w (λ r'. raw_loop w n turns r') (start_and_fetch w blocking t r)
        (raw_loop_not_closed w n turns))
]

-- The end of the pipe made for a message is not reported as the end of the channel.
pub recv_raw_not_closed :
    (w : System) (n : ℕ) (turns : List Turn) (rx : OsIpcReceiver)
    → recv_raw w turns n rx ≢ err channel_closed
unfolding recv_raw read_raw_sized
recv_raw_not_closed w n turns rx = elim (Bool-cases (length rx.reader.read_buf.bytes == 0)) [
  | inl first ↦
      rw first (
        raw_loop_not_closed w n turns
          (record rx.reader { read_buf = reserve n rx.reader.read_buf }))
  | inr later ↦ rw later (λ e. cc e)
]
