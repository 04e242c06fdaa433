-- ===== src/Windows/Reader/Invariant.antt =====
-- What holds of a `MessageReader` between its operations: while a read is in progress, the handle and
-- the buffer are with the kernel, with room for the bytes that come.
use ipc_channel.Base.{
  ℕ, ◌+◌, ◌%◌, ◌^◌, ◌≤◌, ◌<◌, ◌≡◌, refl, subst, inl, inr, true, not, ◌&&◌, Option, none, some, List,
  [], ◌∷◌, ◌++◌, arith, leb, ◌==◌, if◌then◌else◌, leb→le, Bool-cases, Option-cases, if_keeps,
  &&-true, length, take, length-append, length-take, chain_keeps, panic, waits, err, ok,
}
use ipc_channel.Windows.System.{
  BlockingMode, System, AliasedCell, from_system, is_blocking, new_cell, into_inner, no_data,
  blocking,
}
use ipc_channel.Windows.Handle.{invalid, take_raw, take_handle}
use ipc_channel.Windows.Message.{is_some}
use ipc_channel.Windows.Reader.{
  Vec, AsyncData, MessageReader, ReadFile, Cancel, Overlapped, Wait, IoResult, empty_vec, reserve,
  Outcome, take_back, issue_async_cancel, ignore, cancel_with, room, reserve_if_full, issued,
  read_file, start_read, extend, notify_completion, fetch_async_result, cancel_io, read_true,
  read_false, cancel_true, cancel_false, wait_true, wait_false, io_ok, io_err,
}

pub record IsValid (w : System) (r : MessageReader) : Type 0 where
  pub idle : r.async ≡ none → length r.read_buf.bytes ≤ r.read_buf.capacity
  pub reading :
      (c : AliasedCell AsyncData)
      → r.async ≡ some c
      → (r.handle ≡ invalid w)
        × (r.read_buf ≡ empty_vec)
        × (length c.value.buf.bytes < c.value.buf.capacity)

pub reserve_if_full-room :
    (v : Vec)
    → length v.bytes ≤ v.capacity
    → length (reserve_if_full v).bytes < (reserve_if_full v).capacity
unfolding reserve_if_full reserve
reserve_if_full-room v h = ground arith

idle-IsValid :
    (w : System) (r : MessageReader)
    → r.async ≡ none
    → length r.read_buf.bytes ≤ r.read_buf.capacity
    → IsValid w r
idle-IsValid w r e h = record { idle = λ _. h; reading = λ c f. cc (e, f) }

take_back-IsValid :
    (w : System) (r : MessageReader) (c : AliasedCell AsyncData)
    → IsValid w r
    → r.async ≡ some c
    → IsValid w (take_back c.value r)
unfolding take_back
take_back-IsValid w r c v e =
    let (_, _, room) = v.reading c e in idle-IsValid w (take_back c.value r) refl (omega arith)

issued-IsValid :
    (w : System) (r : MessageReader)
    → length r.read_buf.bytes ≤ r.read_buf.capacity
    → IsValid w (issued w r)
unfolding issued take_handle take_raw new_cell invalid
issued-IsValid w r h = record {
  idle = λ e. cc e;
  reading = λ c e. (refl, refl, subst (λ o. Room o) e (reserve_if_full-room r.read_buf h));
}
  where
    Room : Option (AliasedCell AsyncData) → Type 0
    Room none = Unit
    Room (some c) = length c.value.buf.bytes < c.value.buf.capacity

read_file-IsValid :
    (w : System) (answer : ReadFile) (r : MessageReader)
    → IsValid w r
    → IsValid w (read_file w answer r).0
unfolding read_file into_inner
read_file-IsValid w read_true r v = v
read_file-IsValid w (read_false e) r v =
    if_keeps (λ (o : Outcome). IsValid w o.0) (e == w.error_io_pending) v
      (elim (Option-cases r.async) [
        | inl f ↦ simp f v
        | inr (c, f) ↦ simp f (take_back-IsValid w r c v f)
      ])

pub start_read-IsValid :
    (w : System) (answer : ReadFile) (r : MessageReader)
    → IsValid w r
    → IsValid w (start_read w answer r).0
unfolding start_read
start_read-IsValid w answer r v = elim (Option-cases r.async) [
  | inl f ↦ simp f (read_file-IsValid w answer (issued w r) (issued-IsValid w r (v.idle f)))
  | inr (c, f) ↦ simp f v
]

extend-IsValid :
    (w : System) (ov : Overlapped) (r : MessageReader)
    → r.async ≡ none
    → length r.read_buf.bytes ≤ r.read_buf.capacity
    → IsValid w (extend ov r).0
unfolding extend
extend-IsValid w ov r e h = elim (Bool-cases (ov.offset == 0 && leb new_size r.read_buf.capacity)) [
  | inl good ↦ rw good (idle-IsValid w _ e (fits good))
  | inr bad ↦ rw bad (idle-IsValid w r e h)
]
  where
    new_size : ℕ
    new_size = length r.read_buf.bytes + ov.internal_high % 2 ^ 32

    fits :
        (ov.offset == 0 && leb new_size r.read_buf.capacity) ≡ true
        → length (r.read_buf.bytes ++ take (ov.internal_high % 2 ^ 32) ov.written)
          ≤ r.read_buf.capacity
    fits good =
        let (_, small) = &&-true (ov.offset == 0) (leb new_size r.read_buf.capacity) good in
        omega (
          arith,
          leb→le new_size r.read_buf.capacity small,
          length-append r.read_buf.bytes (take (ov.internal_high % 2 ^ 32) ov.written),
          length-take (ov.internal_high % 2 ^ 32) ov.written,
        )

pub notify_completion-IsValid :
    (w : System) (io_result : IoResult) (r : MessageReader)
    → IsValid w r
    → IsValid w (notify_completion w io_result r).0
unfolding notify_completion into_inner take_back
notify_completion-IsValid w (io_ok ov) r v = elim (Option-cases r.async) [
  | inl f ↦ simp (f, notify_completion) v
  | inr (c, f) ↦
      simp (f, notify_completion)
        (extend-IsValid w ov (take_back c.value r) refl ((take_back-IsValid w r c v f).idle refl))
]
notify_completion-IsValid w (io_err e) r v = elim (Option-cases r.async) [
  | inl f ↦ simp (f, notify_completion) v
  | inr (c, f) ↦ simp (f, notify_completion) (take_back-IsValid w r c v f)
]

issue_async_cancel-IsValid :
    (w : System) (answer : Cancel) (r : MessageReader)
    → IsValid w r
    → IsValid w (issue_async_cancel w answer r).0
unfolding issue_async_cancel into_inner
issue_async_cancel-IsValid w cancel_true r v = elim (Option-cases r.async) [
  | inl f ↦ simp (f, issue_async_cancel) v
  | inr (c, f) ↦ simp (f, issue_async_cancel) v
]
issue_async_cancel-IsValid w (cancel_false e) r v = elim (Option-cases r.async) [
  | inl f ↦ simp (f, issue_async_cancel) v
  | inr (c, f) ↦
      simp (f, issue_async_cancel)
        (if_keeps (λ (o : Outcome). IsValid w o.0) (e == w.error_not_found)
          {x = (take_back c.value r, ok tt)} {y = (r, panic)} (take_back-IsValid w r c v f) v)
]

ignore_keeps : (P : MessageReader → Type 0) (o : Outcome) → P o.0 → P (ignore o).0
ignore_keeps P (r, ok _) h = h
ignore_keeps P (r, err _) h = h
ignore_keeps P (r, panic) h = h
ignore_keeps P (r, waits) h = h

cancel_with-IsValid :
    (w : System) (answer : Cancel) (fetch : MessageReader → Outcome) (r : MessageReader)
    → ((r' : MessageReader) → IsValid w r' → IsValid w (fetch r').0)
    → IsValid w r
    → IsValid w (cancel_with w answer fetch r).0
unfolding cancel_with
cancel_with-IsValid w answer fetch r h v =
    if_keeps P (is_some r.async)
      (if_keeps P (is_some r.entry_id) v (
        chain_keeps (IsValid w) (issue_async_cancel w answer r)
          (λ r' _. if is_some r'.async then ignore (fetch r') else (r', ok tt))
          (issue_async_cancel-IsValid w answer r v)
          λ r' _ v'.
            if_keeps P (is_some r'.async) {x = ignore (fetch r')} {y = (r', ok tt)}
              (ignore_keeps (IsValid w) (fetch r') (h r' v')) v'))
      v
  where
    P : Outcome → Type 0
    P o = IsValid w o.0

pub fetch_async_result-IsValid :
    (w : System) (answers : List Wait) (mode : BlockingMode) (r : MessageReader)
    → IsValid w r
    → IsValid w (fetch_async_result w answers mode r).0
unfolding fetch_async_result
fetch_async_result-IsValid w [] mode r v =
    if_keeps (λ (o : Outcome). IsValid w o.0) (is_some r.async) v v
fetch_async_result-IsValid w (wait_true ov ∷ _) mode r v =
    notify_completion-IsValid w (io_ok ov) r v
fetch_async_result-IsValid w (wait_false e cancel ∷ answers) mode r v =
    if_keeps P (is_some r.async)
      (if_keeps P (not (is_blocking mode) && e == w.error_io_incomplete) v (
        if_keeps P (e == w.wait_timeout)
          (chain_keeps (IsValid w) (cancel_with w cancel (fetch_async_result w answers blocking) r)
            (λ r' _. (r', err no_data))
            (cancel_with-IsValid w cancel (fetch_async_result w answers blocking) r
              (λ r' v'. fetch_async_result-IsValid w answers blocking r' v') v)
            λ r' _ v'. v')
          (notify_completion-IsValid w (io_err (from_system e)) r v)))
      v
  where
    P : Outcome → Type 0
    P o = IsValid w o.0

pub cancel_io-IsValid :
    (w : System) (cancel : Cancel) (answers : List Wait) (r : MessageReader)
    → IsValid w r
    → IsValid w (cancel_io w cancel answers r).0
unfolding cancel_io
cancel_io-IsValid w cancel answers r v =
    cancel_with-IsValid w cancel (fetch_async_result w answers blocking) r
      (fetch_async_result-IsValid w answers blocking) v
