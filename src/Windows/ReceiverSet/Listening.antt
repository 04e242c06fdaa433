-- ===== src/Windows/ReceiverSet/Listening.antt =====
-- Every reader of a set has a read in progress and an identifier: otherwise a wait would hang, or the
-- search for a completed read would panic.
use ipc_channel.Base.{
  ℕ, zero, suc, ◌+◌, ◌-◌, ◌%◌, ◌^◌, ◌≡◌, refl, sym, ap, ◌∙◌, inl, inr, true, Option, none, some,
  List, [], ◌∷◌, ◌++◌, map, arith, ◌==◌, if◌then◌else◌, Bool-cases, if_keeps, length, get_elem?,
  set, take, All, All-append, All-take, All-set, get_elem?-All, Result, unwrap, on_ok_keeps, chain,
  chain_keeps, on_ok_holds, panic, waits, err, ok,
}
use ipc_channel.Windows.System.{
  WinError, System, from_system, windows_result, channel_closed, no_data,
}
use ipc_channel.Windows.Handle.{take_raw, take_handle}
use ipc_channel.Windows.Message.{is_empty, is_some}
use ipc_channel.Windows.Reader.{
  MessageReader, ReadFile, Overlapped, IoResult, Outcome, take_back, issued, read_file, start_read,
  extend, notify_completion, add_to_iocp, io_ok, io_err,
}
use ipc_channel.Windows.Receiver.{
  OsIpcReceiver, Received, Dedicated, drain, take_message, get_message,
}
use ipc_channel.Windows.ReceiverSet.{
  OsIpcReceiverSet, OsIpcSelectionResult, Dequeued, SelectTurn, added, add, find_reader,
  swap_remove, notified, complete, conclude, fetch_iocp_result, more, drain_messages, data_results,
  reinstate, serve, turn, select_turn, select_loop, select, closed_channel,
}

pub record IsListening (r : MessageReader) : Type 0 where
  pub reading : is_some r.async ≡ true
  pub named : is_some r.entry_id ≡ true

-- What each operation on a reader leaves: its identifier, and a read in progress if it has started one.
pub start_read-entry_id :
    (w : System) (answer : ReadFile) (r : MessageReader)
    → (start_read w answer r).0.entry_id ≡ r.entry_id
unfolding start_read read_file take_back issued take_handle take_raw
start_read-entry_id w answer r = ground arith

pub start_read-reading :
    (w : System) (answer : ReadFile) (r r' : MessageReader) (u : Unit {0})
    → start_read w answer r ≡ (r', ok u)
    → is_some r'.async ≡ true
unfolding start_read read_file take_back issued take_handle take_raw
start_read-reading w answer r r' u e = ground arith

notify_completion-entry_id :
    (w : System) (io_result : IoResult) (r : MessageReader)
    → (notify_completion w io_result r).0.entry_id ≡ r.entry_id
unfolding notify_completion extend take_back
notify_completion-entry_id w io_result r = ground arith

get_message-entry_id :
    (w : System) (dedicated : Dedicated) (r : MessageReader)
    → (get_message w dedicated r).0.entry_id ≡ r.entry_id
unfolding get_message take_message drain
get_message-entry_id w dedicated r = ground arith

more-entry_id :
    (go : MessageReader → MessageReader × Result WinError (List Received))
    → ((r : MessageReader) → (go r).0.entry_id ≡ r.entry_id)
    → (r r' : MessageReader) (got : Option Received) → r'.entry_id ≡ r.entry_id
    → (more go r' got).0.entry_id ≡ r.entry_id
more-entry_id go h r r' none e = e
more-entry_id go h r r' (some m) e =
    chain_keeps (λ r''. r''.entry_id ≡ r.entry_id) (go r') (λ r'' ms. (r'', ok (m ∷ ms))) (h r' ∙ e)
      (λ r'' _ f. f)

drain_messages-entry_id :
    (w : System) (dedicated : Dedicated) (fuel : ℕ) (r : MessageReader)
    → (drain_messages w dedicated fuel r).0.entry_id ≡ r.entry_id
unfolding drain_messages
drain_messages-entry_id w dedicated zero r = refl
drain_messages-entry_id w dedicated (suc fuel) r =
    chain_keeps (λ r'. r'.entry_id ≡ r.entry_id) (get_message w dedicated r)
      (more λ r'. drain_messages w dedicated fuel r') (get_message-entry_id w dedicated r)
      (more-entry_id (λ r'. drain_messages w dedicated fuel r')
        (drain_messages-entry_id w dedicated fuel) r)

-- The set's readers all listen.
abbrev pub Listening : OsIpcReceiverSet → Type 0
Listening s = All IsListening s.readers

swap_remove-All :
    (P : MessageReader → Type 0) (i : ℕ) (xs : List MessageReader)
    → All P xs
    → All P (swap_remove i xs)
unfolding swap_remove
swap_remove-All P i xs h = last_All (get_elem? xs (length xs - 1)) refl
  where
    last_All :
        (o : Option MessageReader)
        → get_elem? xs (length xs - 1) ≡ o
        → All P (elim o [ none ↦ xs | some last ↦ take (length xs - 1) (set xs i last) ])
    last_All none e = h
    last_All (some last) e =
        All-take P (length xs - 1) (set xs i last)
          (All-set P xs i last (get_elem?-All P xs (length xs - 1) h e) h)

abbrev Selected : Type 0
Selected = OsIpcReceiverSet × Result WinError (List OsIpcSelectionResult)

-- A reader that is taken out of the set still has its identifier.
abbrev Fetched :
    OsIpcReceiverSet × Result WinError (MessageReader × Result WinError (Unit {0})) → Type 0
Fetched (s, ok (r, _)) = Listening s × (is_some r.entry_id ≡ true)
Fetched (s, err _) = Listening s
Fetched (s, panic) = Listening s
Fetched (s, waits) = Listening s

notified-Fetched :
    (s : OsIpcReceiverSet) (o : Outcome)
    → Listening s
    → is_some o.0.entry_id ≡ true
    → Fetched (notified s o)
notified-Fetched s (r, ok u) h k = (h, k)
notified-Fetched s (r, err e) h k = (h, k)
notified-Fetched s (r, panic) h k = h
notified-Fetched s (r, waits) h k = h

abbrev unwrap_as : {A : Type 0} → Option A → Result WinError A
unwrap_as o = unwrap o

unwrap_some : {A : Type 0} (o : Option A) (a : A) → unwrap_as o ≡ ok a → o ≡ some a
unwrap_some none a e = cc e
unwrap_some (some b) a e = cc e

complete-Fetched :
    (w : System) (key : ℕ) (io_result : IoResult) (s : OsIpcReceiverSet)
    → Listening s
    → Fetched (complete w key io_result s)
unfolding complete
complete-Fetched w key io_result s h =
    on_ok_holds Fetched s (find_reader key s.readers) _ ((λ _. h), h, h)
      λ i _.
        on_ok_holds Fetched s (unwrap (get_elem? s.readers i)) _ ((λ _. h), h, h)
          λ r is.
            notified-Fetched (record s { readers = swap_remove i s.readers })
              (notify_completion w io_result r) (swap_remove-All IsListening i s.readers h)
              (ap is_some (notify_completion-entry_id w io_result r)
                ∙ (get_elem?-All IsListening s.readers i h
                    (unwrap_some (get_elem? s.readers i) r is)).named)

conclude-Fetched :
    (w : System) (d : Dequeued) (s : OsIpcReceiverSet) (ov : Option Overlapped)
    → Listening s
    → Fetched (conclude w d s ov)
unfolding conclude
conclude-Fetched w d s none h = elim (Bool-cases d.succeeds) [
  | inl good ↦ rw good h
  | inr bad ↦ rw bad h
]
conclude-Fetched w d s (some ov) h = elim (Bool-cases (d.key == w.invalid_handle_value)) [
  | inl unset ↦ rw unset h
  | inr set_key ↦
      rw set_key (
        complete-Fetched w d.key (if d.succeeds then io_ok ov else io_err (from_system d.error)) s
          h)
]

reinstate-Listening :
    (s : OsIpcReceiverSet) (results : List OsIpcSelectionResult) (o : Outcome)
    → Listening s
    → ((r : MessageReader) (u : Unit {0}) → o ≡ (r, ok u) → IsListening r)
    → Listening (reinstate s results o).0
unfolding reinstate
reinstate-Listening s results (r, ok u) h k =
    All-append IsListening s.readers (r ∷ []) h (k r u refl, tt)
reinstate-Listening s results (r, err channel_closed) h k =
    on_ok_keeps Listening s (unwrap r.entry_id)
      (λ id. (s, ok (results ++ (closed_channel id ∷ [])))) h (λ _. h)
reinstate-Listening s results (r, err no_data) h k = h
reinstate-Listening s results (r, err (windows_result e)) h k = h
reinstate-Listening s results (r, panic) h k = h
reinstate-Listening s results (r, waits) h k = h

serve-Listening :
    (w : System) (dedicated : Dedicated) (answer : ReadFile) (s : OsIpcReceiverSet)
    (r : MessageReader)
    → Listening s
    → is_some r.entry_id ≡ true
    → Listening (serve w dedicated answer s r).0
unfolding serve
serve-Listening w dedicated answer s r h named = on_ok_keeps Listening s drained.1 _ h λ ms.
    on_ok_keeps Listening s (data_results drained.0.entry_id ms) _ h λ results.
      reinstate-Listening s results (start_read w answer drained.0) h λ r' u e. record {
        reading = start_read-reading w answer drained.0 r' u e;
        named =
            ap is_some (
              ap (λ (o : Outcome). o.0.entry_id) (sym e)
              ∙ start_read-entry_id w answer drained.0
              ∙ drain_messages-entry_id w dedicated (suc (length r.read_buf.bytes)) r)
            ∙ named;
      }
  where
    drained : MessageReader × Result WinError (List Received)
    drained = drain_messages w dedicated (suc (length r.read_buf.bytes)) r

-- What `select_turn` makes of a reader that has been fetched.
turn-Listening :
    (w : System) (dedicated : Dedicated) (t : SelectTurn)
    (o : OsIpcReceiverSet × Result WinError (MessageReader × Result WinError (Unit {0})))
    → Fetched o
    → Listening (chain o (turn w dedicated t)).0
unfolding turn
turn-Listening w dedicated t (s, ok (r, ok u)) (h, named) =
    serve-Listening w dedicated t.read s r h named
turn-Listening w dedicated t (s, ok (r, err channel_closed)) (h, named) =
    on_ok_keeps Listening s (unwrap r.entry_id) (λ id. (s, ok (closed_channel id ∷ []))) h (λ _. h)
turn-Listening w dedicated t (s, ok (r, err no_data)) (h, named) = h
turn-Listening w dedicated t (s, ok (r, err (windows_result e))) (h, named) = h
turn-Listening w dedicated t (s, ok (r, panic)) (h, named) = h
turn-Listening w dedicated t (s, ok (r, waits)) (h, named) = h
turn-Listening w dedicated t (s, err e) h = h
turn-Listening w dedicated t (s, panic) h = h
turn-Listening w dedicated t (s, waits) h = h

select_loop-Listening :
    (w : System) (dedicated : Dedicated) (turns : List SelectTurn) (s : OsIpcReceiverSet)
    → Listening s
    → Listening (select_loop w dedicated turns s).0
unfolding select_loop select_turn fetch_iocp_result
select_loop-Listening w dedicated [] s h = h
select_loop-Listening w dedicated (t ∷ turns) s h =
    chain_keeps Listening (select_turn w dedicated t s)
      (λ s' results.
        if is_empty results then select_loop w dedicated turns s' else (s', ok results))
      (turn-Listening w dedicated t (fetch_iocp_result w t.dequeued s)
        (conclude-Fetched w t.dequeued s t.dequeued.ov h))
      λ s' results h'.
        if_keeps (λ (o : Selected). Listening o.0) (is_empty results)
          {x = select_loop w dedicated turns s'} {y = (s', ok results)}
          (select_loop-Listening w dedicated turns s' h') h'

-- A call of `select` leaves every reader of the set with a read in progress and an identifier, whatever
-- the kernel answers and however the call ends.
pub select-Listening :
    (w : System) (dedicated : Dedicated) (turns : List SelectTurn) (s : OsIpcReceiverSet)
    → Listening s
    → Listening (select w dedicated turns s).0
unfolding select
select-Listening w dedicated turns s h =
    if_keeps (λ (o : Selected). Listening o.0) (length s.readers + length s.closed_readers == 0)
      {x = (s, panic)}
      {y = if is_empty results then select_loop w dedicated turns s' else (s', ok results)} h
      (if_keeps (λ (o : Selected). Listening o.0) (is_empty results)
        {x = select_loop w dedicated turns s'} {y = (s', ok results)}
        (select_loop-Listening w dedicated turns s' h) h)
  where
    s' : OsIpcReceiverSet
    s' = record s { closed_readers = [] }

    results : List OsIpcSelectionResult
    results = map closed_channel s.closed_readers

added-Listening :
    (entry_id : ℕ) (s : OsIpcReceiverSet) (o : Outcome)
    → Listening s
    → ((r : MessageReader) (u : Unit {0}) → o ≡ (r, ok u) → IsListening r)
    → Listening (added entry_id s o).0
unfolding added
added-Listening entry_id s (r, ok u) h k =
    All-append IsListening s.readers (r ∷ []) h (k r u refl, tt)
added-Listening entry_id s (r, err channel_closed) h k = h
added-Listening entry_id s (r, err no_data) h k = h
added-Listening entry_id s (r, err (windows_result e)) h k = h
added-Listening entry_id s (r, panic) h k = h
added-Listening entry_id s (r, waits) h k = h

-- A call of `add` keeps the property, also if the receiver cannot be added.
pub add-Listening :
    (w : System) (port : Option ℕ) (answer : ReadFile) (rx : OsIpcReceiver) (s : OsIpcReceiverSet)
    → Listening s
    → Listening (add w port answer rx s).0
unfolding add add_to_iocp
add-Listening w port answer rx s h =
    added-Listening s.incrementor (record s { incrementor = (s.incrementor + 1) % 2 ^ 64 })
      (add_to_iocp w port answer s.incrementor rx.reader) h
      λ r u e.
        let f : start_read w answer (record rx.reader { entry_id = some s.incrementor })
            ≡ (r, ok u) =
          ground arith in
        record {
          reading =
              start_read-reading w answer (record rx.reader { entry_id = some s.incrementor }) r u
                f;
          named = ap is_some (
              ap (λ (o : Outcome). o.0.entry_id) (sym f)
              ∙ start_read-entry_id w answer (record rx.reader { entry_id = some s.incrementor }));
        }
