-- ===== src/Unix/ReceiverSet.antt =====
-- `OsIpcReceiverSet` of src/platform/unix/mod.rs: receivers that are polled together. The poll
-- itself (mio) is the kernel's side: its answers are arguments.
mod Map
pub mod Ids
pub mod Select
mod Tests
use ipc_channel.Base.{
  ℕ, zero, suc, pos, negsuc, ℤ, ◌+◌, ◌-◌, ◌%◌, ◌^◌, ◌≡◌, Bool, true, false, Option, none, some,
  List, [], ◌∷◌, ◌++◌, Result, ok, err, panic, waits, on_ok, ◌>>=◌, ◌==◌, if◌then◌else◌,
}
use ipc_channel.Errors.{ErrorKind, interrupted, IoError}
use ipc_channel.Unix.Kernel.{Kernel, UnixError, errno, channel_is_closed}
use ipc_channel.Unix.Handles.{OsIpcReceiver, OsOpaqueIpcChannel, OsIpcSharedMemory, consume_fd}
use ipc_channel.Unix.Recv.{CmsgAnswers, FollowupAnswer, Message, recv, blocking}
use ipc_channel.Unix.Errors.{from_io_error}
use Map.{lookup, insert, remove}

pub record PollEntry : Type 0 where
  pub id : ℕ
  pub fd : ℤ

-- `pollfds` is the hash map, with at most one entry for a token; `registered` is what the poll
-- watches.
pub record OsIpcReceiverSet : Type 0 where
  pub incrementor : ℕ
  pub registered : List ℕ
  pub pollfds : List (ℕ × PollEntry)

pub data OsIpcSelectionResult : Type 0 where
  data_received : ℕ → Message → OsIpcSelectionResult
  closed_channel : ℕ → OsIpcSelectionResult

-- `Token(fd as usize)`
abbrev pub token_of : ℤ → ℕ
token_of (pos n) = n
token_of (negsuc n) = 2 ^ 64 - suc n

-- `new`, where `poll` is the error of `Poll::new`, if it failed.
unfoldable pub new : Option IoError → Result UnixError OsIpcReceiverSet
new (some e) = from_io_error e >>= err
new none = ok (record { incrementor = 0; registered = []; pollfds = [] })

-- `add`, where `register` is the error of the registration, if it failed. The identifier and the
-- descriptor are used up in either case.
unfoldable pub add :
    Option IoError → OsIpcReceiver → OsIpcReceiverSet → OsIpcReceiverSet × Result UnixError ℕ
unfolding consume_fd
add register receiver s =
    let last_index = s.incrementor in
    let fd = (consume_fd receiver).0 in
    let s' : OsIpcReceiverSet = record s { incrementor = (s.incrementor + 1) % 2 ^ 64 } in
    elim register [
      | some e ↦ (s', from_io_error e >>= err)
      | none ↦ (
        record s' {
          registered = token_of fd ∷ s.registered;
          pollfds = insert (token_of fd) (record { id = last_index; fd = fd }) s.pollfds;
        },
        ok last_index,
      )
    ]

pub record Event : Type 0 where
  pub token : ℕ
  pub readable : Bool

-- The answers to the calls of `poll`: events, or an error and what `errno` holds.
pub data PollResult : Type 0 where
  events : List Event → PollResult
  poll_error : ErrorKind → ℕ → PollResult

abbrev pub is_interrupted : ErrorKind → Bool
is_interrupted interrupted = true
is_interrupted _ = false

-- `while num_events == 0`: polls until there are events, again after an interrupt.
unfoldable pub wait_events : List PollResult → Result UnixError (List Event)
wait_events [] = waits
wait_events (events [] ∷ rest) = wait_events rest
wait_events (events (e ∷ es) ∷ rest) = ok (e ∷ es)
wait_events (poll_error kind e ∷ rest) =
    if is_interrupted kind then wait_events rest else err (errno e)

unfoldable pub remove_registered : ℕ → List ℕ → List ℕ
remove_registered t [] = []
remove_registered t (u ∷ us) = if u == t then us else u ∷ remove_registered t us

-- The channel of an entry is closed: the entry goes, and the poll forgets the descriptor.
unfoldable pub close_entry :
    (ℤ → Bool)
    → ℕ
    → PollEntry
    → OsIpcReceiverSet
    → OsIpcReceiverSet × Result UnixError OsIpcSelectionResult
close_entry deregisters token entry s =
    let s' : OsIpcReceiverSet = record s { pollfds = remove token s.pollfds } in
    if deregisters entry.fd
    then (
      record s' { registered = remove_registered token s.registered },
      ok (closed_channel entry.id),
    )
    else (s', panic)

-- What `recv` on a ready descriptor comes to.
unfoldable pub handle_received :
    (ℤ → Bool)
    → ℕ
    → PollEntry
    → OsIpcReceiverSet
    → Result UnixError Message
    → OsIpcReceiverSet × Result UnixError OsIpcSelectionResult
handle_received deregisters token entry s (ok m) = (s, ok (data_received entry.id m))
handle_received deregisters token entry s (err e) =
    if channel_is_closed e then close_entry deregisters token entry s else (s, err e)
handle_received deregisters token entry s panic = (s, panic)
handle_received deregisters token entry s waits = (s, waits)

-- The body of the loop over the events. An event for an unknown token, or that is not readable,
-- panics.
unfoldable pub handle_event :
    (ℤ → Bool)
    → (ℤ → Result UnixError Message)
    → Event
    → OsIpcReceiverSet
    → OsIpcReceiverSet × Result UnixError OsIpcSelectionResult
handle_event deregisters receive evt s =
    if evt.readable
    then (elim (lookup evt.token s.pollfds) [
      | some entry ↦ handle_received deregisters evt.token entry s (receive entry.fd)
      | none ↦ (s, panic)
    ])
    else (s, panic)

-- The loop; an early return drops the results so far.
unfoldable pub handle_events :
    (ℤ → Bool)
    → (ℤ → Result UnixError Message)
    → List Event
    → List OsIpcSelectionResult
    → OsIpcReceiverSet
    → OsIpcReceiverSet × Result UnixError (List OsIpcSelectionResult)
handle_events deregisters receive [] results s = (s, ok results)
handle_events deregisters receive (evt ∷ evts) results s =
    let (s', r) = handle_event deregisters receive evt s in
    on_ok s' r λ x. handle_events deregisters receive evts (results ++ (x ∷ [])) s'

-- `OsIpcReceiverSet::select`
unfoldable pub select :
    Kernel
    → (ℤ → CmsgAnswers)
    → (ℤ → List FollowupAnswer)
    → (ℤ → Bool)
    → List PollResult
    → OsIpcReceiverSet
    → OsIpcReceiverSet × Result UnixError (List OsIpcSelectionResult)
select k answers dedicated deregisters polls s =
    on_ok s (wait_events polls)
      λ evts. handle_events deregisters (λ fd. recv k (answers fd) dedicated blocking) evts [] s

-- `OsIpcSelectionResult::unwrap`
unfoldable pub unwrap_selection : OsIpcSelectionResult → Result UnixError (ℕ × Message)
unwrap_selection (data_received id m) = ok (id, m)
unwrap_selection (closed_channel id) = panic
