-- ===== src/Asynch.antt =====
-- src/asynch.rs: streams of messages, filled by a thread that selects over their receivers. Routes come
-- to the thread through a queue, and a wakeup after them.
pub mod Delivery
pub mod Routes
pub mod System
mod Tests
use ipc_channel.Base.{
  ℕ, suc, Bool, none, some, List, [], ◌∷◌, ◌++◌, if◌then◌else◌, Result, panic, waits, err, ok,
}
use ipc_channel.Errors.{IoError}
use ipc_channel.Router.{
  IpcSelectionResult, lookup, remove, insert, still_open, message_received, channel_closed,
}

-- The thread's variables: `pending` are the routes in its queue, a receiver and a stream each;
-- `members` the receiver set; `senders` the hash map from identifiers to streams; `sent` what was sent
-- to streams. A message is a number here: the thread does not look into it.
pub record Routing : Type 0 where
  pub pending : List (ℕ × ℕ)
  pub incrementor : ℕ
  pub members : List (ℕ × ℕ)
  pub senders : List (ℕ × ℕ)
  pub sent : List (ℕ × ℕ)

-- The start of the thread: the wakeup receiver is the first of the set, and has no sender.
unfoldable pub start : ℕ → Routing
start wakee = record {
  pending = [];
  incrementor = 1;
  members = (0, wakee) ∷ [];
  senders = [];
  sent = [];
}

-- `unbounded_send` to a stream that is gone has no effect that is seen.
unfoldable pub handle_selection : IpcSelectionResult → Routing → Routing
handle_selection (message_received id msg) r = elim (lookup id r.senders) [
  | none ↦ r
  | some stream ↦ record r { sent = r.sent ++ ((stream, msg) ∷ []) }
]
handle_selection (channel_closed id) r = record r { senders = remove id r.senders }

unfoldable pub handle_selections : List IpcSelectionResult → Routing → Routing
handle_selections [] r = r
handle_selections (x ∷ xs) r = handle_selections xs (handle_selection x r)

-- `add_opaque` and `insert`: a receiver that cannot be added is dropped with its stream; its identifier
-- is used up.
unfoldable pub register : (ℕ → Bool) → ℕ → ℕ → Routing → Routing
register adds receiver stream r =
    let id = r.incrementor in
    if adds receiver
    then record r {
      incrementor = suc id;
      members = (id, receiver) ∷ r.members;
      senders = insert id stream r.senders;
    }
    else record r { incrementor = suc id }

-- `while let Ok(Some(..)) = recv.try_next()`, for what is in the queue.
unfoldable pub take_routes : (ℕ → Bool) → List (ℕ × ℕ) → Routing → Routing
take_routes adds [] r = record r { pending = [] }
take_routes adds ((receiver, stream) ∷ rest) r =
    take_routes adds rest (register adds receiver stream r)

-- The body of the loop around `select`. The closed receivers have left the set in `select` itself.
unfoldable pub turn : (ℕ → Bool) → Bool → List IpcSelectionResult → Routing → Routing
turn adds terminated selections r =
    let r' =
      handle_selections selections (record r { members = still_open selections r.members }) in
    if terminated then r' else take_routes adds r'.pending r'

-- The loop: at each turn other threads have put routes into the queue, and `select` has given its
-- results, or an error, which ends the loop.
unfoldable pub run_routing :
    (ℕ → Bool)
    → Bool
    → List (List (ℕ × ℕ) × Result IoError (List IpcSelectionResult))
    → Routing
    → Routing
run_routing adds terminated [] r = r
run_routing adds terminated ((routes, ok selections) ∷ rest) r =
    run_routing adds terminated rest
      (turn adds terminated selections (record r { pending = r.pending ++ routes }))
run_routing adds terminated ((routes, err e) ∷ rest) r = record r { pending = r.pending ++ routes }
run_routing adds terminated ((routes, panic) ∷ rest) r = record r { pending = r.pending ++ routes }
run_routing adds terminated ((routes, waits) ∷ rest) r = record r { pending = r.pending ++ routes }

-- `IpcStream::poll_next`, over what the queue of the stream gives: the message converted by `to`, the
-- end, or nothing.
pub data Poll (A : Type 0) : Type 0 where
  ready : A → Poll A
  finished pending_poll : Poll A

unfoldable pub poll_next : {A B : Type 0} → (A → B) → Poll A → Poll B
poll_next to (ready msg) = ready (to msg)
poll_next to finished = finished
poll_next to pending_poll = pending_poll
