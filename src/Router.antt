-- ===== src/Router.antt =====
-- src/router.rs: a thread that serves many receivers, each by its handler, and the proxy that gives it
-- its orders. The receiver set is the table of identifiers that the platforms implement; a handler is
-- a number, and what it was called with is recorded.
pub mod Dispatch
pub mod Shutdown
pub mod System
mod Tests
use ipc_channel.Base.{
  ℕ, suc, ◌+◌, ◌≡◌, Bool, true, false, Option, none, some, List, [], ◌∷◌, ◌++◌, Result, ok, err,
  panic, waits, ◌>>=◌, on_ok, ◌==◌, if◌then◌else◌,
}
use ipc_channel.Errors.{IoError}

-- A receiver and a handler to be added, or the order to stop.
pub data RouterMsg : Type 0 where
  add_route : ℕ → ℕ → RouterMsg
  shutdown_msg : RouterMsg

-- `OpaqueIpcMessage`s are taken as numbers: the router does not look into them.
pub data IpcSelectionResult : Type 0 where
  message_received : ℕ → ℕ → IpcSelectionResult
  channel_closed : ℕ → IpcSelectionResult

-- `members` are the identifiers of the receiver set with their receivers, `handlers` is the hash map,
-- `calls` the calls of handlers so far, `acks` the confirmations of a shutdown that were sent.
pub record Router : Type 0 where
  pub msg_receiver : List RouterMsg
  pub msg_wakeup_id : ℕ
  pub incrementor : ℕ
  pub members : List (ℕ × ℕ)
  pub handlers : List (ℕ × ℕ)
  pub calls : List (ℕ × ℕ)
  pub acks : ℕ

unfoldable pub lookup : ℕ → List (ℕ × ℕ) → Option ℕ
lookup id [] = none
lookup id ((i, v) ∷ m) = if i == id then some v else lookup id m

unfoldable pub remove : ℕ → List (ℕ × ℕ) → List (ℕ × ℕ)
remove id [] = []
remove id ((i, v) ∷ m) = if i == id then remove id m else (i, v) ∷ remove id m

unfoldable pub insert : ℕ → ℕ → List (ℕ × ℕ) → List (ℕ × ℕ)
unfolding remove
insert id v m = (id, v) ∷ remove id m

-- `Router::new`: the wakeup receiver is the first of the set.
unfoldable pub new : List RouterMsg → ℕ → Router
new msgs wakeup_receiver = record {
  msg_receiver = msgs;
  msg_wakeup_id = 0;
  incrementor = 1;
  members = (0, wakeup_receiver) ∷ [];
  handlers = [];
  calls = [];
  acks = 0;
}

-- `break` leaves the loop over the results.
pub data Flow : Type 0 where
  next leave : Flow

-- A message of the proxy: `msg_receiver.recv().unwrap()` waits for it.
unfoldable pub handle_msg : List RouterMsg → Router → Router × Result IoError Flow
handle_msg [] r = (r, waits)
handle_msg (add_route receiver handler ∷ msgs) r =
    let new_receiver_id = r.incrementor in
    (
      record r {
        msg_receiver = msgs;
        incrementor = suc r.incrementor;
        members = (new_receiver_id, receiver) ∷ r.members;
        handlers = insert new_receiver_id handler r.handlers;
      },
      ok next,
    )
handle_msg (shutdown_msg ∷ msgs) r = (record r { msg_receiver = msgs; acks = suc r.acks }, ok leave)

-- The body of the loop over the results of a `select`.
unfoldable pub handle_result : IpcSelectionResult → Router → Router × Result IoError Flow
unfolding handle_msg
handle_result (message_received id message) r =
    if id == r.msg_wakeup_id then handle_msg r.msg_receiver r else (elim (lookup id r.handlers) [
      | none ↦ (r, panic)
      | some handler ↦ (record r { calls = r.calls ++ ((handler, message) ∷ []) }, ok next)
    ])
handle_result (channel_closed id) r = elim (lookup id r.handlers) [
  | none ↦ (r, panic)
  | some handler ↦ (record r { handlers = remove id r.handlers }, ok next)
]

abbrev pub go_on :
    (Router → Router × Result IoError Flow) → Router → Flow → Router × Result IoError Flow
go_on rest r next = rest r
go_on rest r leave = (r, ok leave)

-- `for result in results`.
unfoldable pub handle_results : List IpcSelectionResult → Router → Router × Result IoError Flow
handle_results [] r = (r, ok next)
handle_results (x ∷ xs) r =
    let (r', f) = handle_result x r in on_ok r' f (go_on (handle_results xs) r')

-- What a `select` that gives these results leaves of the set: the closed receivers are gone.
unfoldable pub still_open : List IpcSelectionResult → List (ℕ × ℕ) → List (ℕ × ℕ)
still_open [] m = m
still_open (message_received _ _ ∷ xs) m = still_open xs m
still_open (channel_closed id ∷ xs) m = still_open xs (remove id m)

-- `Router::run`: one `select` after the other, until one fails. Whatever left the inner loop, the outer
-- one goes on. Without another answer the thread waits in `select`.
unfoldable pub run :
    List (Result IoError (List IpcSelectionResult)) → Router → Router × Result IoError (Unit {0})
run [] r = (r, waits)
run (ok results ∷ selects) r =
    let (r', f) = handle_results results (record r { members = still_open results r.members }) in
    on_ok r' f λ _. run selects r'
run (err e ∷ selects) r = (r, ok tt)
run (panic ∷ selects) r = (r, panic)
run (waits ∷ selects) r = (r, waits)
