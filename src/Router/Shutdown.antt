-- ===== src/Router/Shutdown.antt =====
-- What the order to stop does to the router of src/router.rs.
use ipc_channel.Base.{ℕ, suc, ◌≡◌, ap, List, ◌∷◌, Result, ok, ==_refl}
use ipc_channel.Errors.{IoError}
use ipc_channel.Router.{
  Router, RouterMsg, shutdown_msg, IpcSelectionResult, message_received, still_open, handle_msg,
  handle_result, handle_results, run, leave,
}

abbrev pub acknowledged : Router → List RouterMsg → Router
acknowledged r msgs = record r { msg_receiver = msgs; acks = suc r.acks }

pub shutdown_drops :
    (r : Router) (x : ℕ) (xs : List IpcSelectionResult) (msgs : List RouterMsg)
    → r.msg_receiver ≡ shutdown_msg ∷ msgs
    → handle_results (message_received r.msg_wakeup_id x ∷ xs) r ≡ (acknowledged r msgs, ok leave)
unfolding handle_results
shutdown_drops r x xs msgs e = rw (stops r x msgs e)
  where
    stops :
        (r : Router) (x : ℕ) (msgs : List RouterMsg)
        → r.msg_receiver ≡ shutdown_msg ∷ msgs
        → handle_result (message_received r.msg_wakeup_id x) r ≡ (acknowledged r msgs, ok leave)
    stops r x msgs e =
        unfold handle_result in rw (==_refl r.msg_wakeup_id) (ap (λ q. handle_msg q r) e)

-- But the thread does not stop: it goes on with the next `select` as before, and serves the routes
-- that it has. `break` has left only the loop over the results.
pub run_after_shutdown :
    (r : Router) (x : ℕ) (xs : List IpcSelectionResult) (msgs : List RouterMsg)
    (selects : List (Result IoError (List IpcSelectionResult)))
    → r.msg_receiver ≡ shutdown_msg ∷ msgs
    → run (ok (message_received r.msg_wakeup_id x ∷ xs) ∷ selects) r
      ≡ run selects (record (acknowledged r msgs) {
        members = still_open (message_received r.msg_wakeup_id x ∷ xs) r.members;
      })
unfolding run
run_after_shutdown r x xs msgs selects e = rw (
    shutdown_drops
      (record r { members = still_open (message_received r.msg_wakeup_id x ∷ xs) r.members }) x xs
      msgs e)
