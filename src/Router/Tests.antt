-- ===== src/Router/Tests.antt =====
-- Concrete runs of src/router.rs: a router with one route.
use ipc_channel.Base.{◌<◌, ◌≡◌, refl, true, List, [], ◌∷◌, arith, length, ok}
use ipc_channel.Router.{
  RouterMsg, Router, lookup, remove, handle_results, still_open, run, add_route, shutdown_msg,
  message_received, channel_closed, next,
}
use ipc_channel.Router.Dispatch.{served, handle_results-Serves, no_results, a_message, a_close}
use ipc_channel.Router.Shutdown.{acknowledged, run_after_shutdown}
use ipc_channel.Router.System.{
  System, Reach, IsSafe, initial, Reach-IsSafe, taken_has_message, stop_sent, send_route,
  send_wakeup, start_shutdown, send_shutdown, take_wakeup, here, then,
}

abbrev one_route : List RouterMsg → Router
one_route msgs = record {
  msg_receiver = msgs;
  msg_wakeup_id = 0;
  incrementor = 2;
  members = (1, 20) ∷ (0, 10) ∷ [];
  handlers = (1, 300) ∷ [];
  calls = [];
  acks = 0;
}

handle_results-Serves_example :
    handle_results
      (message_received 1 7 ∷ message_received 1 8 ∷ channel_closed 1 ∷ [])
      (one_route [])
    ≡ (served (one_route []) ((300, 7) ∷ (300, 8) ∷ []) [], ok next)
handle_results-Serves_example =
    handle_results-Serves (one_route []) [] ((300, 7) ∷ (300, 8) ∷ [])
      (message_received 1 7 ∷ message_received 1 8 ∷ channel_closed 1 ∷ [])
      (unfold lookup remove in
        a_message 1 7 300 (λ e. omega arith) refl
          (a_message 1 8 300 (λ e. omega arith) refl (a_close 1 300 refl no_results)))

run_after_shutdown_example :
    run
      (ok (message_received 0 0 ∷ []) ∷ ok (message_received 1 7 ∷ []) ∷ [])
      (one_route (shutdown_msg ∷ []))
    ≡ run
        (ok (message_received 1 7 ∷ []) ∷ [])
        (record (acknowledged (one_route (shutdown_msg ∷ [])) []) {
          members = still_open (message_received 0 0 ∷ []) ((1, 20) ∷ (0, 10) ∷ []);
        })
run_after_shutdown_example =
    run_after_shutdown (one_route (shutdown_msg ∷ [])) 0 [] [] (ok (message_received 1 7 ∷ []) ∷ [])
      refl

-- A route is added and then the router is shut down; the router has taken the first wakeup.
abbrev on_the_way : System
on_the_way = record {
  shutdown = true;
  call = stop_sent;
  msgs = add_route 20 300 ∷ shutdown_msg ∷ [];
  wakeups = 1;
  taken = true;
  asked = (20, 300) ∷ [];
  routes = [];
  acks = 0;
}

on_the_way-Reach : Reach initial on_the_way
on_the_way-Reach =
    then
      (then
        (then (then (then here (send_route 20 300 refl refl)) (send_wakeup refl))
          (start_shutdown refl refl))
        (take_wakeup refl refl))
      (send_shutdown refl)

Reach-IsSafe_example : IsSafe on_the_way
Reach-IsSafe_example = Reach-IsSafe on_the_way-Reach

taken_has_message_example : 0 < length on_the_way.msgs
taken_has_message_example = taken_has_message on_the_way-Reach refl (λ e. cc e)
