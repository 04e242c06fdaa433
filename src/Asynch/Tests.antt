-- ===== src/Asynch/Tests.antt =====
-- Concrete runs of src/asynch.rs.
use ipc_channel.Base.{ℕ, ◌%◌, ◌≡◌, refl, Bool, some, List, [], ◌∷◌, arith, ◌==◌}
use ipc_channel.Router.{IpcSelectionResult, lookup, message_received, channel_closed}
use ipc_channel.Asynch.{Routing, handle_selections, take_routes}
use ipc_channel.Asynch.Delivery.{messages_for, handle_selections-delivers}
use ipc_channel.Asynch.System.{System, selecting}

abbrev routing : Routing
routing = record {
  pending = [];
  incrementor = 2;
  members = (1, 20) ∷ (0, 10) ∷ [];
  senders = (1, 30) ∷ [];
  sent = (30, 5) ∷ [];
}

abbrev selections : List IpcSelectionResult
selections =
    message_received 1 6
    ∷ message_received 0 0
    ∷ message_received 1 7
    ∷ channel_closed 1
    ∷ message_received 1 8
    ∷ []

only_one : (j : ℕ) → lookup j ((1, 30) ∷ []) ≡ some 30 → j ≡ 1
unfolding lookup
only_one j e = ground arith

handle_selections-delivers_example :
    messages_for 30 (handle_selections selections routing).sent ≡ 5 ∷ 6 ∷ 7 ∷ []
handle_selections-delivers_example =
    handle_selections-delivers 1 30 selections routing (unfold lookup in refl) only_one

-- A route was sent, with its wakeup, and taken.
abbrev served : System
served = record {
  phase = selecting;
  pending = [];
  calls = 0;
  wakeups = 0;
  asked = (20, 30) ∷ [];
  taken = (20, 30) ∷ [];
}

abbrev even_only : ℕ → Bool
even_only n = n % 2 == 0

abbrev taken_routes : Routing
taken_routes = take_routes even_only ((21, 40) ∷ (22, 41) ∷ (24, 42) ∷ []) routing
