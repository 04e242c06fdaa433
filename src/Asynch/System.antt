-- ===== src/Asynch/System.antt =====
-- `to_stream` of src/asynch.rs, called by any number of threads, beside the routing thread. Each send is
-- a step, and the threads take turns freely.
use ipc_channel.Base.{ℕ, suc, ◌+◌, ◌≤◌, ◌≡◌, List, [], ◌∷◌, ◌++◌, length}

-- The routing thread waits in `select`, or takes routes from its queue.
pub data Phase : Type 0 where
  selecting draining : Phase

-- `calls` counts the calls of `to_stream` that have sent their route and not yet the wakeup, `wakeups`
-- the wakeups on their way. `asked` are the routes that were sent, `taken` those that the thread took.
pub record System : Type 0 where
  pub phase : Phase
  pub pending : List (ℕ × ℕ)
  pub calls : ℕ
  pub wakeups : ℕ
  pub asked : List (ℕ × ℕ)
  pub taken : List (ℕ × ℕ)

abbrev pub initial : System
initial = record { phase = selecting; pending = []; calls = 0; wakeups = 0; asked = []; taken = [] }

pub data Step (s : System) : System → Type 0 where
  -- `ROUTER.add_route.unbounded_send` and `waker.send`.
  send_route :
      (receiver stream : ℕ)
      → Step s (record s {
        pending = s.pending ++ ((receiver, stream) ∷ []);
        calls = suc s.calls;
        asked = s.asked ++ ((receiver, stream) ∷ []);
      })
  send_wakeup : {n : ℕ} → s.calls ≡ suc n → Step s (record s { calls = n; wakeups = suc s.wakeups })
  -- `select` gives a wakeup, or only messages of other receivers.
  woken :
      {n : ℕ}
      → s.phase ≡ selecting
      → s.wakeups ≡ suc n
      → Step s (record s { phase = draining; wakeups = n })
  other_messages : s.phase ≡ selecting → Step s (record s { phase = draining })
  -- `recv.try_next` gives a route, or there is none.
  take_route :
      {receiver stream : ℕ} {rest : List (ℕ × ℕ)}
      → s.phase ≡ draining
      → s.pending ≡ (receiver, stream) ∷ rest
      → Step s (record s { pending = rest; taken = s.taken ++ ((receiver, stream) ∷ []) })
  no_route : s.phase ≡ draining → s.pending ≡ [] → Step s (record s { phase = selecting })

pub data Reach (s : System) : System → Type 0 where
  here : Reach s s
  then : {t u : System} → Reach s t → Step t u → Reach s u

-- A thread that waits has a wakeup to come for each route in its queue; and no route is lost, or
-- changes its place.
pub record IsAwake (s : System) : Type 0 where
  pub woken_up : s.phase ≡ selecting → length s.pending ≤ s.calls + s.wakeups
  pub in_order : s.taken ++ s.pending ≡ s.asked
