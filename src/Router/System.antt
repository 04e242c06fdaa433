-- ===== src/Router/System.antt =====
-- `RouterProxy` of src/router.rs beside the router's thread. The proxy's calls hold its lock, so one
-- is under way at a time; each `send` and `recv` is a step, and the two threads take turns freely.
use ipc_channel.Base.{
  ℕ, suc, ◌+◌, ◌<◌, ◌≡◌, ◌≢◌, refl, sym, ap, ◌∙◌, Bool, true, false, List, [], ◌∷◌, ◌++◌,
  append-nil, append_assoc, arith, length, length-append,
}
use ipc_channel.Router.{RouterMsg, add_route, shutdown_msg}

-- Where the call that is under way stands: nothing is; `add_route` has sent its message and not yet
-- the wakeup; `shutdown` has sent the wakeup, then its message too and waits for the confirmation.
pub data Call : Type 0 where
  idle route_sent woken stop_sent : Call

-- `msgs` and `wakeups` are on their way to the router; `taken` says that it has received a wakeup and
-- is about to receive its message. `asked` are the routes that the proxy was given and did not refuse,
-- `routes` those that the router has added; `acks` are confirmations on their way back.
pub record System : Type 0 where
  pub shutdown : Bool
  pub call : Call
  pub msgs : List RouterMsg
  pub wakeups : ℕ
  pub taken : Bool
  pub asked : List (ℕ × ℕ)
  pub routes : List (ℕ × ℕ)
  pub acks : ℕ

-- `RouterProxy::new`
abbrev pub initial : System
initial = record {
  shutdown = false;
  call = idle;
  msgs = [];
  wakeups = 0;
  taken = false;
  asked = [];
  routes = [];
  acks = 0;
}

pub data Step (s : System) : System → Type 0 where
  -- `add_route`: refused after a shutdown; else the message, and then the wakeup.
  refuse_route : s.call ≡ idle → s.shutdown ≡ true → Step s s
  send_route :
      (receiver handler : ℕ)
      → s.call ≡ idle
      → s.shutdown ≡ false
      → Step s (record s {
        call = route_sent;
        msgs = s.msgs ++ (add_route receiver handler ∷ []);
        asked = s.asked ++ ((receiver, handler) ∷ []);
      })
  send_wakeup : s.call ≡ route_sent → Step s (record s { call = idle; wakeups = suc s.wakeups })
  -- `shutdown`: nothing the second time; else the flag, the wakeup, the message, and the wait.
  refuse_shutdown : s.call ≡ idle → s.shutdown ≡ true → Step s s
  start_shutdown :
      s.call ≡ idle
      → s.shutdown ≡ false
      → Step s (record s { shutdown = true; call = woken; wakeups = suc s.wakeups })
  send_shutdown :
      s.call ≡ woken → Step s (record s { call = stop_sent; msgs = s.msgs ++ (shutdown_msg ∷ []) })
  end_shutdown :
      {n : ℕ} → s.call ≡ stop_sent → s.acks ≡ suc n → Step s (record s { call = idle; acks = n })
  -- The router: a wakeup from `select`, and then the message that it stands for.
  take_wakeup :
      {n : ℕ}
      → s.taken ≡ false
      → s.wakeups ≡ suc n
      → Step s (record s { taken = true; wakeups = n })
  take_route :
      {receiver handler : ℕ} {rest : List RouterMsg}
      → s.taken ≡ true
      → s.msgs ≡ add_route receiver handler ∷ rest
      → Step s
          (record s { taken = false; msgs = rest; routes = s.routes ++ ((receiver, handler) ∷ []) })
  take_shutdown :
      {rest : List RouterMsg}
      → s.taken ≡ true
      → s.msgs ≡ shutdown_msg ∷ rest
      → Step s (record s { taken = false; msgs = rest; acks = suc s.acks })

pub data Reach (s : System) : System → Type 0 where
  here : Reach s s
  then : {t u : System} → Reach s t → Step t u → Reach s u

abbrev pub routes_in : List RouterMsg → List (ℕ × ℕ)
routes_in [] = []
routes_in (add_route r h ∷ ms) = (r, h) ∷ routes_in ms
routes_in (shutdown_msg ∷ ms) = routes_in ms

abbrev pub stops_in : List RouterMsg → ℕ
stops_in [] = 0
stops_in (add_route r h ∷ ms) = stops_in ms
stops_in (shutdown_msg ∷ ms) = suc (stops_in ms)

abbrev pub count : Bool → ℕ
count true = 1
count false = 0

abbrev pub ahead : Call → ℕ
ahead woken = 1
ahead _ = 0

abbrev pub behind : Call → ℕ
behind route_sent = 1
behind _ = 0

abbrev pub stopping : Call → ℕ
stopping stop_sent = 1
stopping _ = 0

-- `paired`: to each message there is a wakeup, but for the send that a call has still to make.
-- `in_order`: the routes that the router has, and then those on their way, are the ones asked for.
-- `confirmed`: a call waits exactly while its message or the confirmation is on its way.
pub record IsSafe (s : System) : Type 0 where
  pub paired : length s.msgs + ahead s.call ≡ s.wakeups + count s.taken + behind s.call
  pub in_order : s.routes ++ routes_in s.msgs ≡ s.asked
  pub confirmed : stops_in s.msgs + s.acks ≡ stopping s.call

routes_in-append : (xs ys : List RouterMsg) → routes_in (xs ++ ys) ≡ routes_in xs ++ routes_in ys
routes_in-append [] ys = refl
routes_in-append (add_route r h ∷ xs) ys = ap (◌∷◌ (r, h)) (routes_in-append xs ys)
routes_in-append (shutdown_msg ∷ xs) ys = routes_in-append xs ys

stops_in-append : (xs ys : List RouterMsg) → stops_in (xs ++ ys) ≡ stops_in xs + stops_in ys
stops_in-append [] ys = omega arith
stops_in-append (add_route r h ∷ xs) ys = stops_in-append xs ys
stops_in-append (shutdown_msg ∷ xs) ys = omega (arith, stops_in-append xs ys)

not_woken : (c : Call) → c ≢ woken → ahead c ≡ 0
not_woken idle n = refl
not_woken route_sent n = refl
not_woken woken n = absurd (n refl)
not_woken stop_sent n = refl

Step-IsSafe : {s t : System} → Step s t → IsSafe s → IsSafe t
Step-IsSafe (refuse_route _ _) v = v
Step-IsSafe {s} (send_route r h c f) v = record {
  paired =
      omega (arith, length-append s.msgs (add_route r h ∷ []), v.paired, ap ahead c, ap behind c);
  in_order =
      ap (◌++◌ s.routes) (routes_in-append s.msgs _)
      ∙ sym (append_assoc s.routes (routes_in s.msgs) _)
      ∙ ap (λ xs. xs ++ ((r, h) ∷ [])) v.in_order;
  confirmed =
      omega (arith, stops_in-append s.msgs (add_route r h ∷ []), v.confirmed, ap stopping c);
}
Step-IsSafe {s} (send_wakeup c) v = ground arith
Step-IsSafe (refuse_shutdown _ _) v = v
Step-IsSafe {s} (start_shutdown c f) v = ground arith
Step-IsSafe {s} (send_shutdown c) v = record {
  paired =
      omega (arith, length-append s.msgs (shutdown_msg ∷ []), v.paired, ap ahead c, ap behind c);
  in_order =
      ap (◌++◌ s.routes)
        (routes_in-append s.msgs (shutdown_msg ∷ []) ∙ append-nil (routes_in s.msgs))
      ∙ v.in_order;
  confirmed = omega (arith, stops_in-append s.msgs (shutdown_msg ∷ []), v.confirmed, ap stopping c);
}
Step-IsSafe {s} (end_shutdown c a) v = ground arith
Step-IsSafe {s} (take_wakeup c w) v = ground arith
Step-IsSafe {s} (take_route {receiver = r} {handler = h} {rest = rest} c m) v = record {
  paired = omega (arith, ap length m, ap count c, v.paired);
  in_order =
      append_assoc s.routes ((r, h) ∷ []) (routes_in rest)
      ∙ ap (◌++◌ s.routes) (sym (ap routes_in m))
      ∙ v.in_order;
  confirmed = omega (arith, ap stops_in m, v.confirmed);
}
Step-IsSafe {s} (take_shutdown c m) v = record {
  paired = omega (arith, ap length m, ap count c, v.paired);
  in_order = ap (◌++◌ s.routes) (sym (ap routes_in m)) ∙ v.in_order;
  confirmed = omega (arith, ap stops_in m, v.confirmed);
}

initial-IsSafe : IsSafe initial
initial-IsSafe = record { paired = refl; in_order = refl; confirmed = refl }

-- Whatever turns the proxy and the router's thread take from their start: every message on its way has
-- its wakeup, but for the one send that a call has still to make; the routes that the router has added,
-- followed by those on their way, are the accepted ones in the order of the calls; and a `shutdown`
-- waits exactly while its message or the confirmation of it is on its way.
pub Reach-IsSafe : {s : System} → Reach initial s → IsSafe s
Reach-IsSafe here = initial-IsSafe
Reach-IsSafe (then r st) = Step-IsSafe st (Reach-IsSafe r)

-- From every reachable state in which the router has taken a wakeup and no `shutdown` is at its
-- wakeup, the message is there: the `recv` that follows a wakeup does not wait for the proxy's thread.
pub taken_has_message :
    {s : System} → Reach initial s → s.taken ≡ true → s.call ≢ woken → 0 < length s.msgs
taken_has_message {s} r t n =
    let v = Reach-IsSafe r in
    let ok_call = not_woken s.call n in omega (arith, v.paired, ap count t, ok_call)
