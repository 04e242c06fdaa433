-- ===== src/Router/Dispatch.antt =====
-- What the router of src/router.rs does with the results of a `select`.
use ipc_channel.Base.{
  ℕ, suc, ◌≡◌, ◌≢◌, refl, sym, ap, ◌∙◌, none, some, List, [], ◌∷◌, ◌++◌, append-nil, append_assoc,
  ok, arith, ◌==◌, ==_refl, ==_false, if◌then◌else◌,
}
use ipc_channel.Router.{
  Router, RouterMsg, add_route, IpcSelectionResult, message_received, channel_closed, lookup,
  remove, insert, handle_msg, handle_result, handle_results, next,
}

pub lookup-remove :
    (i j : ℕ) (m : List (ℕ × ℕ)) → lookup j (remove i m) ≡ (if i == j then none else lookup j m)
unfolding lookup remove
lookup-remove i j [] = ground arith
lookup-remove i j ((k, v) ∷ m) = ground (arith, lookup-remove i j m)

pub lookup-insert :
    (i j v : ℕ) (m : List (ℕ × ℕ))
    → lookup j (insert i v m) ≡ (if i == j then some v else lookup j m)
unfolding lookup insert
lookup-insert i j v m = ground (arith, lookup-remove i j m)

-- The results, for receivers other than the wakeup receiver, that handlers serve: `calls` are the
-- handlers with what they are called with, in order, and the last index is the handlers that are
-- left.
pub data Serves (wakeup : ℕ)
    : List (ℕ × ℕ) → List IpcSelectionResult → List (ℕ × ℕ) → List (ℕ × ℕ) → Type 0 where
  no_results : {hs : List (ℕ × ℕ)} → Serves wakeup hs [] [] hs
  a_message :
      {hs hs' calls : List (ℕ × ℕ)} {xs : List IpcSelectionResult} (id m h : ℕ)
      → id ≢ wakeup
      → lookup id hs ≡ some h
      → Serves wakeup hs xs calls hs'
      → Serves wakeup hs (message_received id m ∷ xs) ((h, m) ∷ calls) hs'
  a_close :
      {hs hs' calls : List (ℕ × ℕ)} {xs : List IpcSelectionResult} (id h : ℕ)
      → lookup id hs ≡ some h
      → Serves wakeup (remove id hs) xs calls hs'
      → Serves wakeup hs (channel_closed id ∷ xs) calls hs'

abbrev pub served : Router → List (ℕ × ℕ) → List (ℕ × ℕ) → Router
served r calls hs = record r { calls = r.calls ++ calls; handlers = hs }

message_lem :
    (r : Router) (id m h : ℕ)
    → id ≢ r.msg_wakeup_id
    → lookup id r.handlers ≡ some h
    → handle_result (message_received id m) r ≡ (served r ((h, m) ∷ []) r.handlers, ok next)
unfolding handle_result
message_lem r id m h n l = rw (==_false id r.msg_wakeup_id n, handle_result, l)

close_lem :
    (r : Router) (id h : ℕ)
    → lookup id r.handlers ≡ some h
    → handle_result (channel_closed id) r ≡ (record r { handlers = remove id r.handlers }, ok next)
unfolding handle_result
close_lem r id h l = rw (l, handle_result)

Serves-loop :
    (wakeup : ℕ) {hs hs' calls : List (ℕ × ℕ)} {xs : List IpcSelectionResult}
    → Serves wakeup hs xs calls hs'
    → (r : Router) → r.msg_wakeup_id ≡ wakeup
    → r.handlers ≡ hs
    → handle_results xs r ≡ (served r calls hs', ok next)
unfolding handle_results
Serves-loop wakeup no_results r w e =
    sym (ap (λ xs. (record r { calls = xs }, ok next)) (append-nil r.calls))
    ∙ ap (λ xs. (served r [] xs, ok next)) e
Serves-loop wakeup {hs' = hs'} {calls = _ ∷ calls} (a_message id m h n l rest) r w e =
    rw (message_lem r id m h (λ q. n (q ∙ w)) (ap (lookup id) e ∙ l)) (
      Serves-loop wakeup rest (served r ((h, m) ∷ []) r.handlers) w e
      ∙ ap (λ xs. (record r { calls = xs; handlers = hs' }, ok next))
          (append_assoc r.calls ((h, m) ∷ []) calls))
Serves-loop wakeup (a_close id h l rest) r w e =
    rw (close_lem r id h (ap (lookup id) e ∙ l))
      (Serves-loop wakeup rest (record r { handlers = remove id r.handlers }) w (ap (remove id) e))

-- Where the results are for receivers with a handler, and none is a wakeup: each message is given
-- to the handler of its receiver, once and in order; a closed channel costs its handler, and
-- nothing else; nothing else of the router changes, and it does not panic.
pub handle_results-Serves :
    (r : Router) (hs calls : List (ℕ × ℕ)) (xs : List IpcSelectionResult)
    → Serves r.msg_wakeup_id r.handlers xs calls hs
    → handle_results xs r ≡ (served r calls hs, ok next)
handle_results-Serves r hs calls xs h = Serves-loop r.msg_wakeup_id h r refl refl

abbrev pub added : Router → ℕ → ℕ → List RouterMsg → Router
added r receiver handler msgs = record r {
  msg_receiver = msgs;
  incrementor = suc r.incrementor;
  members = (r.incrementor, receiver) ∷ r.members;
  handlers = insert r.incrementor handler r.handlers;
}

wakeup_lem :
    (r : Router) (receiver handler x : ℕ) (msgs : List RouterMsg)
    → r.msg_receiver ≡ add_route receiver handler ∷ msgs
    → handle_result (message_received r.msg_wakeup_id x) r
      ≡ (added r receiver handler msgs, ok next)
unfolding handle_result
wakeup_lem r receiver handler x msgs e = rw (==_refl r.msg_wakeup_id) (ap (λ q. handle_msg q r) e)

-- Where the next identifier is not the wakeup's: a route that the proxy has asked for is served
-- from the next message on: its receiver is in the set under a new identifier, and what comes for
-- that is given to its handler.
pub add_route-serves :
    (r : Router) (receiver handler x m : ℕ) (msgs : List RouterMsg)
    → r.msg_receiver ≡ add_route receiver handler ∷ msgs
    → r.incrementor ≢ r.msg_wakeup_id
    → handle_results (message_received r.msg_wakeup_id x ∷ message_received r.incrementor m ∷ []) r
      ≡ (
        record r {
          msg_receiver = msgs;
          incrementor = suc r.incrementor;
          members = (r.incrementor, receiver) ∷ r.members;
          handlers = insert r.incrementor handler r.handlers;
          calls = r.calls ++ ((handler, m) ∷ []);
        },
        ok next,
      )
unfolding handle_results
add_route-serves r receiver handler x m msgs e n = rw (
  wakeup_lem r receiver handler x msgs e,
  message_lem (added r receiver handler msgs) r.incrementor m handler n
      (lookup-insert r.incrementor r.incrementor handler r.handlers ∙ rw (==_refl r.incrementor)),
)
