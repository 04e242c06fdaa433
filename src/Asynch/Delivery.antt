-- ===== src/Asynch/Delivery.antt =====
-- What a turn of src/asynch.rs sends to the streams.
use ipc_channel.Base.{
  ℕ, ◌≡◌, refl, sym, ap, ◌∙◌, ◌≢◌, inl, inr, false, none, some, List, [], ◌∷◌, ◌++◌, append-nil,
  append_assoc, arith, ◌==◌, if◌then◌else◌, ==_iff, ==_refl, ==_false, Bool-cases, Option-cases,
}
use ipc_channel.Router.{IpcSelectionResult, lookup, remove, message_received, channel_closed}
use ipc_channel.Router.Dispatch.{lookup-remove}
use ipc_channel.Asynch.{Routing, handle_selection, handle_selections}

abbrev pub messages_for : ℕ → List (ℕ × ℕ) → List ℕ
messages_for stream [] = []
messages_for stream ((t, m) ∷ xs) =
    let rest = messages_for stream xs in if t == stream then m ∷ rest else rest

-- The messages of a receiver up to the end of its channel.
abbrev pub messages_from : ℕ → List IpcSelectionResult → List ℕ
messages_from id [] = []
messages_from id (message_received j m ∷ xs) =
    let rest = messages_from id xs in if j == id then m ∷ rest else rest
messages_from id (channel_closed j ∷ xs) =
    let rest = messages_from id xs in if j == id then [] else rest

messages_for-append :
    (stream : ℕ) (xs ys : List (ℕ × ℕ))
    → messages_for stream (xs ++ ys) ≡ messages_for stream xs ++ messages_for stream ys
messages_for-append stream [] ys = refl
messages_for-append stream ((t, m) ∷ xs) ys = ground (arith, messages_for-append stream xs ys)

-- What is found after a removal was there before, under an identifier that was not removed.
kept :
    (i j stream : ℕ) (senders : List (ℕ × ℕ))
    → lookup i (remove j senders) ≡ some stream
    → (lookup i senders ≡ some stream) × (j == i ≡ false)
kept i j stream senders e = elim (Bool-cases (j == i)) [
  | inl y ↦ let gone = rw y at (lookup-remove j i senders) in cc (e, gone)
  | inr n ↦ let same = rw n at (lookup-remove j i senders) in (sym same ∙ e, n)
]

abbrev sending : Routing → ℕ → ℕ → Routing
sending r stream m = record r { sent = r.sent ++ ((stream, m) ∷ []) }

sent_elsewhere :
    (stream t m : ℕ) (r : Routing)
    → t ≢ stream
    → messages_for stream (sending r t m).sent ≡ messages_for stream r.sent
sent_elsewhere stream t m r n =
    messages_for-append stream r.sent ((t, m) ∷ [])
    ∙ rw (==_false t stream n) (append-nil (messages_for stream r.sent))

sent_here :
    (stream m : ℕ) (r : Routing)
    → messages_for stream (sending r stream m).sent ≡ messages_for stream r.sent ++ (m ∷ [])
sent_here stream m r = messages_for-append stream r.sent ((stream, m) ∷ []) ∙ rw (==_refl stream)

received_unknown :
    (j m : ℕ) (r : Routing)
    → lookup j r.senders ≡ none
    → handle_selection (message_received j m) r ≡ r
unfolding handle_selection
received_unknown j m r e = rw (e, handle_selection)

received_known :
    (j t m : ℕ) (r : Routing)
    → lookup j r.senders ≡ some t
    → handle_selection (message_received j m) r ≡ sending r t m
unfolding handle_selection
received_known j t m r e = rw (e, handle_selection)

from_other :
    (id j m : ℕ) (xs : List IpcSelectionResult)
    → j ≢ id
    → messages_from id (message_received j m ∷ xs) ≡ messages_from id xs
from_other id j m xs n = rw (==_false j id n)

-- A stream that no identifier leads to is sent nothing.
unreached :
    (stream : ℕ) (xs : List IpcSelectionResult) (r : Routing)
    → ((j : ℕ) → lookup j r.senders ≢ some stream)
    → messages_for stream (handle_selections xs r).sent ≡ messages_for stream r.sent
unfolding handle_selections handle_selection
unreached stream [] r apart = refl
unreached stream (message_received j m ∷ xs) r apart = elim (Option-cases (lookup j r.senders)) [
  | inl e ↦
      ap (λ q. messages_for stream (handle_selections xs q).sent) (received_unknown j m r e)
      ∙ unreached stream xs r apart
  | inr (t, e) ↦
      ap (λ q. messages_for stream (handle_selections xs q).sent) (received_known j t m r e)
      ∙ unreached stream xs (sending r t m) apart
      ∙ sent_elsewhere stream t m r (λ q. apart j (e ∙ ap some q))
]
unreached stream (channel_closed j ∷ xs) r apart =
    unreached stream xs (record r { senders = remove j r.senders })
      (λ i e. apart i (kept i j stream r.senders e).0)

-- A stream that belongs to one receiver is sent the messages of that receiver, all up to the end of
-- its channel, in their order, and nothing else.
pub handle_selections-delivers :
    (id stream : ℕ) (xs : List IpcSelectionResult) (r : Routing)
    → lookup id r.senders ≡ some stream
    → ((j : ℕ) → lookup j r.senders ≡ some stream → j ≡ id)
    → messages_for stream (handle_selections xs r).sent
      ≡ messages_for stream r.sent ++ messages_from id xs
unfolding handle_selections handle_selection
handle_selections-delivers id stream [] r l only = sym (append-nil (messages_for stream r.sent))
handle_selections-delivers id stream (message_received j m ∷ xs) r l only =
    elim (Option-cases (lookup j r.senders)) [
      | inl e ↦
          ap (λ q. messages_for stream (handle_selections xs q).sent) (received_unknown j m r e)
          ∙ handle_selections-delivers id stream xs r l only
          ∙ ap (◌++◌ (messages_for stream r.sent))
              (sym (from_other id j m xs (λ q. cc (e, l, ap (λ i. lookup i r.senders) q))))
      | inr (t, e) ↦
          ap (λ q. messages_for stream (handle_selections xs q).sent) (received_known j t m r e)
          ∙ handle_selections-delivers id stream xs (sending r t m) l only
          ∙ one_more t e
    ]
  where
    one_more :
        (t : ℕ)
        → lookup j r.senders ≡ some t
        → messages_for stream (sending r t m).sent ++ messages_from id xs
          ≡ messages_for stream r.sent ++ messages_from id (message_received j m ∷ xs)
    one_more t e = elim (Bool-cases (j == id)) [
      | inl y ↦
          let same : t ≡ stream =
            let found = ap (λ i. lookup i r.senders) ((==_iff j id).0 y) in cc (e, l, found) in
          ap (λ u. messages_for stream (sending r u m).sent ++ messages_from id xs) same
          ∙ ap (λ ys. ys ++ messages_from id xs) (sent_here stream m r)
          ∙ append_assoc (messages_for stream r.sent) (m ∷ []) (messages_from id xs)
          ∙ rw y
      | inr n ↦
          let other : j ≢ id = λ q. cc (n, (==_iff j id).1 q) in
          ap (λ ys. ys ++ messages_from id xs)
            (sent_elsewhere stream t m r (λ q. other (only j (e ∙ ap some q))))
          ∙ ap (◌++◌ (messages_for stream r.sent)) (sym (from_other id j m xs other))
    ]
handle_selections-delivers id stream (channel_closed j ∷ xs) r l only =
    elim (Bool-cases (j == id)) [
      | inl y ↦ rw y (
          unreached stream xs (record r { senders = remove j r.senders })
            (λ i e.
              let (found, n) = kept i j stream r.senders e in
              let same : j ≡ i = (==_iff j id).0 y ∙ sym (only i found) in
              cc (sym (==_refl j) ∙ ap (◌==◌ j) same, n))
          ∙ sym (append-nil (messages_for stream r.sent)))
      | inr n ↦ rw n (
          handle_selections-delivers id stream xs (record r { senders = remove j r.senders })
            (rw n at (lookup-remove j id r.senders) ∙ l)
            (λ i e. only i (kept i j stream r.senders e).0))
    ]
