-- ===== src/Unix/ReceiverSet/Select.antt =====
-- What `OsIpcReceiverSet::select` of src/platform/unix/mod.rs reports.
use ipc_channel.Base.{
  ℕ, ℤ, ◌≡◌, inl, inr, refl, sym, ap, ◌∙◌, Bool, true, Option, none, some, List, [], ◌∷◌, ◌++◌,
  append-nil, append_assoc, Result, ok, err, panic, waits, Bool-cases, if◌then◌else◌,
}
use ipc_channel.Unix.Kernel.{Kernel, UnixError, channel_is_closed}
use ipc_channel.Unix.Recv.{CmsgAnswers, FollowupAnswer, Message, recv, blocking}
use ipc_channel.Unix.ReceiverSet.Map.{lookup, remove}
use ipc_channel.Unix.ReceiverSet.{
  PollEntry, OsIpcReceiverSet, OsIpcSelectionResult, data_received, closed_channel, Event,
  handle_event, handle_events, handle_received, close_entry, select, wait_events, PollResult,
}

-- What is to be reported of an entry, by what `recv` on its descriptor comes to; nothing, if that is
-- neither a message nor the end of the channel.
abbrev pub report : PollEntry → Result UnixError Message → Option OsIpcSelectionResult
report e (ok m) = some (data_received e.id m)
report e (err x) = if channel_is_closed x then some (closed_channel e.id) else none
report e panic = none
report e waits = none

abbrev pub Entries : Type 0
Entries = List (ℕ × PollEntry)

-- The entries that are left when the descriptor of `t` has been read.
abbrev pub keep_open : ℕ → Result UnixError Message → Entries → Entries
keep_open t (err _) m = remove t m
keep_open t _ m = m

-- The events are readable, each for an entry of the map that is left by those before it; `rs` is
-- what is to be reported of them, and the last index what is left of the map.
pub data Reports (receive : ℤ → Result UnixError Message)
    : Entries → List Event → List OsIpcSelectionResult → Entries → Type 0 where
  no_events : {m : Entries} → Reports receive m [] [] m
  one_event :
      {m m' : Entries} {evts : List Event} {rs : List OsIpcSelectionResult} (evt : Event)
      (e : PollEntry) (r : OsIpcSelectionResult)
      → evt.readable ≡ true
      → lookup evt.token m ≡ some e
      → report e (receive e.fd) ≡ some r
      → Reports receive (keep_open evt.token (receive e.fd) m) evts rs m'
      → Reports receive m (evt ∷ evts) (r ∷ rs) m'

module _ (dereg : ℤ → Bool) (receive : ℤ → Result UnixError Message)
    (deregisters : (fd : ℤ) → dereg fd ≡ true) where
  handle_received-Reports :
      (t : ℕ) (e : PollEntry) (r : OsIpcSelectionResult) (s : OsIpcReceiverSet)
      (x : Result UnixError Message)
      → report e x ≡ some r
      → ((handle_received dereg t e s x).1 ≡ ok r)
        × ((handle_received dereg t e s x).0.pollfds ≡ keep_open t x s.pollfds)
  unfolding handle_received close_entry
  handle_received-Reports t e r s (ok m) h = (cc h, refl)
  handle_received-Reports t e r s (err x) h = elim (Bool-cases (channel_is_closed x)) [
    | inl y ↦ let h' = rw y at h in rw (y, deregisters e.fd) (cc h', refl)
    | inr n ↦ cc (rw n at h)
  ]
  handle_received-Reports t e r s panic h = cc
  handle_received-Reports t e r s waits h = cc

  handle_event-Reports :
      (evt : Event) (e : PollEntry) (r : OsIpcSelectionResult) (s : OsIpcReceiverSet)
      → evt.readable ≡ true
      → lookup evt.token s.pollfds ≡ some e
      → report e (receive e.fd) ≡ some r
      → ((handle_event dereg receive evt s).1 ≡ ok r)
        × ((handle_event dereg receive evt s).0.pollfds
            ≡ keep_open evt.token (receive e.fd) s.pollfds)
  unfolding handle_event
  handle_event-Reports evt e r s y l h =
      rw (y, handle_event, l) (handle_received-Reports evt.token e r s (receive e.fd) h)

  -- The loop gives what is to be reported, in the order of the events.
  handle_events-Reports :
      {m m' : Entries} {evts : List Event} {rs : List OsIpcSelectionResult}
      → Reports receive m evts rs m'
      → (s : OsIpcReceiverSet) (before : List OsIpcSelectionResult) → s.pollfds ≡ m
      → ((handle_events dereg receive evts before s).1 ≡ ok (before ++ rs))
        × ((handle_events dereg receive evts before s).0.pollfds ≡ m')
  unfolding handle_events
  handle_events-Reports no_events s before q = (ap ok (sym (append-nil before)), q)
  handle_events-Reports {evts = evt ∷ evts} {rs = r ∷ rs} (one_event _ e _ y l h rest) s before q =
      let one = handle_event-Reports evt e r s y (ap (lookup evt.token) q ∙ l) h in
      let more =
        handle_events-Reports rest (handle_event dereg receive evt s).0 (before ++ (r ∷ []))
          (one.1 ∙ ap (keep_open evt.token (receive e.fd)) q) in
      rw one.0 (more.0 ∙ ap ok (append_assoc before (r ∷ []) rs), more.1)

-- Where the poll's events are readable, each for an entry that is still there and has a message or
-- the end of its channel, and deregistering succeeds: `select` reports each ready receiver once, in
-- the order of the events, under the identifier that `add` gave it: its message, or that its
-- channel is closed. The closed ones are what it removes.
pub select-Reports :
    (k : Kernel) (answers : ℤ → CmsgAnswers) (dedicated : ℤ → List FollowupAnswer)
    (dereg : ℤ → Bool) (polls : List PollResult) (s : OsIpcReceiverSet) (evts : List Event)
    (rs : List OsIpcSelectionResult) (m' : Entries)
    → ((fd : ℤ) → dereg fd ≡ true)
    → wait_events polls ≡ ok evts
    → Reports (λ fd. recv k (answers fd) dedicated blocking) s.pollfds evts rs m'
    → ((select k answers dedicated dereg polls s).1 ≡ ok rs)
      × ((select k answers dedicated dereg polls s).0.pollfds ≡ m')
unfolding select
select-Reports k answers dedicated dereg polls s evts rs m' d w reports =
    rw w (handle_events-Reports dereg _ d reports s [] refl)
