-- ===== src/Inprocess/ReceiverSet.antt =====
-- `OsIpcReceiverSet` of src/platform/inprocess/mod.rs: two vectors, of identifiers and of receivers,
-- kept side by side.
use ipc_channel.Base.{
  ℕ, ◌+◌, ◌%◌, ◌^◌, Bool, true, false, Option, none, some, List, [], ◌∷◌, ◌++◌, Result, ok, err,
  panic, waits, ◌>>=◌, unwrap, get_elem?, remove_at, if◌then◌else◌,
}
use ipc_channel.Inprocess.Channel.{
  ChannelError, unknown_error, OsIpcReceiver, Message, Arrival, message, consume, delivered,
}

pub record OsIpcReceiverSet : Type 0 where
  pub incrementor : ℕ
  pub receiver_ids : List ℕ
  pub receivers : List OsIpcReceiver

pub data OsIpcSelectionResult : Type 0 where
  data_received : ℕ → Message → OsIpcSelectionResult
  closed_channel : ℕ → OsIpcSelectionResult

unfoldable pub new : OsIpcReceiverSet
new = record { incrementor = 0; receiver_ids = []; receivers = [] }

unfoldable pub add : OsIpcReceiver → OsIpcReceiverSet → OsIpcReceiverSet × ℕ
unfolding consume
add receiver s =
    let last_index = s.incrementor in
    (
      record {
        incrementor = (s.incrementor + 1) % 2 ^ 64;
        receiver_ids = s.receiver_ids ++ (last_index ∷ []);
        receivers = s.receivers ++ ((consume receiver).0 ∷ []);
      },
      last_index,
    )

-- `borrows`: every receiver must still be there.
unfoldable pub borrows : List OsIpcReceiver → Result ChannelError (List ℕ)
borrows [] = ok []
borrows (r ∷ rs) = do c ← unwrap r.receiver; cs ← borrows rs; ok (c ∷ cs)

-- What follows `Select::select`: the operation at `r_index` is completed. A select whose operation is
-- ready, but has no message, has found the channel closed.
unfoldable pub complete :
    (ℕ → Arrival)
    → ℕ
    → OsIpcReceiverSet
    → ℕ
    → ℕ
    → OsIpcReceiverSet × Result ChannelError (List OsIpcSelectionResult)
complete arrival r_index s r_id c = elim (arrival c) [
  | message m ↦ (s, ok (data_received r_id (delivered m) ∷ []))
  | _ ↦ (
    record s {
      receiver_ids = remove_at r_index s.receiver_ids;
      receivers = remove_at r_index s.receivers;
    },
    ok (closed_channel r_id ∷ []),
  )
]

-- Where `Select::select` has chosen `r_index`; both vectors are indexed by it.
unfoldable pub chosen :
    (ℕ → Arrival)
    → ℕ
    → OsIpcReceiverSet
    → List ℕ
    → OsIpcReceiverSet × Result ChannelError (List OsIpcSelectionResult)
chosen arrival r_index s cs = elim (get_elem? s.receiver_ids r_index) [
  | none ↦ (s, panic)
  | some r_id ↦ elim (get_elem? cs r_index) [
    | none ↦ (s, panic)
    | some c ↦ complete arrival r_index s r_id c
  ]
]

unfoldable pub is_empty : List OsIpcReceiver → Bool
is_empty [] = true
is_empty (_ ∷ _) = false

-- `select`; the choice is `none` while no receiver is ready.
unfoldable pub select :
    Option ℕ
    → (ℕ → Arrival)
    → OsIpcReceiverSet
    → OsIpcReceiverSet × Result ChannelError (List OsIpcSelectionResult)
select choice arrival s =
    if is_empty s.receivers then (s, err unknown_error) else (elim (borrows s.receivers) [
      | ok cs ↦ elim choice [ none ↦ (s, waits) | some r_index ↦ chosen arrival r_index s cs ]
      | err e ↦ (s, err e)
      | panic ↦ (s, panic)
      | waits ↦ (s, waits)
    ])

-- `OsIpcSelectionResult::unwrap`
unfoldable pub unwrap_selection : OsIpcSelectionResult → Result ChannelError (ℕ × Message)
unwrap_selection (data_received id m) = ok (id, m)
unwrap_selection (closed_channel id) = panic
