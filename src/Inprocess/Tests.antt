-- ===== src/Inprocess/Tests.antt =====
-- Concrete runs of src/platform/inprocess/mod.rs.
use ipc_channel.Base.{
  ℕ, ◌≡◌, refl, Bool, true, none, some, [], ◌∷◌, ◌++◌, arith, ◌==◌, if◌then◌else◌, ok, panic,
}
use ipc_channel.Inprocess.Channel.{
  ChannelMessage, Arrival, opaque, to_receiver, to_sender, from_bytes, to_sender-opaque,
  sender_channel, receiver_channel, message, no_senders, nothing,
}
use ipc_channel.Inprocess.ReceiverSet.{OsIpcReceiverSet, add, select, closed_channel}
use ipc_channel.Inprocess.Table.{Table, held}
use ipc_channel.Inprocess.Aligned.{Holds, add-Holds, select-result}
use ipc_channel.Inprocess.OneShot.{Servers}

abbrev greeting : ChannelMessage
greeting = record {
  bytes = 104 ∷ 105 ∷ [];
  channels = sender_channel (record { sender = 7 }) ∷ [];
  regions = from_bytes (1 ∷ 2 ∷ []) ∷ [];
}

-- Channel 3 has a message, channel 4 has lost its senders, the others are empty.
abbrev arrivals : ℕ → Arrival
arrivals c = if c == 3 then message greeting else if c == 4 then no_senders else nothing

abbrev connected : ℕ → Bool
connected c = true

to_sender-opaque_example :
    (to_sender (opaque (sender_channel (record { sender = 7 })))
      ≡ (ok (record { sender = 7 }), record { channel = none }))
    × (to_sender (opaque (receiver_channel (held 3))) ≡ (panic, record { channel = none }))
    × (to_receiver (opaque (receiver_channel (held 3))) ≡ (ok (held 3), record { channel = none }))
    × (to_receiver (opaque (sender_channel (record { sender = 7 })))
        ≡ (panic, record { channel = none }))
to_sender-opaque_example = to_sender-opaque (record { sender = 7 }) (held 3)

abbrev two_rows : Table
two_rows = (0, 3) ∷ (2, 4) ∷ []

abbrev two_receivers : OsIpcReceiverSet
two_receivers = record {
  incrementor = 3;
  receiver_ids = 0 ∷ 2 ∷ [];
  receivers = held 3 ∷ held 4 ∷ [];
}

two_receivers-Holds : Holds two_receivers two_rows
two_receivers-Holds = record {
  ids_are = refl;
  receivers_are = refl;
  rising = (omega arith, (omega arith, tt));
  below = (omega arith, (omega arith, tt));
}

add-Holds_example : Holds (add (held 9) two_receivers).0 (two_rows ++ ((3, 9) ∷ []))
add-Holds_example = add-Holds 9 two_receivers two_rows (omega arith) two_receivers-Holds

select-result_example :
    ((select (some 1) arrivals two_receivers).1 ≡ ok (closed_channel 2 ∷ []))
    × Holds (select (some 1) arrivals two_receivers).0 ((0, 3) ∷ [])
select-result_example = select-result arrivals 1 2 4 two_receivers two_rows two_receivers-Holds refl

abbrev no_servers : Servers
no_servers name = none
