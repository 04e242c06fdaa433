-- ===== src/Ipc/Tests.antt =====
-- Concrete runs of src/ipc.rs, over the handles of src/platform/inprocess/mod.rs.
use ipc_channel.Base.{
  ℕ, ◌≡◌, refl, ap, true, false, none, some, List, [], ◌∷◌, map, Result, map_err, ok, err,
}
use ipc_channel.Errors.{BincodeError, TryRecvError, os, io, codec, bincode, empty}
use ipc_channel.Ipc.Platform.{OsIpcChannel, Bincode, sender_channel}
use ipc_channel.Ipc.Value.{
  Items, word, sender, memory, fails, sends, nil, cons, a_word, a_sender, a_memory,
}
use ipc_channel.Ipc.Tables.{Tls}
use ipc_channel.Ipc.Send.{Outgoing, prepare, send}
use ipc_channel.Ipc.Send.Spec.{AllSound}
use ipc_channel.Ipc.Send.Restore.{prepare_lem, send_lem}
use ipc_channel.Ipc.Send.Leak.{append, failed_send_loses_sender}
use ipc_channel.Ipc.Message.{OpaqueIpcMessage, new, deserialize, deserialize_all, swap_in, read, to}
use ipc_channel.Ipc.Message.Restore.{to_restores}
use ipc_channel.Ipc.Message.RoundTrip.{to-prepare}
use ipc_channel.Ipc.Receiver.{
  Arrived, recv, selection, select, unwrap_selection, data_received, os_channel_closed,
  message_received,
}
use ipc_channel.Ipc.Receiver.Reports.{select-recv}
use ipc_channel.Ipc.Local.{local_channel, local_opaque, local, os_recv, typed_recv-send}
use ipc_channel.Inprocess.Channel as Channel
use ipc_channel.Inprocess.Channel.{
  OsIpcReceiver, OsIpcSender, OsIpcSharedMemory, ChannelMessage, channel, message,
}

abbrev plain : Bincode
plain = record {
  encode = λ ws. ws;
  decode = λ xs. some xs;
  end_of_input = codec 0;
  decode-encode = λ ws. refl;
}

abbrev LocalItems : Type 0
LocalItems = Items OsIpcSender OsIpcReceiver OsIpcSharedMemory

abbrev sender_5 : OsIpcSender
sender_5 = record { sender = 5 }

abbrev two_bytes : OsIpcSharedMemory
two_bytes = record { is_null = false; length = 2; contents = 1 ∷ 2 ∷ [] }

abbrev inner : LocalItems
inner = cons (word 8) (cons (memory two_bytes) nil)

-- A number, a sender, a message that is sent on the way, and shared memory.
abbrev sent : LocalItems
sent = cons (word 42) (cons (sender sender_5) (cons (sends inner) (cons (memory two_bytes) nil)))

abbrev arriving : LocalItems
arriving = cons (word 42) (cons (sender sender_5) (cons (memory two_bytes) nil))

sent-AllSound : AllSound sent
sent-AllSound = (tt, (tt, ((tt, (tt, tt)), (tt, tt))))

abbrev outgoing : Outgoing local
outgoing = record {
  words = 42 ∷ 0 ∷ 0 ∷ [];
  channels = sender_channel sender_5 ∷ [];
  regions = two_bytes ∷ [];
}

abbrev busy : Tls local
busy = record {
  channels_for_serialization = sender_channel sender_5 ∷ [];
  regions_for_serialization = [];
  channels_for_deserialization = [];
  regions_for_deserialization = none ∷ [];
}

sent_prepared : (prepare local sent busy).1 ≡ ok outgoing
sent_prepared = ap (λ x. x.1) (prepare_lem local sent busy sent-AllSound)

abbrev refusing :
    List ℕ
    → List (OsIpcChannel OsIpcSender OsIpcReceiver)
    → List OsIpcSharedMemory
    → Result BincodeError (Unit {0})
refusing bytes ports regions = err (io (os 32))

send_lem_example : send local plain refusing sent busy ≡ (busy, err (io (os 32)))
send_lem_example = send_lem local plain refusing sent busy sent-AllSound

failed_send_loses_sender_example :
    (prepare local
      (cons
        (sender sender_5)
        (cons (sends (append nil (cons (fails (codec 3)) nil))) (cons (sender sender_5) nil)))
      busy).1
    ≡ ok (record { words = 0 ∷ 0 ∷ []; channels = sender_channel sender_5 ∷ []; regions = [] })
failed_send_loses_sender_example =
    failed_send_loses_sender local sender_5 sender_5 nil nil (codec 3) busy tt

abbrev cut_short : OpaqueIpcMessage local
cut_short = record { bytes = 42 ∷ []; os_ipc_channels = []; os_ipc_shared_memory_regions = [] }

to_restores_example : (to local plain (a_word ∷ a_word ∷ []) cut_short busy).0 ≡ busy
to_restores_example =
    to_restores local plain (a_word ∷ a_word ∷ []) cut_short busy
      (unfold to swap_in read deserialize_all deserialize in λ e. cc e)

to-prepare_example :
    (to local plain
      (a_word ∷ a_sender ∷ a_memory ∷ [])
      (new local (42 ∷ 0 ∷ 0 ∷ []) (local_opaque (sender_channel sender_5) ∷ []) (two_bytes ∷ []))
      busy).1
    ≡ ok arriving
to-prepare_example = to-prepare local plain sent busy busy outgoing sent-AllSound sent_prepared

abbrev nothing_arrived : Result TryRecvError (Arrived local)
nothing_arrived = err empty

abbrev arrived_words : Arrived local
arrived_words = record { bytes = 42 ∷ []; channels = []; regions = [] }

abbrev SelectsAsReceived : Type 0
SelectsAsReceived =
    (o : OpaqueIpcMessage local) × (select local
        (ok (data_received 3 arrived_words ∷ os_channel_closed 4 ∷ []))
      ≡ ok (message_received 3 o ∷ map (selection local) (os_channel_closed 4 ∷ [])))
    × (unwrap_selection local (message_received 3 o) ≡ ok (3, o))
    × ((to local plain (a_word ∷ []) o busy).0
        ≡ (recv local plain (a_word ∷ []) (ok arrived_words) busy).0)
    × (map_err bincode (to local plain (a_word ∷ []) o busy).1
        ≡ (recv local plain (a_word ∷ []) (ok arrived_words) busy).1)

select-recv_example : SelectsAsReceived
select-recv_example =
    select-recv local plain (a_word ∷ []) 3 arrived_words busy [] (os_channel_closed 4 ∷ [])

abbrev wire_message : ChannelMessage
wire_message = record {
  bytes = 42 ∷ 0 ∷ 0 ∷ [];
  channels = Channel.sender_channel sender_5 ∷ [];
  regions = two_bytes ∷ [];
}

typed_recv-send_example :
    (recv local plain
      (a_word ∷ a_sender ∷ a_memory ∷ [])
      (os_recv (channel 9).1 (λ c. message wire_message))
      busy).1
    ≡ ok arriving
typed_recv-send_example =
    typed_recv-send plain sent busy busy outgoing 9 (λ c. true) (λ c. message wire_message) 9
      wire_message sent-AllSound sent_prepared (unfold Channel.send channel local_channel in refl)
      refl
