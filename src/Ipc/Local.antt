-- ===== src/Ipc/Local.antt =====
-- The typed channels of src/ipc.rs over the transport of src/platform/inprocess/mod.rs: the
-- transport's handles as a platform, and a value's way from a sender to the receiver.
use ipc_channel.Base.{ℕ, ◌≡◌, refl, ap, Bool, List, ◌∷◌, [], map, Result, ok, ◌>>=◌, map_err}
use ipc_channel.Errors.{IpcError, BincodeError, bincode}
use ipc_channel.Inprocess.Channel.{
  OsIpcSender, OsIpcReceiver, OsIpcChannel, OsOpaqueIpcChannel, OsIpcSharedMemory, ChannelMessage,
  Message, Arrival, message, channel, opaque, delivered, to_sender, to_receiver, to_sender-opaque,
  recv-send_local,
}
use ipc_channel.Inprocess.Channel as Channel
use ipc_channel.Inprocess.Errors.{to_bincode_error, to_ipc_error}
use ipc_channel.Ipc.Platform as Platform
use ipc_channel.Ipc.Platform.{Platform, Bincode, sender_channel, receiver_channel}
use ipc_channel.Ipc.Value.{Items}
use ipc_channel.Ipc.Tables.{Tls}
use ipc_channel.Ipc.Send.{Outgoing, prepare}
use ipc_channel.Ipc.Send.Spec.{AllSound, visible, kinds_of}
use ipc_channel.Ipc.Message.RoundTrip.{to-prepare}
use ipc_channel.Ipc.Receiver.{Arrived, recv, opaque_message}

-- The transport's own type of a channel that is sent.
unfoldable pub local_channel : Platform.OsIpcChannel OsIpcSender OsIpcReceiver → OsIpcChannel
local_channel (sender_channel s) = Channel.sender_channel s
local_channel (receiver_channel r) = Channel.receiver_channel r

unfoldable pub local_opaque : Platform.OsIpcChannel OsIpcSender OsIpcReceiver → OsOpaqueIpcChannel
unfolding local_channel opaque
local_opaque c = opaque (local_channel c)

-- A conversion has the error of the transport as bincode's, though it never gives one.
abbrev pub local_to_sender :
    OsOpaqueIpcChannel → Result BincodeError OsIpcSender × OsOpaqueIpcChannel
local_to_sender o = (map_err to_bincode_error (to_sender o).0, (to_sender o).1)

abbrev pub local_to_receiver :
    OsOpaqueIpcChannel → Result BincodeError OsIpcReceiver × OsOpaqueIpcChannel
local_to_receiver o = (map_err to_bincode_error (to_receiver o).0, (to_receiver o).1)

pub local_to_sender-opaque :
    (s : OsIpcSender) → (local_to_sender (local_opaque (sender_channel s))).0 ≡ ok s
unfolding to_sender local_opaque
local_to_sender-opaque s = refl

pub local_to_receiver-opaque :
    (r : OsIpcReceiver) → (local_to_receiver (local_opaque (receiver_channel r))).0 ≡ ok r
unfolding to_receiver local_opaque
local_to_receiver-opaque r = refl

abbrev pub local : Platform
local = record {
  Sender = OsIpcSender;
  Receiver = OsIpcReceiver;
  Memory = OsIpcSharedMemory;
  Opaque = OsOpaqueIpcChannel;
  opaque = local_opaque;
  to_sender = local_to_sender;
  to_receiver = local_to_receiver;
  to_sender-opaque = local_to_sender-opaque;
  to_receiver-opaque = local_to_receiver-opaque;
}

opaques :
    (cs : List (Platform.OsIpcChannel OsIpcSender OsIpcReceiver))
    → map opaque (map local_channel cs) ≡ map local_opaque cs
unfolding local_opaque
opaques [] = refl
opaques (c ∷ cs) = ap (◌∷◌ (opaque (local_channel c))) (opaques cs)

unfoldable pub arrived : Message → Arrived local
arrived m = record { bytes = m.bytes; channels = m.channels; regions = m.regions }

-- `OsIpcReceiver::recv`, as `IpcReceiver::recv` calls it.
unfoldable pub os_recv : OsIpcReceiver → (ℕ → Arrival) → Result IpcError (Arrived local)
unfolding Channel.recv arrived
os_recv r arrival = map_err to_ipc_error (Channel.recv r arrival >>= λ m. ok (arrived m))

-- A value whose implementations do not fail is sent on one end of a channel and received on the other:
-- its numbers, its senders, receivers and shared memory, in their places; what it sent on the way is
-- not part of it.
pub typed_recv-send :
    (b : Bincode) (v : Items OsIpcSender OsIpcReceiver OsIpcSharedMemory) (t t' : Tls local)
    (o : Outgoing local) (c : ℕ) (has_receiver : ℕ → Bool) (arrival : ℕ → Arrival) (on : ℕ)
    (m : ChannelMessage)
    → AllSound v
    → (prepare local v t).1 ≡ ok o
    → Channel.send
        (channel c).0
        has_receiver
        (b.encode o.words)
        (map local_channel o.channels)
        o.regions
      ≡ ok (on, m)
    → arrival on ≡ message m
    → (recv local b (kinds_of v) (os_recv (channel c).1 arrival) t').1 ≡ ok (visible v)
unfolding recv os_recv opaque_message arrived
typed_recv-send b v t t' o c has_receiver arrival on m sound prepared sent arrives =
    let received =
      (recv-send_local c has_receiver arrival (b.encode o.words) (map local_channel o.channels)
        o.regions on m sent arrives).0 in
    rw (received, opaques o.channels)
      (ap (map_err bincode) (to-prepare local b v t t' o sound prepared))
