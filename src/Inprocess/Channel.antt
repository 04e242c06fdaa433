-- ===== src/Inprocess/Channel.antt =====
-- Senders, receivers, messages and shared memory of src/platform/inprocess/mod.rs. A crossbeam channel
-- is named by a number; what its operations give is an argument.
use ipc_channel.Base.{
  ℕ, ◌≡◌, refl, ap, Bool, false, Option, none, some, List, map, Result, ok, err, panic, waits,
  ◌>>=◌, unwrap, length, length-replicate, replicate, take, take_all, arith, if◌then◌else◌,
}

pub data ChannelError : Type 0 where
  channel_closed_error broken_pipe_error channel_empty unknown_error : ChannelError

-- `RefCell<Option<Receiver>>`: `none` once it has been consumed.
pub record OsIpcReceiver : Type 0 where
  pub receiver : Option ℕ

pub record OsIpcSender : Type 0 where
  pub sender : ℕ

pub data OsIpcChannel : Type 0 where
  sender_channel : OsIpcSender → OsIpcChannel
  receiver_channel : OsIpcReceiver → OsIpcChannel

-- `RefCell<Option<OsIpcChannel>>`: `none` once it has been converted.
pub record OsOpaqueIpcChannel : Type 0 where
  pub channel : Option OsIpcChannel

-- The pointer is null or not; it points to `data`, of which `length` bytes are read.
pub record OsIpcSharedMemory : Type 0 where
  pub is_null : Bool
  pub length : ℕ
  pub contents : List ℕ

pub record ChannelMessage : Type 0 where
  pub bytes : List ℕ
  pub channels : List OsIpcChannel
  pub regions : List OsIpcSharedMemory

-- What a receiving call returns: the channels are opaque.
pub record Message : Type 0 where
  pub bytes : List ℕ
  pub channels : List OsOpaqueIpcChannel
  pub regions : List OsIpcSharedMemory

-- What a crossbeam channel gives to `recv`, `try_recv` or `recv_timeout`: a message, that all senders
-- are gone, or that there is none (yet, or within the time).
pub data Arrival : Type 0 where
  message : ChannelMessage → Arrival
  no_senders nothing : Arrival

-- `channel`: both ends of one crossbeam channel.
unfoldable pub channel : ℕ → OsIpcSender × OsIpcReceiver
channel c = (record { sender = c }, record { receiver = some c })

-- `consume`: what was taken, and what is left.
unfoldable pub consume : OsIpcReceiver → OsIpcReceiver × OsIpcReceiver
consume r = (record { receiver = r.receiver }, record { receiver = none })

unfoldable pub opaque : OsIpcChannel → OsOpaqueIpcChannel
opaque c = record { channel = some c }

unfoldable pub delivered : ChannelMessage → Message
unfolding opaque
delivered m = record { bytes = m.bytes; channels = map opaque m.channels; regions = m.regions }

unfoldable pub recv : OsIpcReceiver → (ℕ → Arrival) → Result ChannelError Message
recv r arrival = do
  c ← unwrap r.receiver
  elim (arrival c) [
    | message m ↦ ok (delivered m)
    | no_senders ↦ err channel_closed_error
    | nothing ↦ waits
  ]

unfoldable pub try_recv : OsIpcReceiver → (ℕ → Arrival) → Result ChannelError Message
try_recv r arrival = do
  c ← unwrap r.receiver
  elim (arrival c) [
    | message m ↦ ok (delivered m)
    | no_senders ↦ err channel_closed_error
    | nothing ↦ err channel_empty
  ]

-- `try_recv_timeout`: the answer is that of `recv_timeout`, where the time may run out.
unfoldable pub try_recv_timeout : OsIpcReceiver → (ℕ → Arrival) → Result ChannelError Message
try_recv_timeout r arrival = do
  c ← unwrap r.receiver
  elim (arrival c) [
    | message m ↦ ok (delivered m)
    | nothing ↦ err channel_empty
    | no_senders ↦ err channel_closed_error
  ]

-- `send`: what is put on the channel, if it still has a receiver.
unfoldable pub send :
    OsIpcSender
    → (ℕ → Bool)
    → List ℕ
    → List OsIpcChannel
    → List OsIpcSharedMemory
    → Result ChannelError (ℕ × ChannelMessage)
send s has_receiver bytes ports regions =
    if has_receiver s.sender
    then ok (s.sender, record { bytes = bytes; channels = ports; regions = regions })
    else err broken_pipe_error

-- The conversions take the channel out; a second one, or one to the other kind, panics.
unfoldable pub to_receiver :
    OsOpaqueIpcChannel → Result ChannelError OsIpcReceiver × OsOpaqueIpcChannel
to_receiver o = (
  elim o.channel [
    | none ↦ panic
    | some (sender_channel _) ↦ panic
    | some (receiver_channel r) ↦ ok r
  ],
  record { channel = none },
)

unfoldable pub to_sender : OsOpaqueIpcChannel → Result ChannelError OsIpcSender × OsOpaqueIpcChannel
to_sender o = (
  elim o.channel [
    | none ↦ panic
    | some (sender_channel s) ↦ ok s
    | some (receiver_channel _) ↦ panic
  ],
  record { channel = none },
)

-- The pointer of a vector is never null.
unfoldable pub from_byte : ℕ → ℕ → OsIpcSharedMemory
from_byte byte n = record { is_null = false; length = n; contents = replicate n byte }

unfoldable pub from_bytes : List ℕ → OsIpcSharedMemory
from_bytes xs = record { is_null = false; length = length xs; contents = xs }

unfoldable pub deref : OsIpcSharedMemory → Result ChannelError (List ℕ)
deref m = if m.is_null then panic else ok (take m.length m.contents)

-- What is read from shared memory is what it was made from.
pub deref_reads :
    (xs : List ℕ) (byte n : ℕ)
    → (deref (from_bytes xs) ≡ ok xs) × (deref (from_byte byte n) ≡ ok (replicate n byte))
unfolding deref from_bytes from_byte
deref_reads xs byte n = (
  ap ok (take_all (length xs) xs (omega arith)),
  ap ok (take_all n (replicate n byte) (omega (arith, length-replicate n byte))),
)

-- A message that was sent on one end that `channel` made, and is the next to arrive, is received on the
-- other end as it was sent, its channels opaque, by each of the three ways to receive.
pub recv-send_local :
    (c : ℕ) (has_receiver : ℕ → Bool) (arrival : ℕ → Arrival) (bytes : List ℕ)
    (ports : List OsIpcChannel) (regions : List OsIpcSharedMemory) (to : ℕ) (m : ChannelMessage)
    → send (channel c).0 has_receiver bytes ports regions ≡ ok (to, m)
    → arrival to ≡ message m
    → (recv (channel c).1 arrival
        ≡ ok (record { bytes = bytes; channels = map opaque ports; regions = regions }))
      × (try_recv (channel c).1 arrival ≡ recv (channel c).1 arrival)
      × (try_recv_timeout (channel c).1 arrival ≡ recv (channel c).1 arrival)
unfolding channel send recv try_recv try_recv_timeout delivered
recv-send_local c has_receiver arrival bytes ports regions to m sent arrives = ground arith

-- A receiver that has been consumed cannot be read; the one that took it over can.
pub recv-consume :
    (r : OsIpcReceiver) (arrival : ℕ → Arrival)
    → (recv (consume r).1 arrival ≡ panic) × (recv (consume r).0 arrival ≡ recv r arrival)
unfolding recv consume
recv-consume r arrival = (refl, refl)

-- A conversion gives the handle that went in, exactly if it is asked for the kind of the handle.
pub to_sender-opaque :
    (s : OsIpcSender) (r : OsIpcReceiver)
    → (to_sender (opaque (sender_channel s)) ≡ (ok s, record { channel = none }))
      × (to_sender (opaque (receiver_channel r)) ≡ (panic, record { channel = none }))
      × (to_receiver (opaque (receiver_channel r)) ≡ (ok r, record { channel = none }))
      × (to_receiver (opaque (sender_channel s)) ≡ (panic, record { channel = none }))
unfolding to_sender to_receiver opaque
to_sender-opaque s r = (refl, refl, refl, refl)
