-- ===== src/Ipc/Message.antt =====
-- `OpaqueIpcMessage` of src/ipc.rs: a message as it has arrived, and its conversion to a value.
pub mod Restore
pub mod RoundTrip
use ipc_channel.Base.{
  ℕ, ◌≡◌, Option, none, some, List, [], ◌∷◌, ◌++◌, map, Result, ok, err, panic, waits, ◌>>=◌, on_ok,
}
use ipc_channel.Errors.{BincodeError}
use ipc_channel.Ipc.Platform.{Platform, OsIpcChannel, Bincode}
use ipc_channel.Ipc.Value.{
  Item, Items, word, sender, receiver, memory, nil, cons, Kind, a_word, a_sender, a_receiver,
  a_memory,
}
use ipc_channel.Ipc.Tables.{
  Tls, deserialize_os_ipc_sender, deserialize_os_ipc_receiver, deserialize_memory,
}

pub record OpaqueIpcMessage (P : Platform) : Type 0 where
  pub bytes : List ℕ
  pub os_ipc_channels : List P.Opaque
  pub os_ipc_shared_memory_regions : List (Option P.Memory)

module _ (P : Platform) where
  unfoldable pub new : List ℕ → List P.Opaque → List P.Memory → OpaqueIpcMessage P
  new bytes channels regions = record {
    bytes = bytes;
    os_ipc_channels = channels;
    os_ipc_shared_memory_regions = map some regions;
  }

  unfoldable pub deserialize :
      Kind → ℕ → Tls P → Tls P × Result BincodeError (Item P.Sender P.Receiver P.Memory)
  deserialize a_word n t = (t, ok (word n))
  deserialize a_sender n t =
      let (t', r) = deserialize_os_ipc_sender P n t in (t', r >>= λ s. ok (sender s))
  deserialize a_receiver n t =
      let (t', r) = deserialize_os_ipc_receiver P n t in (t', r >>= λ x. ok (receiver x))
  deserialize a_memory n t =
      let (t', r) = deserialize_memory P n t in (t', r >>= λ m. ok (memory m))

  -- The value is read in the order of its kinds; where the input ends early bincode gives an error,
  -- and what is behind the value is not read.
  unfoldable pub deserialize_all :
      BincodeError
      → List Kind
      → List ℕ
      → Tls P
      → Tls P × Result BincodeError (Items P.Sender P.Receiver P.Memory)
  deserialize_all eof [] ws t = (t, ok nil)
  deserialize_all eof (k ∷ ks) [] t = (t, err eof)
  deserialize_all eof (k ∷ ks) (w ∷ ws) t =
      let (t', r) = deserialize k w t in
      on_ok t' r
        λ x. let (t'', r') = deserialize_all eof ks ws t' in (t'', r' >>= λ xs. ok (cons x xs))

  -- `mem::swap` of both tables with the message's.
  unfoldable pub swap_in : OpaqueIpcMessage P → Tls P → Tls P
  swap_in m t = record t {
    channels_for_deserialization = m.os_ipc_channels;
    regions_for_deserialization = m.os_ipc_shared_memory_regions;
  }

  -- The second pair of swaps puts the tables of before back, whatever the result.
  unfoldable pub swap_out : Tls P → Tls P → Tls P
  swap_out old t = record t {
    channels_for_deserialization = old.channels_for_deserialization;
    regions_for_deserialization = old.regions_for_deserialization;
  }

  unfoldable pub read :
      Bincode
      → List Kind
      → List ℕ
      → Tls P
      → Tls P × Result BincodeError (Items P.Sender P.Receiver P.Memory)
  read b ks bytes t = elim (b.decode bytes) [
    | none ↦ (t, err b.end_of_input)
    | some ws ↦ deserialize_all b.end_of_input ks ws t
  ]

  -- `OpaqueIpcMessage::to`. A panic in `deserialize` leaves without the second pair of swaps.
  unfoldable pub to :
      Bincode
      → List Kind
      → OpaqueIpcMessage P
      → Tls P
      → Tls P × Result BincodeError (Items P.Sender P.Receiver P.Memory)
  to b ks m t =
      let (t', r) = read b ks m.bytes (swap_in m t) in
      elim r [
        | panic ↦ (t', panic)
        | ok v ↦ (swap_out t t', ok v)
        | err e ↦ (swap_out t t', err e)
        | waits ↦ (swap_out t t', waits)
      ]
