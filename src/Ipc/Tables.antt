-- ===== src/Ipc/Tables.antt =====
-- The thread-local tables of src/ipc.rs, through which `Serialize` and `Deserialize` implementations
-- of handles reach the message: a handle is serialized as its index in a table.
use ipc_channel.Base.{
  ℕ, Option, none, some, List, [], ◌∷◌, ◌++◌, Result, ok, panic, length, get_elem?, set,
}
use ipc_channel.Errors.{BincodeError}
use ipc_channel.Ipc.Platform.{Platform, OsIpcChannel, sender_channel, receiver_channel}

-- One thread's four tables.
pub record Tls (P : Platform) : Type 0 where
  pub channels_for_serialization : List (OsIpcChannel P.Sender P.Receiver)
  pub regions_for_serialization : List P.Memory
  pub channels_for_deserialization : List P.Opaque
  pub regions_for_deserialization : List (Option P.Memory)

-- The initial tables of a thread.
abbrev pub fresh : (P : Platform) → Tls P
fresh P = record {
  channels_for_serialization = [];
  regions_for_serialization = [];
  channels_for_deserialization = [];
  regions_for_deserialization = [];
}

module _ (P : Platform) where
  unfoldable pub push_channel : OsIpcChannel P.Sender P.Receiver → Tls P → Tls P × ℕ
  push_channel c t =
      let index = length t.channels_for_serialization in
      (record t { channels_for_serialization = t.channels_for_serialization ++ (c ∷ []) }, index)

  -- A clone of the sender goes into the table; it is the same channel.
  unfoldable pub serialize_os_ipc_sender : P.Sender → Tls P → Tls P × ℕ
  unfolding push_channel
  serialize_os_ipc_sender s = push_channel (sender_channel s)

  -- The receiver is consumed: the table has what the value had.
  unfoldable pub serialize_os_ipc_receiver : P.Receiver → Tls P → Tls P × ℕ
  unfolding push_channel
  serialize_os_ipc_receiver r = push_channel (receiver_channel r)

  -- `Serialize for IpcSharedMemory`
  unfoldable pub serialize_memory : P.Memory → Tls P → Tls P × ℕ
  serialize_memory m t =
      let index = length t.regions_for_serialization in
      (record t { regions_for_serialization = t.regions_for_serialization ++ (m ∷ []) }, index)

  -- An index out of bounds panics; the channel's slot keeps what the conversion leaves.
  unfoldable pub deserialize_os_ipc_sender : ℕ → Tls P → Tls P × Result BincodeError P.Sender
  deserialize_os_ipc_sender index t = elim (get_elem? t.channels_for_deserialization index) [
    | none ↦ (t, panic)
    | some o ↦
        let (r, o') = P.to_sender o in
        (record t { channels_for_deserialization = set t.channels_for_deserialization index o' }, r)
  ]

  unfoldable pub deserialize_os_ipc_receiver : ℕ → Tls P → Tls P × Result BincodeError P.Receiver
  deserialize_os_ipc_receiver index t = elim (get_elem? t.channels_for_deserialization index) [
    | none ↦ (t, panic)
    | some o ↦
        let (r, o') = P.to_receiver o in
        (record t { channels_for_deserialization = set t.channels_for_deserialization index o' }, r)
  ]

  -- `Deserialize for IpcSharedMemory`: a region that is taken a second time panics too.
  unfoldable pub deserialize_memory : ℕ → Tls P → Tls P × Result BincodeError P.Memory
  deserialize_memory index t = elim (get_elem? t.regions_for_deserialization index) [
    | none ↦ (t, panic)
    | some none ↦ (t, panic)
    | some (some m) ↦ (
      record t { regions_for_deserialization = set t.regions_for_deserialization index none },
      ok m,
    )
  ]
