-- ===== src/Ipc/Receiver.antt =====
-- The receiving ends of src/ipc.rs, `IpcReceiver`, `IpcReceiverSet`, `IpcOneShotServer` and
-- `IpcBytesReceiver`, over what the platform's calls give, their errors converted by `?`.
pub mod Reports
use ipc_channel.Base.{ℕ, some, List, [], map, Result, ◌>>=◌, map_err, on_ok, ok, panic}
use ipc_channel.Errors.{IoError, BincodeError, IpcError, TryRecvError, bincode, ipc_error}
use ipc_channel.Ipc.Platform.{OsIpcChannel, Platform, Bincode}
use ipc_channel.Ipc.Value.{Items, Kind}
use ipc_channel.Ipc.Tables.{Tls}
use ipc_channel.Ipc.Message.{OpaqueIpcMessage, new, to}

-- What the platform's `recv` gives: `(data, os_ipc_channels, os_ipc_shared_memory_regions)`.
pub record Arrived (P : Platform) : Type 0 where
  pub bytes : List ℕ
  pub channels : List P.Opaque
  pub regions : List P.Memory

-- `OsIpcSelectionResult`, which each platform defines alike.
pub data OsIpcSelectionResult (P : Platform) : Type 0 where
  data_received : ℕ → Arrived P → OsIpcSelectionResult P
  os_channel_closed : ℕ → OsIpcSelectionResult P

pub data IpcSelectionResult (P : Platform) : Type 0 where
  message_received : ℕ → OpaqueIpcMessage P → IpcSelectionResult P
  channel_closed : ℕ → IpcSelectionResult P

module _ (P : Platform) where
  unfoldable pub opaque_message : Arrived P → OpaqueIpcMessage P
  unfolding new
  opaque_message m = new P m.bytes m.channels m.regions

  -- `IpcReceiver::recv`
  unfoldable pub recv :
      Bincode
      → List Kind
      → Result IpcError (Arrived P)
      → Tls P
      → Tls P × Result IpcError (Items P.Sender P.Receiver P.Memory)
  recv b ks received t =
      on_ok t received λ m. let (t', r) = to P b ks (opaque_message m) t in (t', map_err bincode r)

  -- `IpcReceiver::try_recv` and `try_recv_timeout`, over the platform's call of the same name.
  unfoldable pub try_recv :
      Bincode
      → List Kind
      → Result TryRecvError (Arrived P)
      → Tls P
      → Tls P × Result TryRecvError (Items P.Sender P.Receiver P.Memory)
  try_recv b ks received t = on_ok t received λ m.
      let (t', r) = to P b ks (opaque_message m) t in (t', map_err ipc_error (map_err bincode r))

  unfoldable pub selection : OsIpcSelectionResult P → IpcSelectionResult P
  selection (data_received id m) = message_received id (record {
    bytes = m.bytes;
    os_ipc_channels = m.channels;
    os_ipc_shared_memory_regions = map some m.regions;
  })
  selection (os_channel_closed id) = channel_closed id

  -- `IpcReceiverSet::select`
  unfoldable pub select :
      Result IoError (List (OsIpcSelectionResult P)) → Result IoError (List (IpcSelectionResult P))
  unfolding selection
  select received = received >>= λ results. ok (map selection results)

  -- `IpcSelectionResult::unwrap`
  unfoldable pub unwrap_selection : IpcSelectionResult P → Result IpcError (ℕ × OpaqueIpcMessage P)
  unwrap_selection (message_received id m) = ok (id, m)
  unwrap_selection (channel_closed id) = panic

  -- `IpcOneShotServer::accept`
  unfoldable pub accept :
      Bincode
      → List Kind
      → Result BincodeError (P.Receiver × Arrived P)
      → Tls P
      → Tls P × Result BincodeError (P.Receiver × Items P.Sender P.Receiver P.Memory)
  accept b ks accepted t = on_ok t accepted λ (os_receiver, m).
      let (t', r) =
        to P b ks
          (record {
            bytes = m.bytes;
            os_ipc_channels = m.channels;
            os_ipc_shared_memory_regions = map some m.regions;
          })
          t in
      (t', r >>= λ value. ok (os_receiver, value))

  -- `IpcBytesReceiver::recv` and `try_recv`
  unfoldable pub recv_bytes : {E : Type 0} → Result E (Arrived P) → Result E (List ℕ)
  recv_bytes received = received >>= λ m. ok m.bytes

  -- `IpcBytesSender::send`
  unfoldable pub send_bytes :
      (List ℕ → List (OsIpcChannel P.Sender P.Receiver) → List P.Memory → Result IoError (Unit {0}))
      → List ℕ
      → Result IoError (Unit {0})
  send_bytes os_send bytes = os_send bytes [] []
