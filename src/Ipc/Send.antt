-- ===== src/Ipc/Send.antt =====
-- `IpcSender::send` of src/ipc.rs: the value is serialized with fresh tables, which the message takes,
-- and the tables of a send that is under way further out come back.
pub mod Spec
pub mod Restore
pub mod Leak
use ipc_channel.Base.{ℕ, ◌≡◌, List, [], ◌∷◌, ◌++◌, Result, ok, err, panic, waits, ◌>>=◌, on_ok}
use ipc_channel.Errors.{BincodeError}
use ipc_channel.Ipc.Platform.{Platform, OsIpcChannel, Bincode}
use ipc_channel.Ipc.Value.{Item, Items, word, sender, receiver, memory, fails, sends, nil, cons}
use ipc_channel.Ipc.Tables.{
  Tls, serialize_os_ipc_sender, serialize_os_ipc_receiver, serialize_memory,
}

-- What the platform is handed.
pub record Outgoing (P : Platform) : Type 0 where
  pub words : List ℕ
  pub channels : List (OsIpcChannel P.Sender P.Receiver)
  pub regions : List P.Memory

module _ (P : Platform) where
  -- `mem::replace` of both tables by empty ones.
  unfoldable pub begin : Tls P → Tls P
  begin t = record t { channels_for_serialization = []; regions_for_serialization = [] }

  -- After `serialize_into`: on an error `?` returns at once; else the tables are taken, and those from
  -- before put back.
  unfoldable pub finish :
      Tls P → Tls P × Result BincodeError (List ℕ) → Tls P × Result BincodeError (Outgoing P)
  finish old (t, r) = on_ok t r λ words. (
    record t {
      channels_for_serialization = old.channels_for_serialization;
      regions_for_serialization = old.regions_for_serialization;
    },
    ok (record {
      words = words;
      channels = t.channels_for_serialization;
      regions = t.regions_for_serialization;
    }),
  )

  unfoldable mutual
    unfolding begin finish serialize_os_ipc_sender serialize_os_ipc_receiver serialize_memory

    -- The numbers that the implementation hands to bincode, if it succeeds.
    pub serialize : Item P.Sender P.Receiver P.Memory → Tls P → Tls P × Result BincodeError (List ℕ)
    serialize (word n) t = (t, ok (n ∷ []))
    serialize (sender s) t =
        let (t', index) = serialize_os_ipc_sender P s t in (t', ok (index ∷ []))
    serialize (receiver r) t =
        let (t', index) = serialize_os_ipc_receiver P r t in (t', ok (index ∷ []))
    serialize (memory m) t = let (t', index) = serialize_memory P m t in (t', ok (index ∷ []))
    serialize (fails e) t = (t, err e)
    serialize (sends v) t = ((finish t (serialize_all v (begin t))).0, ok [])

    pub serialize_all :
        Items P.Sender P.Receiver P.Memory → Tls P → Tls P × Result BincodeError (List ℕ)
    serialize_all nil t = (t, ok [])
    serialize_all (cons x xs) t =
        let (t', r) = serialize x t in
        on_ok t' r λ ws. let (t'', r') = serialize_all xs t' in (t'', r' >>= λ ws'. ok (ws ++ ws'))

  unfoldable pub prepare :
      Items P.Sender P.Receiver P.Memory → Tls P → Tls P × Result BincodeError (Outgoing P)
  unfolding serialize_all
  prepare v t = finish t (serialize_all v (begin t))

  -- `IpcSender::send`, over the platform's `send` with its error as bincode's.
  unfoldable pub send :
      Bincode
      → (List ℕ
          → List (OsIpcChannel P.Sender P.Receiver)
          → List P.Memory
          → Result BincodeError (Unit {0}))
      → Items P.Sender P.Receiver P.Memory
      → Tls P
      → Tls P × Result BincodeError (Unit {0})
  unfolding prepare
  send b os_send v t =
      let (t', r) = prepare v t in
      on_ok t' r λ o. (t', os_send (b.encode o.words) o.channels o.regions)
