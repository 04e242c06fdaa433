-- ===== src/Ipc/Send/Leak.antt =====
-- What `IpcSender::send` of src/ipc.rs leaves behind when serialization fails: `?` returns before the
-- tables from before are put back.
use ipc_channel.Base.{◌≡◌, List, [], ◌∷◌, ◌++◌, append-nil, append_assoc, ok, err, length}
use ipc_channel.Errors.{BincodeError}
use ipc_channel.Ipc.Platform.{Platform, OsIpcChannel, sender_channel, receiver_channel}
use ipc_channel.Ipc.Value.{Items, word, sender, receiver, memory, fails, sends, nil, cons}
use ipc_channel.Ipc.Tables.{Tls, serialize_os_ipc_sender}
use ipc_channel.Ipc.Send.{begin, finish, serialize_all, prepare}
use ipc_channel.Ipc.Send.Spec.{AllSound, channels_of, regions_of}
use ipc_channel.Ipc.Send.Restore.{serialize_all_lem}

module _ {S R M : Type 0} where
  abbrev pub append : Items S R M → Items S R M → Items S R M
  append nil ys = ys
  append (cons x xs) ys = cons x (append xs ys)

module _ (P : Platform) where
  abbrev Value : Type 0
  Value = Items P.Sender P.Receiver P.Memory

  abbrev with_tables : Tls P → List (OsIpcChannel P.Sender P.Receiver) → List P.Memory → Tls P
  with_tables t cs ms = record t { channels_for_serialization = cs; regions_for_serialization = ms }

  serialize_fails :
      (v rest : Value) (e : BincodeError) (t : Tls P)
      → AllSound v
      → serialize_all P (append v (cons (fails e) rest)) t ≡ (
        with_tables t
            (t.channels_for_serialization ++ channels_of v)
            (t.regions_for_serialization ++ regions_of v),
        err e,
      )
  unfolding serialize_all begin finish
  serialize_fails nil rest e t h =
      rw (append-nil t.channels_for_serialization, append-nil t.regions_for_serialization)
  serialize_fails (cons (word n) xs) rest e t h = rw (serialize_fails xs rest e t h.1)
  serialize_fails (cons (sender s) xs) rest e t h = rw (
    serialize_fails xs rest e _ h.1,
    append_assoc t.channels_for_serialization (sender_channel s ∷ []) (channels_of xs),
  )
  serialize_fails (cons (receiver r) xs) rest e t h = rw (
    serialize_fails xs rest e _ h.1,
    append_assoc t.channels_for_serialization (receiver_channel r ∷ []) (channels_of xs),
  )
  serialize_fails (cons (memory m) xs) rest e t h = rw (
    serialize_fails xs rest e _ h.1,
    append_assoc t.regions_for_serialization (m ∷ []) (regions_of xs),
  )
  serialize_fails (cons (fails x) xs) rest e t h = absurd h.0
  serialize_fails (cons (sends v) xs) rest e t h =
      rw (serialize_all_lem P v (begin P t) h.0, serialize_fails xs rest e t h.1)

  -- A send whose value fails to serialize leaves in the thread's tables the handles that it got to,
  -- and drops the ones that were there.
  pub prepare_fails :
      (v rest : Items P.Sender P.Receiver P.Memory) (e : BincodeError) (t : Tls P)
      → AllSound v
      → prepare P (append v (cons (fails e) rest)) t ≡ (
        record t {
          channels_for_serialization = channels_of v;
          regions_for_serialization = regions_of v;
        },
        err e,
      )
  unfolding prepare begin finish
  prepare_fails v rest e t h = rw (serialize_fails v rest e (begin P t) h)

  -- So a value that sends another one on the way, and goes on when that fails, loses a sender that it
  -- has already serialized: the message goes out with index 0 for it, and without it in the table.
  pub failed_send_loses_sender :
      (a b : P.Sender) (v rest : Items P.Sender P.Receiver P.Memory) (e : BincodeError) (t : Tls P)
      → AllSound v
      → (prepare P
          (cons (sender a) (cons (sends (append v (cons (fails e) rest))) (cons (sender b) nil)))
          t).1
        ≡ ok (record {
          words = 0 ∷ length (channels_of v) ∷ [];
          channels = channels_of v ++ (sender_channel b ∷ []);
          regions = regions_of v;
        })
  unfolding prepare begin finish serialize_os_ipc_sender
  failed_send_loses_sender a b v rest e t h = rw (serialize_fails v rest e _ h)
