-- ===== src/Ipc/Send/Restore.antt =====
-- What `IpcSender::send` of src/ipc.rs hands over, and what it leaves in the thread's tables.
use ipc_channel.Base.{
  ℕ, suc, ◌≡◌, List, [], ◌∷◌, ◌++◌, append-nil, append_assoc, Result, ok, arith, length,
  length-append,
}
use ipc_channel.Errors.{BincodeError}
use ipc_channel.Ipc.Platform.{Platform, OsIpcChannel, sender_channel, receiver_channel, Bincode}
use ipc_channel.Ipc.Value.{Items, word, sender, receiver, memory, fails, sends, nil, cons}
use ipc_channel.Ipc.Tables.{Tls}
use ipc_channel.Ipc.Send.{begin, finish, serialize_all, prepare, send}
use ipc_channel.Ipc.Send.Spec.{AllSound, channels_of, regions_of, words_of}

pub grows {ℓ} : {A : Type ℓ} (xs : List A) (x : A) → length (xs ++ (x ∷ [])) ≡ suc (length xs)
grows xs x = omega (arith, length-append xs (x ∷ []))

module _ (P : Platform) where
  abbrev pub Value : Type 0
  Value = Items P.Sender P.Receiver P.Memory

  -- The tables with more handles behind those that are in them.
  abbrev pub pushed : Tls P → Value → Tls P
  pushed t v = record t {
    channels_for_serialization = t.channels_for_serialization ++ channels_of v;
    regions_for_serialization = t.regions_for_serialization ++ regions_of v;
  }

  abbrev pub words_at : Tls P → Value → List ℕ
  words_at t v =
      words_of (length t.channels_for_serialization) (length t.regions_for_serialization) v

  pub serialize_all_lem :
      (v : Value) (t : Tls P) → AllSound v → serialize_all P v t ≡ (pushed t v, ok (words_at t v))
  unfolding serialize_all begin finish
  serialize_all_lem nil t h =
      rw (append-nil t.channels_for_serialization, append-nil t.regions_for_serialization)
  serialize_all_lem (cons (word n) xs) t h = rw (serialize_all_lem xs t h.1)
  serialize_all_lem (cons (sender s) xs) t h = rw (
    serialize_all_lem xs _ h.1,
    append_assoc t.channels_for_serialization (sender_channel s ∷ []) (channels_of xs),
    grows t.channels_for_serialization (sender_channel s),
  )
  serialize_all_lem (cons (receiver r) xs) t h = rw (
    serialize_all_lem xs _ h.1,
    append_assoc t.channels_for_serialization (receiver_channel r ∷ []) (channels_of xs),
    grows t.channels_for_serialization (receiver_channel r),
  )
  serialize_all_lem (cons (memory m) xs) t h = rw (
    serialize_all_lem xs _ h.1,
    append_assoc t.regions_for_serialization (m ∷ []) (regions_of xs),
    grows t.regions_for_serialization m,
  )
  serialize_all_lem (cons (fails e) xs) t h = absurd h.0
  serialize_all_lem (cons (sends v) xs) t h =
      rw (serialize_all_lem v (begin P t) h.0, serialize_all_lem xs t h.1)

  pub prepare_lem :
      (v : Value) (t : Tls P)
      → AllSound v
      → prepare P v t ≡ (
        t,
        ok (record { words = words_of 0 0 v; channels = channels_of v; regions = regions_of v }),
      )
  unfolding prepare begin finish
  prepare_lem v t h = rw (serialize_all_lem v (begin P t) h)

  -- A send of a value whose implementations do not fail hands over the value's handles, in their
  -- order, and their indices among them; and the thread's tables are afterwards as they were, also
  -- where the value itself sent messages on the way.
  pub send_lem :
      (b : Bincode)
      (os_send : List ℕ
        → List (OsIpcChannel P.Sender P.Receiver)
        → List P.Memory
        → Result BincodeError (Unit {0}))
      (v : Items P.Sender P.Receiver P.Memory) (t : Tls P)
      → AllSound v
      → send P b os_send v t
        ≡ (t, os_send (b.encode (words_of 0 0 v)) (channels_of v) (regions_of v))
  unfolding send
  send_lem b os_send v t h = rw (prepare_lem v t h)
