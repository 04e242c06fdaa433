-- ===== src/Ipc/Message/RoundTrip.antt =====
-- A value through `IpcSender::send` and `OpaqueIpcMessage::to` of src/ipc.rs.
use ipc_channel.Base.{
  ℕ, suc, ◌≡◌, refl, ap, subst, ◌∙◌, Option, none, some, List, [], ◌∷◌, ◌++◌, map, ok, get_elem?,
  set, get_elem?-append, set-append, length,
}
use ipc_channel.Errors.{BincodeError}
use ipc_channel.Ipc.Platform.{Platform, sender_channel, receiver_channel, Bincode}
use ipc_channel.Ipc.Value.{Items, word, sender, receiver, memory, fails, sends, nil, cons, Kind}
use ipc_channel.Ipc.Tables.{
  Tls, deserialize_os_ipc_sender, deserialize_os_ipc_receiver, deserialize_memory,
}
use ipc_channel.Ipc.Send.{Outgoing, prepare}
use ipc_channel.Ipc.Send.Spec.{AllSound, channels_of, regions_of, words_of, visible, kinds_of}
use ipc_channel.Ipc.Send.Restore.{prepare_lem, grows}
use ipc_channel.Ipc.Message.{OpaqueIpcMessage, new, deserialize, deserialize_all, swap_in, read, to}

module _ (P : Platform) where
  abbrev Value : Type 0
  Value = Items P.Sender P.Receiver P.Memory

  -- The tables hold the value's handles from `c` and `m` on.
  record Waiting (t : Tls P) (c m : ℕ) (v : Value) : Type 0 where
    taken : List P.Opaque
    gone : List (Option P.Memory)
    channels_are : t.channels_for_deserialization ≡ taken ++ map P.opaque (channels_of v)
    regions_are : t.regions_for_deserialization ≡ gone ++ map some (regions_of v)
    channels_at : length taken ≡ c
    regions_at : length gone ≡ m

  -- The tables after a channel, or a region, has been taken.
  abbrev channel_taken : Tls P → List P.Opaque → P.Opaque → List P.Opaque → Tls P
  channel_taken t taken left rest = record t {
    channels_for_deserialization = (taken ++ (left ∷ [])) ++ rest;
  }

  abbrev region_taken : Tls P → List (Option P.Memory) → List (Option P.Memory) → Tls P
  region_taken t gone rest = record t {
    regions_for_deserialization = (gone ++ (none ∷ [])) ++ rest;
  }

  abbrev sender_left : P.Sender → P.Opaque
  sender_left s = (P.to_sender (P.opaque (sender_channel s))).1

  abbrev receiver_left : P.Receiver → P.Opaque
  receiver_left r = (P.to_receiver (P.opaque (receiver_channel r))).1

  sender_at :
      (t : Tls P) (n : ℕ) (taken rest : List P.Opaque) (s : P.Sender)
      → t.channels_for_deserialization ≡ taken ++ (P.opaque (sender_channel s) ∷ rest)
      → length taken ≡ n
      → deserialize_os_ipc_sender P n t ≡ (channel_taken t taken (sender_left s) rest, ok s)
  unfolding deserialize_os_ipc_sender
  sender_at t n taken rest s e h = rw (
    ap (λ xs. get_elem? xs n) e ∙ get_elem?-append taken _ rest n h,
    deserialize_os_ipc_sender,
    P.to_sender-opaque s,
    ap (λ xs. set xs n (sender_left s)) e ∙ set-append taken _ _ rest n h,
  )

  receiver_at :
      (t : Tls P) (n : ℕ) (taken rest : List P.Opaque) (r : P.Receiver)
      → t.channels_for_deserialization ≡ taken ++ (P.opaque (receiver_channel r) ∷ rest)
      → length taken ≡ n
      → deserialize_os_ipc_receiver P n t ≡ (channel_taken t taken (receiver_left r) rest, ok r)
  unfolding deserialize_os_ipc_receiver
  receiver_at t n taken rest r e h = rw (
    ap (λ xs. get_elem? xs n) e ∙ get_elem?-append taken _ rest n h,
    deserialize_os_ipc_receiver,
    P.to_receiver-opaque r,
    ap (λ xs. set xs n (receiver_left r)) e ∙ set-append taken _ _ rest n h,
  )

  memory_at :
      (t : Tls P) (n : ℕ) (gone rest : List (Option P.Memory)) (m : P.Memory)
      → t.regions_for_deserialization ≡ gone ++ (some m ∷ rest)
      → length gone ≡ n
      → deserialize_memory P n t ≡ (region_taken t gone rest, ok m)
  unfolding deserialize_memory
  memory_at t n gone rest m e h = rw (
    ap (λ xs. get_elem? xs n) e ∙ get_elem?-append gone _ rest n h,
    deserialize_memory,
    ap (λ xs. set xs n none) e ∙ set-append gone _ _ rest n h,
  )

  deserialize_all-words_of :
      (eof : BincodeError) (v : Value) (c m : ℕ) (t : Tls P)
      → AllSound v
      → Waiting t c m v
      → (deserialize_all P eof (kinds_of v) (words_of c m v) t).1 ≡ ok (visible v)
  unfolding deserialize_all deserialize
  deserialize_all-words_of eof nil c m t h w = refl
  deserialize_all-words_of eof (cons (word n) xs) c m t h w =
      let rest : Waiting t c m xs = record {
        taken = w.taken;
        gone = w.gone;
        channels_are = w.channels_are;
        regions_are = w.regions_are;
        channels_at = w.channels_at;
        regions_at = w.regions_at;
      } in
      rw (deserialize_all-words_of eof xs c m t h.1 rest)
  deserialize_all-words_of eof (cons (sender s) xs) c m t h w = rw (
    sender_at t c w.taken (map P.opaque (channels_of xs)) s w.channels_are w.channels_at,
    deserialize_all-words_of eof xs (suc c) m
        (channel_taken t w.taken (sender_left s) (map P.opaque (channels_of xs))) h.1
        (record {
          taken = w.taken ++ (sender_left s ∷ []);
          gone = w.gone;
          channels_are = refl;
          regions_are = w.regions_are;
          channels_at = grows w.taken _ ∙ ap suc w.channels_at;
          regions_at = w.regions_at;
        }),
  )
  deserialize_all-words_of eof (cons (receiver r) xs) c m t h w = rw (
    receiver_at t c w.taken (map P.opaque (channels_of xs)) r w.channels_are w.channels_at,
    deserialize_all-words_of eof xs (suc c) m
        (channel_taken t w.taken (receiver_left r) (map P.opaque (channels_of xs))) h.1
        (record {
          taken = w.taken ++ (receiver_left r ∷ []);
          gone = w.gone;
          channels_are = refl;
          regions_are = w.regions_are;
          channels_at = grows w.taken _ ∙ ap suc w.channels_at;
          regions_at = w.regions_at;
        }),
  )
  deserialize_all-words_of eof (cons (memory x) xs) c m t h w = rw (
    memory_at t m w.gone (map some (regions_of xs)) x w.regions_are w.regions_at,
    deserialize_all-words_of eof xs c (suc m) (region_taken t w.gone (map some (regions_of xs))) h.1
        (record {
          taken = w.taken;
          gone = w.gone ++ (none ∷ []);
          channels_are = w.channels_are;
          regions_are = refl;
          channels_at = w.channels_at;
          regions_at = grows w.gone _ ∙ ap suc w.regions_at;
        }),
  )
  deserialize_all-words_of eof (cons (fails e) xs) c m t h w = absurd h.0
  deserialize_all-words_of eof (cons (sends y) xs) c m t h w =
      let rest : Waiting t c m xs = record {
        taken = w.taken;
        gone = w.gone;
        channels_are = w.channels_are;
        regions_are = w.regions_are;
        channels_at = w.channels_at;
        regions_at = w.regions_at;
      } in
      deserialize_all-words_of eof xs c m t h.1 rest

  read-encode :
      (b : Bincode) (ks : List Kind) (ws : List ℕ) (t : Tls P)
      → (read P b ks (b.encode ws) t).1 ≡ (deserialize_all P b.end_of_input ks ws t).1
  unfolding read
  read-encode b ks ws t = rw (b.decode-encode ws, read)

  to-read :
      (b : Bincode) (ks : List Kind) (m : OpaqueIpcMessage P) (t : Tls P) (v : Value)
      → (read P b ks m.bytes (swap_in P m t)).1 ≡ ok v
      → (to P b ks m t).1 ≡ ok v
  unfolding to
  to-read b ks m t v e = rw (e, to)

  -- For a value whose implementations do not fail: what `send` hands to the platform, `to` converts
  -- back to the value, less what the value sent on the way: each handle comes out where it went in,
  -- and as what it was.
  pub to-prepare :
      (b : Bincode) (v : Items P.Sender P.Receiver P.Memory) (t t' : Tls P) (o : Outgoing P)
      → AllSound v
      → (prepare P v t).1 ≡ ok o
      → (to P b (kinds_of v) (new P (b.encode o.words) (map P.opaque o.channels) o.regions) t').1
        ≡ ok (visible v)
  unfolding swap_in new
  to-prepare b v t t' o h e =
      subst
        (λ q.
          (to P b (kinds_of v) (new P (b.encode q.words) (map P.opaque q.channels) q.regions) t').1
          ≡ ok (visible v))
        sent
        (to-read b (kinds_of v)
          (new P (b.encode (words_of 0 0 v)) (map P.opaque (channels_of v)) (regions_of v)) t'
          (visible v) (read-encode b (kinds_of v) (words_of 0 0 v) arrived ∙ back))
    where
      sent : record { words = words_of 0 0 v; channels = channels_of v; regions = regions_of v } ≡ o
      sent = cc (ap (λ x. x.1) (prepare_lem P v t h), e)

      arrived : Tls P
      arrived = swap_in P (new P [] (map P.opaque (channels_of v)) (regions_of v)) t'

      back :
          (deserialize_all P b.end_of_input (kinds_of v) (words_of 0 0 v) arrived).1
          ≡ ok (visible v)
      back = deserialize_all-words_of b.end_of_input v 0 0 arrived h (record {
        taken = [];
        gone = [];
        channels_are = refl;
        regions_are = refl;
        channels_at = refl;
        regions_at = refl;
      })
