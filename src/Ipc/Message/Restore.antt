-- ===== src/Ipc/Message/Restore.antt =====
-- What `OpaqueIpcMessage::to` of src/ipc.rs leaves in the thread's tables.
use ipc_channel.Base.{
  ℕ, ◌≡◌, ◌≢◌, refl, ◌∙◌, inl, inr, Option-cases, List, [], ◌∷◌, Result, ok, err, panic, waits,
  on_ok_keeps, arith,
}
use ipc_channel.Errors.{BincodeError}
use ipc_channel.Ipc.Platform.{Platform, Bincode}
use ipc_channel.Ipc.Value.{Items, Kind, a_word, a_sender, a_receiver, a_memory}
use ipc_channel.Ipc.Tables.{
  Tls, deserialize_os_ipc_sender, deserialize_os_ipc_receiver, deserialize_memory,
}
use ipc_channel.Ipc.Message.{
  OpaqueIpcMessage, deserialize, deserialize_all, swap_in, swap_out, read, to,
}

module _ (P : Platform) where
  -- The tables for serialization are as in `t`.
  abbrev Keeps : Tls P → Tls P → Type 0
  Keeps t t' =
      (t'.channels_for_serialization ≡ t.channels_for_serialization)
      × (t'.regions_for_serialization ≡ t.regions_for_serialization)

  deserialize-Keeps : (k : Kind) (n : ℕ) (t : Tls P) → Keeps t (deserialize P k n t).0
  unfolding deserialize deserialize_os_ipc_sender deserialize_os_ipc_receiver deserialize_memory
  deserialize-Keeps a_word n t = (refl, refl)
  deserialize-Keeps a_sender n t = ground arith
  deserialize-Keeps a_receiver n t = ground arith
  deserialize-Keeps a_memory n t = ground arith

  deserialize_all-Keeps :
      (eof : BincodeError) (ks : List Kind) (ws : List ℕ) (t : Tls P)
      → Keeps t (deserialize_all P eof ks ws t).0
  unfolding deserialize_all
  deserialize_all-Keeps eof [] ws t = (refl, refl)
  deserialize_all-Keeps eof (k ∷ ks) [] t = (refl, refl)
  deserialize_all-Keeps eof (k ∷ ks) (w ∷ ws) t =
      let first = deserialize-Keeps k w t in
      let next = deserialize_all-Keeps eof ks ws (deserialize P k w t).0 in
      on_ok_keeps (Keeps t) _ (deserialize P k w t).1 _ first
        (λ x. (next.0 ∙ first.0, next.1 ∙ first.1))

  read-Keeps :
      (b : Bincode) (ks : List Kind) (bytes : List ℕ) (t : Tls P) → Keeps t (read P b ks bytes t).0
  unfolding read
  read-Keeps b ks bytes t = elim (Option-cases (b.decode bytes)) [
    | inl e ↦ rw (e, read) (refl, refl)
    | inr (ws, e) ↦ rw (e, read) (deserialize_all-Keeps b.end_of_input ks ws t)
  ]

  swapped : (m : OpaqueIpcMessage P) (t t' : Tls P) → Keeps (swap_in P m t) t' → swap_out P t t' ≡ t
  unfolding swap_in swap_out
  swapped m t t' h = ground arith

  -- Whatever it converts, with success or with an error, `to` leaves the thread's tables as they were.
  pub to_restores :
      (b : Bincode) (ks : List Kind) (m : OpaqueIpcMessage P) (t : Tls P)
      → (to P b ks m t).1 ≢ panic
      → (to P b ks m t).0 ≡ t
  unfolding to
  to_restores b ks m t = go (read P b ks m.bytes (swap_in P m t)).1 refl
    where
      back : swap_out P t (read P b ks m.bytes (swap_in P m t)).0 ≡ t
      back = swapped m t _ (read-Keeps b ks m.bytes (swap_in P m t))

      go :
          (r : Result BincodeError (Items P.Sender P.Receiver P.Memory))
          → (read P b ks m.bytes (swap_in P m t)).1 ≡ r
          → (to P b ks m t).1 ≢ panic
          → (to P b ks m t).0 ≡ t
      go (ok v) e h = rw (e, to) back
      go (err x) e h = rw (e, to) back
      go panic e h = absurd (h (rw (e, to)))
      go waits e h = rw (e, to) back
