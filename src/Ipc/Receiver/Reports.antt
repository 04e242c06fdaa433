-- ===== src/Ipc/Receiver/Reports.antt =====
-- What the receiving ends of src/ipc.rs report, and what they leave in the thread's tables.
use ipc_channel.Base.{
  ℕ, ◌≡◌, refl, ap, ◌∙◌, ◌≢◌, List, ◌∷◌, ◌++◌, map, map-append, Result, ◌>>=◌, map_err, on_ok, ok,
  err, panic, waits,
}
use ipc_channel.Errors.{BincodeError, IpcError, TryRecvError, bincode, ipc_error}
use ipc_channel.Ipc.Platform.{Platform, Bincode}
use ipc_channel.Ipc.Value.{Items, Kind}
use ipc_channel.Ipc.Tables.{Tls}
use ipc_channel.Ipc.Receiver.{
  Arrived, OsIpcSelectionResult, opaque_message, recv, try_recv, selection, select,
  unwrap_selection, accept, data_received, message_received,
}
use ipc_channel.Ipc.Message.{OpaqueIpcMessage, new, to}
use ipc_channel.Ipc.Message.Restore.{to_restores}

module _ (P : Platform) where
  -- The part that the receives share: a message is obtained, converted, and wrapped up.
  converted_restores :
      {E A W : Type 0} (b : Bincode) (ks : List Kind) (received : Result E A)
      (msg : A → OpaqueIpcMessage P)
      (wrap : A → Result BincodeError (Items P.Sender P.Receiver P.Memory) → Result E W) (t : Tls P)
      → ((a : A) → wrap a panic ≡ panic)
      → (on_ok t received (λ a. ((to P b ks (msg a) t).0, wrap a (to P b ks (msg a) t).1))).1
        ≢ panic
      → (on_ok t received (λ a. ((to P b ks (msg a) t).0, wrap a (to P b ks (msg a) t).1))).0 ≡ t
  converted_restores b ks (ok a) msg wrap t w h =
      to_restores P b ks (msg a) t (λ e. h (ap (wrap a) e ∙ w a))
  converted_restores b ks (err e) msg wrap t w h = refl
  converted_restores b ks panic msg wrap t w h = refl
  converted_restores b ks waits msg wrap t w h = refl

  -- A receive leaves the thread's tables as they were, unless it panics: without a message, with a
  -- message that cannot be converted, and with one that can; so do `try_recv` and `accept`.
  pub receive_restores :
      (b : Bincode) (ks : List Kind) (received : Result IpcError (Arrived P))
      (tried : Result TryRecvError (Arrived P))
      (accepted : Result BincodeError (P.Receiver × Arrived P)) (t : Tls P)
      → (recv P b ks received t).1 ≢ panic
      → (try_recv P b ks tried t).1 ≢ panic
      → (accept P b ks accepted t).1 ≢ panic
      → ((recv P b ks received t).0 ≡ t)
        × ((try_recv P b ks tried t).0 ≡ t)
        × ((accept P b ks accepted t).0 ≡ t)
  unfolding recv try_recv accept
  receive_restores b ks received tried accepted t h i j = (
    converted_restores b ks received _ (λ _. map_err bincode) t (λ _. refl) h,
    converted_restores b ks tried _ (λ _ r. map_err ipc_error (map_err bincode r)) t (λ _. refl) i,
    converted_restores b ks accepted _ (λ a r. r >>= λ value. ok (a.0, value)) t (λ _. refl) j,
  )

  -- A message that a receiver set reports is converted to the value, or the error, that the receiver
  -- itself would have given for it, with the same effect on the thread's tables.
  pub select-recv :
      (b : Bincode) (ks : List Kind) (id : ℕ) (m : Arrived P) (t : Tls P)
      (before after : List (OsIpcSelectionResult P))
      → (o : OpaqueIpcMessage P) × (select P (ok (before ++ (data_received id m ∷ after)))
          ≡ ok (map (selection P) before ++ (message_received id o ∷ map (selection P) after)))
        × (unwrap_selection P (message_received id o) ≡ ok (id, o))
        × ((to P b ks o t).0 ≡ (recv P b ks (ok m) t).0)
        × (map_err bincode (to P b ks o t).1 ≡ (recv P b ks (ok m) t).1)
  unfolding select selection unwrap_selection recv opaque_message new
  select-recv b ks id m t before after = (
    new P m.bytes m.channels m.regions,
    ap ok (map-append (selection P) before (data_received id m ∷ after)),
    refl,
    refl,
    refl,
  )
