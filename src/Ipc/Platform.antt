-- ===== src/Ipc/Platform.antt =====
-- What src/ipc.rs takes from the platform below it, for the handles in a message, and from bincode.
use ipc_channel.Base.{ℕ, ◌≡◌, Option, some, List, Result, ok}
use ipc_channel.Errors.{BincodeError}

-- `platform::OsIpcChannel`, over the platform's senders and receivers.
pub data OsIpcChannel (S R : Type 0) : Type 0 where
  sender_channel : S → OsIpcChannel S R
  receiver_channel : R → OsIpcChannel S R

-- The handles, and the conversions of a channel that has arrived. `opaque` is what the transport
-- makes of a channel on the way. A conversion that does not fit, or is not the first, panics.
pub record Platform : Type 1 where
  pub Sender : Type 0
  pub Receiver : Type 0
  pub Memory : Type 0
  pub Opaque : Type 0
  pub opaque : OsIpcChannel Sender Receiver → Opaque
  pub to_sender : Opaque → Result BincodeError Sender × Opaque
  pub to_receiver : Opaque → Result BincodeError Receiver × Opaque
  pub to_sender-opaque : (s : Sender) → (to_sender (opaque (sender_channel s))).0 ≡ ok s
  pub to_receiver-opaque : (r : Receiver) → (to_receiver (opaque (receiver_channel r))).0 ≡ ok r

-- bincode's encoding of the numbers that a `Serialize` implementation hands it, in their order.
pub record Bincode : Type 0 where
  pub encode : List ℕ → List ℕ
  pub decode : List ℕ → Option (List ℕ)
  pub end_of_input : BincodeError
  pub decode-encode : (ws : List ℕ) → decode (encode ws) ≡ some ws
