-- ===== src/Windows/Message.antt =====
-- The framing of src/platform/windows/mod.rs: a pipe carries bytes, and a message in it is a header of
-- two lengths, the data, and the serialized out-of-band data (handles for the receiving process).
pub mod Framing
use ipc_channel.Base.{
  ℕ, ◌+◌, ◌*◌, ◌/◌, ◌%◌, ◌^◌, Bool, true, false, not, ◌||◌, Option, none, some, List, [], ◌∷◌, ◌++◌,
  ltb, ◌==◌, if◌then◌else◌, length, take, drop, slice, Result, panic, ok,
}
use ipc_channel.Windows.System.{WinError, System}

-- Two `u32`, eight bytes in memory.
pub record MessageHeader : Type 0 where
  pub data_len : ℕ
  pub oob_len : ℕ

abbrev pub header_size : ℕ
header_size = 8

-- The sum is below 2^34, so `usize` holds it.
unfoldable pub total_message_bytes_needed : MessageHeader → ℕ
total_message_bytes_needed h = header_size + h.data_len + h.oob_len

-- The bytes of a `u32`, lowest first, and back.
unfoldable pub u32_bytes : ℕ → List ℕ
u32_bytes n = n % 256 ∷ (n / 256) % 256 ∷ (n / 65536) % 256 ∷ (n / 16777216) % 256 ∷ []

unfoldable pub read_u32 : List ℕ → ℕ
read_u32 (a ∷ b ∷ c ∷ d ∷ _) = a + 256 * b + 65536 * c + 16777216 * d
read_u32 _ = 0

-- The header as memory, and memory as a header.
unfoldable pub header_bytes : MessageHeader → List ℕ
unfolding u32_bytes
header_bytes h = u32_bytes h.data_len ++ u32_bytes h.oob_len

unfoldable pub read_header : List ℕ → MessageHeader
unfolding read_u32
read_header bytes = record { data_len = read_u32 bytes; oob_len = read_u32 (drop 4 bytes) }

-- What `send` writes on the pipe at once: the lengths `as u32`, the data, the out-of-band data.
unfoldable pub full_message : List ℕ → List ℕ → List ℕ
unfolding header_bytes
full_message in_band oob =
    header_bytes (record { data_len = length in_band % 2 ^ 32; oob_len = length oob % 2 ^ 32 })
    ++ (in_band ++ oob)

pub record Message : Type 0 where
  pub data_len : ℕ
  pub oob_len : ℕ
  pub bytes : List ℕ

unfoldable pub from_bytes : List ℕ → Option Message
unfolding read_header total_message_bytes_needed
from_bytes bytes =
    if ltb (length bytes) header_size
    then none
    else (let header = read_header bytes in
        let total = total_message_bytes_needed header in
        if ltb (length bytes) total
        then none
        else some (record {
          data_len = header.data_len;
          oob_len = header.oob_len;
          bytes = take total bytes;
        }))

unfoldable pub message_data : Message → List ℕ
message_data m = slice header_size (header_size + m.data_len) m.bytes

unfoldable pub oob_bytes : Message → List ℕ
oob_bytes m = drop (header_size + m.data_len) m.bytes

unfoldable pub size : Message → ℕ
size m = header_size + m.data_len + m.oob_len

-- Handles are given as numbers, with a size where there is one.
pub record OutOfBandMessage : Type 0 where
  pub target_process_id : ℕ
  pub channel_handles : List ℕ
  pub shmem_handles : List (ℕ × ℕ)
  pub big_data_receiver_handle : Option (ℕ × ℕ)

unfoldable pub new_oob : ℕ → OutOfBandMessage
new_oob target_id = record {
  target_process_id = target_id;
  channel_handles = [];
  shmem_handles = [];
  big_data_receiver_handle = none;
}

abbrev pub is_empty {ℓ} : {A : Type ℓ} → List A → Bool
is_empty [] = true
is_empty (_ ∷ _) = false

abbrev pub is_some {ℓ} : {A : Type ℓ} → Option A → Bool
is_some none = false
is_some (some _) = true

unfoldable pub needs_to_be_sent : OutOfBandMessage → Bool
needs_to_be_sent m =
    not (is_empty m.channel_handles)
    || not (is_empty m.shmem_handles)
    || is_some m.big_data_receiver_handle

-- `Serialize` and `Deserialize`: through the tuple.
unfoldable pub serialize_oob : System → OutOfBandMessage → List ℕ
serialize_oob w m =
    w.serialize
      (m.target_process_id, m.channel_handles, m.shmem_handles, m.big_data_receiver_handle)

unfoldable pub deserialize_oob : System → List ℕ → Option OutOfBandMessage
deserialize_oob w bytes = elim (w.deserialize bytes) [
  | none ↦ none
  | some (target_process_id, channel_handles, shmem_handles, big_data_receiver_handle) ↦
      some (record {
        target_process_id = target_process_id;
        channel_handles = channel_handles;
        shmem_handles = shmem_handles;
        big_data_receiver_handle = big_data_receiver_handle;
      })
]

-- `oob_data`: bytes that do not decode, and handles for another process, panic.
unfoldable pub oob_data : System → Message → Result WinError (Option OutOfBandMessage)
unfolding deserialize_oob oob_bytes
oob_data w m =
    if ltb 0 m.oob_len
    then (elim (deserialize_oob w (oob_bytes m)) [
      | none ↦ panic
      | some oob ↦ if oob.target_process_id == w.current_process_id then ok (some oob) else panic
    ])
    else ok none
