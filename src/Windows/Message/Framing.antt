-- ===== src/Windows/Message/Framing.antt =====
-- What `Message::from_bytes` makes of the bytes of a frame: nothing before the frame is there in full,
-- and the message as soon as it is.
use ipc_channel.Base.{
  ℕ, ◌+◌, ◌%◌, ◌^◌, ◌≤◌, ◌<◌, ◌≡◌, refl, sym, ap, ◌∙◌, inl, inr, none, some, List, [], ◌∷◌, ◌++◌,
  append_assoc, arith, ltb, lt→ltb, ltb-false, ltb-false→le, Bool-cases, length, take,
  length-append, take-append, drop-append,
}
use ipc_channel.Windows.Message.{
  MessageHeader, Message, header_size, total_message_bytes_needed, u32_bytes, read_u32,
  header_bytes, read_header, full_message, from_bytes, message_data, oob_bytes,
}

-- A `u32` is read back from its bytes, whatever follows.
pub read_u32-bytes : (n : ℕ) (rest : List ℕ) → n < 2 ^ 32 → read_u32 (u32_bytes n ++ rest) ≡ n
unfolding read_u32 u32_bytes
read_u32-bytes n rest h = omega arith

pub read_header-bytes :
    (h : MessageHeader) (rest : List ℕ)
    → h.data_len < 2 ^ 32
    → h.oob_len < 2 ^ 32
    → read_header (header_bytes h ++ rest) ≡ h
unfolding read_header header_bytes u32_bytes read_u32
read_header-bytes h rest d o =
    let e : read_u32 (u32_bytes h.data_len ++ (u32_bytes h.oob_len ++ rest)) ≡ h.data_len =
      read_u32-bytes h.data_len (u32_bytes h.oob_len ++ rest) d in
    let f : read_u32 (u32_bytes h.oob_len ++ rest) ≡ h.oob_len = read_u32-bytes h.oob_len rest o in
    ap (λ n. the n (read_u32 (u32_bytes h.oob_len ++ rest))) e ∙ ap (the h.data_len) f
  where
    the : ℕ → ℕ → MessageHeader
    the a b = record { data_len = a; oob_len = b }

-- A header does not depend on what follows it.
pub read_header-append :
    (bytes more : List ℕ)
    → header_size ≤ length bytes
    → read_header (bytes ++ more) ≡ read_header bytes
unfolding read_header read_u32
read_header-append (a ∷ b ∷ c ∷ d ∷ e ∷ f ∷ g ∷ h ∷ bytes) more k = refl
read_header-append [] more k = absurd (omega arith)
read_header-append (a ∷ []) more k = absurd (omega arith)
read_header-append (a ∷ b ∷ []) more k = absurd (omega arith)
read_header-append (a ∷ b ∷ c ∷ []) more k = absurd (omega arith)
read_header-append (a ∷ b ∷ c ∷ d ∷ []) more k = absurd (omega arith)
read_header-append (a ∷ b ∷ c ∷ d ∷ e ∷ []) more k = absurd (omega arith)
read_header-append (a ∷ b ∷ c ∷ d ∷ e ∷ f ∷ []) more k = absurd (omega arith)
read_header-append (a ∷ b ∷ c ∷ d ∷ e ∷ f ∷ g ∷ []) more k = absurd (omega arith)

-- The bytes of a message carry lengths that fit the header.
pub record Fits (in_band oob : List ℕ) : Type 0 where
  pub data_fits : length in_band < 2 ^ 32
  pub oob_fits : length oob < 2 ^ 32

abbrev pub header_of : List ℕ → List ℕ → MessageHeader
header_of in_band oob = record { data_len = length in_band; oob_len = length oob }

-- What is read from the bytes of a frame.
abbrev pub framed : List ℕ → List ℕ → Message
framed in_band oob = record {
  data_len = length in_band;
  oob_len = length oob;
  bytes = full_message in_band oob;
}

pub length-full_message :
    (in_band oob : List ℕ)
    → length (full_message in_band oob) ≡ header_size + length in_band + length oob
unfolding full_message header_bytes u32_bytes
length-full_message in_band oob = omega (arith, length-append in_band oob)

cut : MessageHeader → List ℕ → Message
cut h bytes = record {
  data_len = h.data_len;
  oob_len = h.oob_len;
  bytes = take (total_message_bytes_needed h) bytes;
}

-- The two ways that `from_bytes` ends, by the header at the start of the buffer.
from_bytes_whole :
    (bytes : List ℕ)
    → total_message_bytes_needed (read_header bytes) ≤ length bytes
    → from_bytes bytes ≡ some (cut (read_header bytes) bytes)
unfolding from_bytes total_message_bytes_needed cut
from_bytes_whole bytes k =
    rw
      (
        ltb-false (length bytes) header_size (omega arith),
        ltb-false (length bytes) (total_message_bytes_needed (read_header bytes)) k,
      )
      refl

from_bytes_short :
    (bytes : List ℕ)
    → (header_size ≤ length bytes → length bytes < total_message_bytes_needed (read_header bytes))
    → from_bytes bytes ≡ none
unfolding from_bytes
from_bytes_short bytes k = elim (Bool-cases (ltb (length bytes) header_size)) [
  | inl short ↦ rw short refl
  | inr long ↦
      rw
        (
          long,
          lt→ltb (length bytes) (total_message_bytes_needed (read_header bytes))
              (k (ltb-false→le (length bytes) header_size long)),
        )
        refl
]

full_message_header :
    (in_band oob rest : List ℕ)
    → Fits in_band oob
    → read_header (full_message in_band oob ++ rest) ≡ header_of in_band oob
unfolding full_message
full_message_header in_band oob rest f =
    ap read_header (append_assoc (header_bytes the_header) (in_band ++ oob) rest)
    ∙ read_header-bytes the_header ((in_band ++ oob) ++ rest) (omega arith) (omega arith)
    ∙ ap (λ n. record { data_len = n; oob_len = length oob % 2 ^ 32 }) (omega arith)
    ∙ ap (λ n. record { data_len = length in_band; oob_len = n }) (omega arith)
  where
    the_header : MessageHeader
    the_header = record { data_len = length in_band % 2 ^ 32; oob_len = length oob % 2 ^ 32 }

-- As soon as a whole frame is in the buffer, it is found, whatever follows.
pub from_bytes-full_message :
    (in_band oob rest : List ℕ)
    → Fits in_band oob
    → from_bytes (full_message in_band oob ++ rest) ≡ some (framed in_band oob)
unfolding total_message_bytes_needed cut
from_bytes-full_message in_band oob rest f =
    let e = full_message_header in_band oob rest f in
    from_bytes_whole (full_message in_band oob ++ rest) (
      rw e (
        omega
          (arith, length-append (full_message in_band oob) rest, length-full_message in_band oob)))
    ∙ ap (λ h. some (cut h (full_message in_band oob ++ rest))) e
    ∙ ap (λ bs. some (record { data_len = length in_band; oob_len = length oob; bytes = bs }))
        (take-append (header_size + length in_band + length oob) (full_message in_band oob) rest
          (length-full_message in_band oob))

-- As long as a part of the frame is missing, no message is found.
pub from_bytes_partial :
    (bytes more in_band oob rest : List ℕ)
    → Fits in_band oob
    → bytes ++ more ≡ full_message in_band oob ++ rest
    → length bytes < length (full_message in_band oob)
    → from_bytes bytes ≡ none
unfolding total_message_bytes_needed
from_bytes_partial bytes more in_band oob rest f e k = from_bytes_short bytes λ long.
    rw
      (sym (read_header-append bytes more long)
        ∙ ap read_header e
        ∙ full_message_header in_band oob rest f)
      (omega (arith, length-full_message in_band oob))

pub message_data-framed : (in_band oob : List ℕ) → message_data (framed in_band oob) ≡ in_band
unfolding message_data full_message header_bytes u32_bytes
message_data-framed in_band oob =
    ap (λ n. take n (in_band ++ oob)) (omega arith) ∙ take-append (length in_band) in_band oob refl

pub oob_bytes-framed : (in_band oob : List ℕ) → oob_bytes (framed in_band oob) ≡ oob
unfolding oob_bytes full_message header_bytes u32_bytes
oob_bytes-framed in_band oob =
    drop-append (header_size + length in_band)
      (header_bytes (record { data_len = length in_band % 2 ^ 32; oob_len = length oob % 2 ^ 32 })
        ++ in_band)
      oob (omega arith)
