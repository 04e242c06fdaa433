-- ===== src/Windows/Tests/Readers.antt =====
-- Readers and receivers on their own: with a read in progress, with a part of a message, with a message
-- that cannot be opened.
use ipc_channel.Base.{ℕ, ◌≡◌, refl, inl, true, none, some, List, [], ◌∷◌, arith, length, ok}
use ipc_channel.Windows.System.{nonblocking}
use ipc_channel.Windows.Handle.{WinHandle}
use ipc_channel.Windows.Message.{u32_bytes, header_bytes, full_message}
use ipc_channel.Windows.Reader.{
  Vec, MessageReader, Overlapped, empty_vec, reserve, room, reserve_if_full, drop_reader, read_true,
  read_false, cancel_true, wait_true,
}
use ipc_channel.Windows.Reader.Invariant.{IsValid}
use ipc_channel.Windows.Reader.Release.{drop_reader-releases}
use ipc_channel.Windows.Receiver.{
  OsIpcReceiver, Turn, Received, Dedicated, receive_message, prepare_for_transfer, consume,
}
use ipc_channel.Windows.Receiver.Framing.{idle_reader}
use ipc_channel.Windows.Receiver.Reassembly.{
  Delivers, Receives, receive_loop-Receives, nothing, chunk,
}
use ipc_channel.Windows.Receiver.Transfer.{prepare_for_transfer-consume}
use ipc_channel.Windows.Receiver.Invariant.{receive_message-IsValid}
use ipc_channel.Windows.RoundTrip.{opened-data}
use ipc_channel.Windows.Tests.Codecs.{process}

abbrev pipe : WinHandle
pipe = record { h = 5 }

abbrev chunk_of : List ℕ → Overlapped
chunk_of bytes = record { internal_high = length bytes; offset = 0; written = bytes }

abbrev turn_of : List ℕ → Turn
turn_of bytes = record { read = read_true; answers = wait_true (chunk_of bytes) ∷ [] }

-- The first half of an empty message is in the buffer, which is then read on.
abbrev half_full : Vec
half_full = record { bytes = 0 ∷ 0 ∷ 0 ∷ 0 ∷ []; capacity = 16 }

abbrev second_half : List ℕ
second_half = 0 ∷ 0 ∷ 0 ∷ 0 ∷ []

abbrev empty_message : Received
empty_message = record { bytes = []; channels = []; regions = [] }

receive_loop-Receives_example :
    Receives
      (process 1)
      (λ h. [])
      nonblocking
      (turn_of second_half ∷ [])
      pipe
      half_full
      none
      (full_message [] [])
      second_half
      empty_message
unfolding full_message header_bytes u32_bytes room reserve_if_full reserve
receive_loop-Receives_example =
    receive_loop-Receives (process 1) (λ h. []) nonblocking (turn_of second_half ∷ []) pipe
      half_full none second_half [] [] [] empty_message (chunk delivers nothing) (omega arith)
      (record { data_fits = omega arith; oob_fits = omega arith })
      (opened-data (process 1) (λ h. []) []) refl
  where
    delivers : Delivers (process 1) half_full (turn_of second_half) second_half
    delivers = record { started = inl refl; later = []; answered = refl; fits = omega arith }

receive_message-IsValid_example :
    IsValid
      (process 1)
      (receive_message
        (process 1)
        (λ h. [])
        nonblocking
        (turn_of second_half ∷ [])
        (record { reader = idle_reader pipe half_full none })).0.reader
receive_message-IsValid_example =
    receive_message-IsValid (process 1) (λ h. []) nonblocking (turn_of second_half ∷ [])
      (record { reader = idle_reader pipe half_full none })
      (record { idle = λ _. omega arith; reading = λ c e. absurd (cc e) })

-- A read of four bytes is in progress, and ends before it is cancelled.
abbrev busy_reader : MessageReader
busy_reader = record {
  handle = record { h = 18446744073709551615 };
  read_buf = empty_vec;
  async = some (record { value = record { handle = pipe; buf = half_full } });
  entry_id = none;
}

drop_reader-releases_example :
    (idle_reader pipe
      (record { bytes = 0 ∷ 0 ∷ 0 ∷ 0 ∷ 0 ∷ 0 ∷ 0 ∷ 0 ∷ []; capacity = 16 })
      none).async
    ≡ none
drop_reader-releases_example =
    drop_reader-releases (process 1) cancel_true (wait_true (chunk_of second_half) ∷ []) busy_reader
      (idle_reader pipe (record { bytes = 0 ∷ 0 ∷ 0 ∷ 0 ∷ 0 ∷ 0 ∷ 0 ∷ 0 ∷ []; capacity = 16 }) none)
      dropped
  where
    dropped :
        drop_reader (process 1) cancel_true (wait_true (chunk_of second_half) ∷ []) busy_reader ≡ (
          idle_reader pipe
              (record { bytes = 0 ∷ 0 ∷ 0 ∷ 0 ∷ 0 ∷ 0 ∷ 0 ∷ 0 ∷ []; capacity = 16 })
              none,
          ok tt,
        )
    dropped = unfold drop_reader in refl

abbrev buffering : OsIpcReceiver
buffering = record { reader = idle_reader pipe half_full none }

prepare_for_transfer-consume_example :
    (prepare_for_transfer
        (process 1)
        cancel_true
        []
        (record { reader = idle_reader pipe empty_vec none })
      ≡ (record { reader = idle_reader pipe empty_vec none }, ok true))
    × (half_full ≡ half_full)
prepare_for_transfer-consume_example =
    prepare_for_transfer-consume (process 1) buffering
      (record { reader = idle_reader (record { h = 18446744073709551615 }) half_full none })
      (record { reader = idle_reader pipe empty_vec none }) cancel_true [] (unfold consume in refl)

-- A message whose data is on a pipe of its own, handle 70, that cannot be read.
abbrev big_message : Vec
big_message = record {
  bytes = 0 ∷ 0 ∷ 0 ∷ 0 ∷ 5 ∷ 0 ∷ 0 ∷ 0 ∷ 1 ∷ 1 ∷ 70 ∷ 9 ∷ 0 ∷ [];
  capacity = 16;
}

abbrev failing : Dedicated
failing h = record { read = read_false 5; answers = [] } ∷ []
