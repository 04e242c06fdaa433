-- ===== src/Windows/Tests/Sets.antt =====
-- A set with one reader, which reads an empty message and the first byte of another.
use ipc_channel.Base.{ℕ, ◌≡◌, refl, inr, true, some, List, [], ◌∷◌, ◌++◌, map, arith, concat, ok}
use ipc_channel.Windows.Handle.{WinHandle}
use ipc_channel.Windows.Message.{from_bytes}
use ipc_channel.Windows.Reader.{MessageReader, empty_vec, issued, read_false}
use ipc_channel.Windows.Receiver.{Received, take_message}
use ipc_channel.Windows.ReceiverSet.{OsIpcReceiverSet, SelectTurn, serve, select, data_received}
use ipc_channel.Windows.ReceiverSet.Listening.{Listening, select-Listening}
use ipc_channel.Windows.ReceiverSet.Delivery.{Frame, frame_bytes, holding, serve-delivers}
use ipc_channel.Windows.RoundTrip.{opened-data}
use ipc_channel.Windows.Tests.Codecs.{process}

abbrev pipe : WinHandle
pipe = record { h = 5 }

abbrev listening : MessageReader
listening = record {
  handle = record { h = 18446744073709551615 };
  read_buf = empty_vec;
  async =
      some
        (record { value = record { handle = pipe; buf = record { bytes = []; capacity = 16 } } });
  entry_id = some 3;
}

abbrev one_reader : OsIpcReceiverSet
one_reader = record {
  incrementor = 4;
  iocp = record { h = 9 };
  readers = listening ∷ [];
  closed_readers = [];
}

abbrev read_bytes : List ℕ
read_bytes = 0 ∷ 0 ∷ 0 ∷ 0 ∷ 0 ∷ 0 ∷ 0 ∷ 0 ∷ 6 ∷ []

abbrev completed : SelectTurn
completed = record {
  dequeued = record {
    succeeds = true;
    key = 5;
    ov = some (record { internal_high = 9; offset = 0; written = read_bytes });
    error = 0;
  };
  read = read_false 997;
}

select-Listening_example : Listening (select (process 1) (λ h. []) (completed ∷ []) one_reader).0
select-Listening_example =
    select-Listening (process 1) (λ h. []) (completed ∷ []) one_reader
      (record { reading = refl; named = refl }, tt)

abbrev empty_message : Received
empty_message = record { bytes = []; channels = []; regions = [] }

abbrev empty_frame : Frame
empty_frame = record { in_band = []; oob = []; received = empty_message }

serve-delivers_example :
    serve
      (process 1)
      (λ h. [])
      (read_false 997)
      (record one_reader { readers = [] })
      (holding pipe 16 (some 3) (concat (map frame_bytes (empty_frame ∷ [])) ++ (6 ∷ [])))
    ≡ (
      record one_reader {
        readers = [] ++ (issued (process 1) (holding pipe 16 (some 3) (6 ∷ [])) ∷ []);
      },
      ok (data_received 3 empty_message ∷ []),
    )
serve-delivers_example =
    serve-delivers (process 1) (λ h. []) (read_false 997) (record one_reader { readers = [] }) pipe
      16 3 (empty_frame ∷ []) (6 ∷ [])
      (
        record {
          fits = record { data_fits = omega arith; oob_fits = omega arith };
          is = opened-data (process 1) (λ h. []) [];
        },
        tt,
      )
      (unfold from_bytes in refl) (inr refl)

-- The whole call: the message is reported, and the reader reads on behind the byte that is left.
select_reports : select (process 1) (λ h. []) (completed ∷ []) one_reader ≡ (
  record one_reader {
    readers =
        record listening {
          async = some (record {
            value = record { handle = pipe; buf = record { bytes = 6 ∷ []; capacity = 16 } };
          });
        }
        ∷ [];
  },
  ok (data_received 3 empty_message ∷ []),
)
unfolding select take_message
select_reports = refl
