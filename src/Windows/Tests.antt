-- ===== src/Windows/Tests.antt =====
-- Concrete runs of src/platform/windows/mod.rs: a message with a channel and a region, in two reads.
mod Codecs
mod Readers
mod Sets
use ipc_channel.Base.{
  ℕ, ◌+◌, ◌≤◌, ◌≡◌, refl, inr, Bool, false, none, List, [], ◌∷◌, ◌++◌, arith, length, ok,
}
use ipc_channel.Windows.System.{gives}
use ipc_channel.Windows.Handle.{invalid}
use ipc_channel.Windows.Message.{OutOfBandMessage, new_oob}
use ipc_channel.Windows.SharedMemory.{OsIpcSharedMemory}
use ipc_channel.Windows.Reader.{
  Vec, empty_vec, reserve, room, reserve_if_full, read_false, cancel_true, wait_true,
}
use ipc_channel.Windows.Receiver.{Turn, recv}
use ipc_channel.Windows.Receiver.Framing.{idle_reader}
use ipc_channel.Windows.Receiver.Reassembly.{Delivers, Arrives, grown, nothing, chunk}
use ipc_channel.Windows.Send.{
  OsIpcChannel, SendAnswers, Pipes, get_pipe_server_process_handle_and_pid, push_regions,
  push_ports, needs_fragmentation, fragment, prepare, send, sender,
}
use ipc_channel.Windows.Send.Written.{Written, send-Written}
use ipc_channel.Windows.RoundTrip.Delivery.{arrived, empty_pipes, recv-send_windows}
use ipc_channel.Windows.Tests.Codecs.{process, process-Codec}

-- Handles from 1000 on are those of the other process.
abbrev answers : SendAnswers
answers = record {
  server_process_id = gives 200;
  open_process = gives 50;
  duplicate = λ h process close_source. gives (h + 1000);
  quiesce = λ rx. (cancel_true, []);
  create_pipe = gives 60;
  create_file = gives 61;
  writes = gives 19 ∷ [];
  raw_writes = [];
}

abbrev data_bytes : List ℕ
data_bytes = 7 ∷ 8 ∷ 9 ∷ []

abbrev ports : List OsIpcChannel
ports = sender (record { handle = record { h = 3 } }) ∷ []

abbrev regions : List OsIpcSharedMemory
regions = record { handle = record { h = 4 }; ptr = 8192; length = 12 } ∷ []

abbrev sent_oob : OutOfBandMessage
sent_oob = record {
  target_process_id = 200;
  channel_handles = 1003 ∷ [];
  shmem_handles = (1004, 12) ∷ [];
  big_data_receiver_handle = none;
}

abbrev first_read : List ℕ
first_read = 3 ∷ 0 ∷ 0 ∷ 0 ∷ 8 ∷ 0 ∷ 0 ∷ 0 ∷ 7 ∷ 8 ∷ []

abbrev second_read : List ℕ
second_read = 9 ∷ 200 ∷ 0 ∷ 0 ∷ 0 ∷ 1 ∷ 1003 ∷ 1004 ∷ 12 ∷ []

abbrev written_pipes : Pipes
written_pipes = record { main = first_read ++ second_read; dedicated = [] }

abbrev reading : List ℕ → Turn
reading bytes = record {
  read = read_false 997;
  answers = wait_true (record { internal_high = length bytes; offset = 0; written = bytes }) ∷ [];
}

prepared : prepare (process 100) answers data_bytes ports regions ≡ ok (false, sent_oob)
unfolding prepare new_oob get_pipe_server_process_handle_and_pid push_regions push_ports
    needs_fragmentation fragment invalid
prepared = refl

sent : send (process 100) answers data_bytes ports regions empty_pipes ≡ (written_pipes, ok tt)
unfolding send
sent = refl

arrives :
    Arrives
      (process 200)
      empty_vec
      (reading first_read ∷ reading second_read ∷ [])
      (first_read ++ second_read)
unfolding room reserve_if_full reserve
arrives =
    chunk (reads first_read empty_vec (omega arith))
      (chunk (reads second_read (grown empty_vec first_read) (omega arith)) nothing)
  where
    reads :
        (c : List ℕ) (v : Vec)
        → length c ≤ room (reserve_if_full v)
        → Delivers (process 200) v (reading c) c
    reads c v h = record { started = inr refl; later = []; answered = refl; fits = h }

recv-send_windows_example :
    (left : Vec) × (recv
        (process 200)
        (λ h. [])
        (reading first_read ∷ reading second_read ∷ [])
        (record { reader = idle_reader (record { h = 5 }) empty_vec none })
      ≡ (
        record { reader = idle_reader (record { h = 5 }) left none },
        ok (arrived (process 200) data_bytes sent_oob),
      ))
recv-send_windows_example =
    recv-send_windows (process 100) (process 200) answers data_bytes ports regions written_pipes
      false sent_oob (λ h. []) (reading first_read ∷ reading second_read ∷ []) (record { h = 5 })
      empty_vec (first_read ++ second_read) [] (process-Codec 100 200) refl sent prepared
      ((λ e. omega arith), tt) (λ h n e. absurd (cc e)) arrives (omega arith) refl

send-Written_example :
    (plan : Bool × OutOfBandMessage) × (prepare (process 100) answers data_bytes ports regions
      ≡ ok plan)
    × Written (process 100) data_bytes plan.0 plan.1 empty_pipes written_pipes
send-Written_example =
    send-Written (process 100) answers data_bytes ports regions empty_pipes written_pipes sent
