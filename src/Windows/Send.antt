-- ===== src/Windows/Send.antt =====
-- `OsIpcSender::send` of src/platform/windows/mod.rs: handles are duplicated for the process at the
-- other end; data that does not fit the pipe's buffer goes over a pipe made for the message.
pub mod Written
pub mod Plan
use ipc_channel.Base.{
  ℕ, ◌+◌, ◌-◌, ◌%◌, ◌^◌, Bool, true, false, not, ◌&&◌, ◌||◌, some, List, [], ◌∷◌, ◌++◌, ltb, leb,
  ◌==◌, if◌then◌else◌, length, take, drop, Result, ◌>>=◌, on_ok, panic, waits, err, ok,
}
use ipc_channel.Windows.System.{
  WinError, Answer, System, from_system, pipe_buffer_size, gives, fails,
}
use ipc_channel.Windows.Handle.{
  WinHandle, OsIpcSender, new_handle, invalid, is_valid, take_handle, Duplicate,
  dup_handle_to_process, move_handle_to_process, sender_from_handle,
}
use ipc_channel.Windows.Message.{
  OutOfBandMessage, header_size, total_message_bytes_needed, full_message, new_oob, is_empty,
  needs_to_be_sent, serialize_oob, oob_data,
}
use ipc_channel.Windows.SharedMemory.{OsIpcSharedMemory}
use ipc_channel.Windows.Reader.{Cancel, Wait, new_reader}
use ipc_channel.Windows.Receiver.{OsIpcReceiver, prepare_for_transfer}

pub data AtomicMode : Type 0 where
  atomic nonatomic : AtomicMode

-- What WriteFile gives: the number of bytes written, or the last error.
abbrev pub Writes : Type 0
Writes = List Answer

-- The loop of `write_buf`. The first list is what the pipe has taken.
unfoldable pub write_loop :
    AtomicMode → Writes → List ℕ → ℕ → List ℕ → List ℕ × Result WinError (Unit {0})
unfolding from_system
write_loop mode [] bytes written pipe = (pipe, if ltb written (length bytes) then waits else ok tt)
write_loop mode (fails e ∷ _) bytes written pipe =
    (pipe, if ltb written (length bytes) then err (from_system e) else ok tt)
write_loop mode (gives n ∷ answers) bytes written pipe =
    let pipe' = pipe ++ take n (drop written bytes) in
    let rest = write_loop mode answers bytes (written + n) pipe' in
    if ltb written (length bytes)
    then (elim mode [
      | atomic ↦ if written + n == length bytes then rest else (pipe', panic)
      | nonatomic ↦ rest
    ])
    else (pipe, ok tt)

unfoldable pub write_buf :
    AtomicMode → Writes → List ℕ → List ℕ → List ℕ × Result WinError (Unit {0})
unfolding write_loop
write_buf mode answers bytes pipe =
    if length bytes == 0 then (pipe, ok tt) else write_loop mode answers bytes 0 pipe

-- `OsIpcReceiver::new_named` and `OsIpcSender::connect_named`: CreateNamedPipeA, CreateFileA.
unfoldable pub new_named : Answer → Result WinError OsIpcReceiver
unfolding new_reader new_handle from_system
new_named (gives h) = ok (record { reader = new_reader (new_handle h) })
new_named (fails e) = err (from_system e)

unfoldable pub connect_named : Answer → Result WinError OsIpcSender
unfolding sender_from_handle new_handle from_system
connect_named (gives h) = ok (sender_from_handle (new_handle h))
connect_named (fails e) = err (from_system e)

-- `channel`, with the answers for the receiving and the sending end.
unfoldable pub channel : Answer → Answer → Result WinError (OsIpcSender × OsIpcReceiver)
unfolding new_named connect_named
channel create_pipe create_file = do
  receiver ← new_named create_pipe
  sender ← connect_named create_file
  ok (sender, receiver)

pub data OsIpcChannel : Type 0 where
  sender : OsIpcSender → OsIpcChannel
  receiver : OsIpcReceiver → OsIpcChannel

-- The answers of the kernel to the calls of one `send`; `quiesce` gives those to the `cancel_io` of a
-- receiver that is sent.
pub record SendAnswers : Type 0 where
  pub server_process_id : Answer
  pub open_process : Answer
  pub duplicate : Duplicate
  pub quiesce : OsIpcReceiver → Cancel × List Wait
  pub create_pipe : Answer
  pub create_file : Answer
  pub writes : Writes
  pub raw_writes : Writes

unfoldable pub get_pipe_server_process_id : SendAnswers → Result WinError ℕ
unfolding from_system
get_pipe_server_process_id a = elim a.server_process_id [
  | gives pid ↦ ok pid
  | fails e ↦ err (from_system e)
]

unfoldable pub get_pipe_server_process_handle_and_pid :
    System → SendAnswers → Result WinError (WinHandle × ℕ)
unfolding get_pipe_server_process_id new_handle from_system
get_pipe_server_process_handle_and_pid w a = get_pipe_server_process_id a >>= λ server_pid.
    if server_pid == w.current_process_id
    then ok (new_handle w.current_process_handle, server_pid)
    else (elim a.open_process [
      | gives h ↦ ok (new_handle h, server_pid)
      | fails e ↦ err (from_system e)
    ])

-- The two loops that duplicate the handles for the server's process.
unfoldable pub push_regions :
    System
    → Duplicate
    → WinHandle
    → List OsIpcSharedMemory
    → OutOfBandMessage
    → Result WinError OutOfBandMessage
unfolding dup_handle_to_process
push_regions w dup server_h [] oob = ok oob
push_regions w dup server_h (m ∷ regions) oob =
    dup_handle_to_process w dup m.handle server_h >>= λ remote.
    push_regions w dup server_h regions
      (record oob { shmem_handles = oob.shmem_handles ++ ((remote.h, m.length) ∷ []) })

-- The handle of a port. A receiver that has bytes left in its buffer panics.
unfoldable pub port_handle :
    System → (OsIpcReceiver → Cancel × List Wait) → OsIpcChannel → Result WinError WinHandle
unfolding prepare_for_transfer take_handle
port_handle w quiesce (sender s) = ok s.handle
port_handle w quiesce (receiver r) =
    let (cancel, answers) = quiesce r in
    let (r', empty) = prepare_for_transfer w cancel answers r in
    empty >>= λ is_empty. if is_empty then ok (take_handle w r'.reader.handle).0 else panic

unfoldable pub push_ports :
    System
    → SendAnswers
    → WinHandle
    → List OsIpcChannel
    → OutOfBandMessage
    → Result WinError OutOfBandMessage
unfolding port_handle move_handle_to_process
push_ports w a server_h [] oob = ok oob
push_ports w a server_h (port ∷ ports) oob = port_handle w a.quiesce port >>= λ handle.
    move_handle_to_process w a.duplicate handle server_h >>= λ remote.
    push_ports w a server_h ports
      (record oob { channel_handles = oob.channel_handles ++ (remote.h ∷ []) })

-- `serialize`, where there is something to send.
unfoldable pub oob_bytes_of : System → OutOfBandMessage → List ℕ
unfolding needs_to_be_sent serialize_oob
oob_bytes_of w oob = if needs_to_be_sent oob then serialize_oob w oob else []

-- bincode's `serialized_size` is the length of the serialization.
unfoldable pub needs_fragmentation : System → ℕ → OutOfBandMessage → Result WinError Bool
unfolding oob_bytes_of
needs_fragmentation w data_len oob =
    let oob_size = length (oob_bytes_of w oob) in
    if leb oob_size (pipe_buffer_size - header_size)
    then ok (leb (pipe_buffer_size - header_size - oob_size) data_len)
    else panic

-- The pipe for data that is too long: its receiving end goes with the message. The Boolean is whether
-- there is one.
unfoldable pub fragment :
    System
    → SendAnswers
    → WinHandle × ℕ
    → ℕ
    → OutOfBandMessage
    → Result WinError (Bool × OutOfBandMessage)
unfolding channel is_valid get_pipe_server_process_handle_and_pid move_handle_to_process take_handle
fragment w a (server_h, server_pid) data_len oob = do
  ends ← channel a.create_pipe a.create_file
  server ←
      if is_valid w server_h
      then ok (server_h, server_pid)
      else get_pipe_server_process_handle_and_pid w a
  remote ← move_handle_to_process w a.duplicate (take_handle w ends.1.reader.handle).0 server.0
  ok (
    true,
    record oob {
      big_data_receiver_handle = some (remote.h, data_len);
      target_process_id = server.1;
    },
  )

-- `send` up to the message to be written.
unfoldable pub prepare :
    System
    → SendAnswers
    → List ℕ
    → List OsIpcChannel
    → List OsIpcSharedMemory
    → Result WinError (Bool × OutOfBandMessage)
unfolding new_oob get_pipe_server_process_handle_and_pid push_regions push_ports needs_fragmentation
    fragment invalid
prepare w a bytes ports regions = do
  server ←
      if not (is_empty regions) || not (is_empty ports)
      then get_pipe_server_process_handle_and_pid w a
      else ok (invalid w, 0)
  with_regions ← push_regions w a.duplicate server.0 regions (new_oob server.1)
  oob ← push_ports w a server.0 ports with_regions
  too_long ← needs_fragmentation w (length bytes) oob
  if too_long then fragment w a server (length bytes) oob else ok (false, oob)

-- What has been written on the sender's pipe, and on the pipe made for the message.
pub record Pipes : Type 0 where
  pub main : List ℕ
  pub dedicated : List ℕ

-- The rest of `send`.
unfoldable pub write_message :
    System
    → SendAnswers
    → List ℕ
    → Bool
    → OutOfBandMessage
    → Pipes
    → Pipes × Result WinError (Unit {0})
unfolding oob_bytes_of full_message write_buf total_message_bytes_needed
write_message w a bytes big oob pipes =
    let oob_data = oob_bytes_of w oob in
    let in_band = if big then [] else bytes in
    let full_in_band_len =
      total_message_bytes_needed
        (record { data_len = length in_band % 2 ^ 32; oob_len = length oob_data % 2 ^ 32 }) in
    let full = full_message in_band oob_data in
    let (main, result) = write_buf atomic a.writes full pipes.main in
    let (dedicated, raw_result) = write_buf nonatomic a.raw_writes bytes pipes.dedicated in
    let pipes' : Pipes = record pipes { main = main } in
    if leb full_in_band_len pipe_buffer_size && (length full == full_in_band_len)
    then (on_ok pipes' result
        λ _. if big then (record pipes' { dedicated = dedicated }, raw_result) else (pipes', ok tt))
    else (pipes, panic)

unfoldable pub send :
    System
    → SendAnswers
    → List ℕ
    → List OsIpcChannel
    → List OsIpcSharedMemory
    → Pipes
    → Pipes × Result WinError (Unit {0})
unfolding prepare write_message
send w a bytes ports regions pipes =
    if leb (length bytes) (2 ^ 32 - 1)
    then (on_ok pipes (prepare w a bytes ports regions)
        λ (big, oob). write_message w a bytes big oob pipes)
    else (pipes, panic)
