-- ===== src/Windows/OneShot.antt =====
-- `OsIpcOneShotServer` of src/platform/windows/mod.rs.
use ipc_channel.Base.{ℕ, Option, none, some, List, Result, ◌>>=◌, panic, ok}
use ipc_channel.Windows.System.{WinError, Answer, System}
use ipc_channel.Windows.Handle.{OsIpcSender}
use ipc_channel.Windows.Receiver.{OsIpcReceiver, Turn, Received, Connect, Dedicated, recv, accept}
use ipc_channel.Windows.Send.{new_named, connect_named}

-- The name of the server is the name of its pipe, without the prefix: the UUID, a number here.
pub record OsIpcOneShotServer : Type 0 where
  pub receiver : OsIpcReceiver

-- `new`: the UUID and the answer of CreateNamedPipeA for the pipe of that name.
unfoldable pub new_server : ℕ → (ℕ → Answer) → Result WinError (OsIpcOneShotServer × ℕ)
unfolding new_named
new_server pipe_id create_pipe = do
  rx ← new_named (create_pipe pipe_id)
  ok (record { receiver = rx }, pipe_id)

-- `OsIpcSender::connect`: a name that is no UUID panics.
unfoldable pub connect : Option ℕ → (ℕ → Answer) → Result WinError OsIpcSender
unfolding connect_named
connect none create_file = panic
connect (some pipe_id) create_file = connect_named (create_file pipe_id)

-- `accept`, which consumes the server: the receiver, with the first message.
unfoldable pub accept_server :
    System
    → Dedicated
    → Connect
    → Option ℕ
    → List Turn
    → OsIpcOneShotServer
    → Result WinError (OsIpcReceiver × Received)
unfolding accept recv
accept_server w dedicated connecting overlapped turns server =
    let (rx, result) = recv w dedicated turns server.receiver in
    accept w connecting overlapped >>= λ _. result >>= λ received. ok (rx, received)
