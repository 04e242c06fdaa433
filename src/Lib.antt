-- ===== src/Lib.antt =====
-- ipc-channel: channels between processes that carry values, and with them senders, receivers and
-- shared memory. This library models the crate's typed interface, its routers and its four transports,
-- and proves what they promise.
--
-- The program. src/ipc.rs turns a value into bytes (bincode) and a list of handles: while a value is
-- serialized, each handle is put into a thread-local table, and its index goes into the bytes. A platform
-- carries bytes and handles to the other end, where the tables are filled the other way round. On Unix
-- (src/platform/unix/mod.rs) a channel is a pair of SOCK_SEQPACKET sockets, a handle is a file descriptor,
-- and a message that is too long for a packet goes in fragments over a socket made for it. On Windows
-- (src/platform/windows/mod.rs) a channel is a named pipe, which carries bytes: a message is a frame in
-- it, handles are duplicated for the other process beforehand, and reads are asynchronous, with the buffer
-- in an AliasedCell (src/platform/windows/aliased_cell.rs) meanwhile. On macOS
-- (src/platform/macos/mod.rs) a channel is a Mach port, and the kernel carries port rights and pages with
-- a message; data that is too long for one goes out of line, as a region. In one process
-- (src/platform/inprocess/mod.rs) a channel is a crossbeam channel. src/router.rs runs a thread that
-- selects over many receivers and calls a handler for each message; src/asynch.rs has another, which
-- fills streams.
--
-- Which file models which code:
--   Base (Tests, Lists, Results, Words): Boolean tests, lists over native numbers, what a call of Rust
--     code comes to (Ok, Err, a panic, a wait), usize arithmetic modulo 2^64, file descriptors.
--   Errors: IpcError and TryRecvError of src/ipc.rs, io::Error and bincode::Error under them.
--   Unix.Kernel: UnixError; the constants and answers of the system as arguments.
--   Unix.Size: fragment_size, first_fragment_size, get_max_fragment_size, downsize.
--   Unix.Cmsg: CMSG_LEN, CMSG_ALIGN, CMSG_SPACE; Unix.Handles: the handle types and their conversions,
--     is_socket, map_file.
--   Unix.Send: OsIpcSender::send. `Wire` is what the kernel accepted. Attempt, Invariant, Rounds and
--     Delivery prove how it ends.
--   Unix.Recv: recv and UnixCmsg::recv. Cmsg, Sorting, Reassembly, Paths and RoundTrip lead to the round
--     trip; Limits is about the number of handles.
--   Unix.SharedMemory: create_shmem, BackingStore and OsIpcSharedMemory over the kernel's objects; Effects,
--     Copies and Sharing prove what is read and what is left.
--   Unix.ReceiverSet: OsIpcReceiverSet, with Ids and Select. Unix.Errors: the From implementations.
--   Windows.System, Errors, Handle: constants and answers of the system, AliasedCell, WinError, WinHandle.
--   Windows.Message: the frame of a message and its out-of-band data; Framing reads frames back.
--   Windows.Reader: MessageReader, the state of an asynchronous read, with Invariant and Release.
--   Windows.Receiver: get_message, receive_message and the rest of OsIpcReceiver; Framing and Reassembly
--     get messages out of a stream of chunks, Transfer is about a receiver that is handed on.
--   Windows.Send: OsIpcSender::send; Plan and Written say what it prepares and writes. Windows.RoundTrip:
--     from send to recv. Windows.SharedMemory, OneShot: the parts of those names.
--   Windows.ReceiverSet: OsIpcReceiverSet over the completion port, with Listening and Delivery.
--   Macos.System, Errors: the codes of the kernel, KernelError, MachError and the From implementations.
--   Macos.Message: SendData, Message::size_of, OsIpcSharedMemory. Macos.Ports: port rights and the two ends.
--   Macos.Send: OsIpcSender::send. Total and Forms say what it makes, Outcome and Retry how it ends.
--   Macos.Receive: select and the receiving calls. Macos.RoundTrip: Descriptors, Payload and Delivery lead
--     from send to recv. Macos.ReceiverSet, with Delivery, and OneShot: the parts of those names.
--   Inprocess.Channel, ReceiverSet, OneShot, Errors: src/platform/inprocess/mod.rs, one file for each
--     part; Table and Aligned prove that the set's two vectors are one table.
--   Ipc.Platform: what src/ipc.rs takes from a platform, and from bincode, as records of operations with
--     their laws. Ipc.Value: the values, as their Serialize implementations see them.
--   Ipc.Tables, Ipc.Send, Ipc.Message, Ipc.Receiver: the thread-local tables, IpcSender::send,
--     OpaqueIpcMessage, and the receiving ends (IpcReceiver, IpcReceiverSet, IpcOneShotServer, the bytes
--     channel). Ipc.Local fills the platform with the in-process transport.
--   Router: Router::new and Router::run; Router.System: RouterProxy beside the router's thread, as a step
--     relation.
--   Asynch: the routing thread and the streams of src/asynch.rs; Asynch.System: to_stream beside it, as a
--     step relation.
--   The modules called Tests run the definitions on concrete inputs.
--
-- Conventions. Numbers are natural numbers; usize arithmetic is written modulo 2^64. A blocking call that
-- nothing has woken is `waits`. System calls, mio, crossbeam, uuid and bincode are arguments: their answers
-- are given to a function, one for each call where the calls are many. A hypothesis on them says what they
-- document: that a packet arrives whole with its descriptors, in order; that decoding inverts encoding.
-- A handler of the router is a number, and the calls of handlers are recorded.
--
-- Bounds. The loop of `send` runs on fuel, one more than the length of the data and the buffer size
-- together: each round sends a byte or shrinks the buffer, so this is enough, and it is proved that the
-- loop ends before. The buffer of a socket is taken to be at least 48 bytes, so that a first packet carries
-- some data, and a message to be shorter than 2^63 bytes.
--
-- The loop of `select` on Windows that takes messages out of a buffer runs on fuel, one more than the length
-- of the buffer: each message takes its header at least, and it is proved that the loop ends before. The
-- other loops on Windows run on the answers of the kernel, one for each turn: when they are used up, the
-- call waits. Frames are within the pipe's buffer, 68 KiB, and their lengths below 2^32.
--
-- The loops of `select` and of register_bootstrap_name on macOS run on the answers of the kernel and on the
-- random numbers, one for each turn. The second attempt of `send` is its last, and this is proved. What an
-- address points to stands in the place of the address. Messages and regions are shorter than 4 GiB.
--
-- Not modelled: on macOS, the memory of a message's buffer, and lowering of MAX_INLINE_SIZE by other threads
-- between the attempts of a send; on Windows, the events of overlapped operations, the
-- comparison of handles, error strings, and the closing of handles and views in the kernel; on Unix, the one-shot server,
-- and the closing of sockets on drop; formatting and Debug implementations; conversions that only wrap a
-- handle.
pub mod Base
pub mod Errors
pub mod Unix
pub mod Windows
pub mod Inprocess
pub mod Ipc
pub mod Macos
pub mod Router
pub mod Asynch
