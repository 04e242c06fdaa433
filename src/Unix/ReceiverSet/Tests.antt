-- ===== src/Unix/ReceiverSet/Tests.antt =====
-- Concrete runs of the receiver set of src/platform/unix/mod.rs: a message on one channel, and another
-- channel that is closed.
use ipc_channel.Base.{
  ◌≡◌, refl, Bool, true, none, List, [], ◌∷◌, ◌==◌, if◌then◌else◌, ok, ℤ, sub_usize, pos, negsuc,
}
use ipc_channel.Errors.{interrupted}
use ipc_channel.Unix.Kernel.{Kernel}
use ipc_channel.Unix.Cmsg.{channel_length}
use ipc_channel.Unix.Handles.{OsIpcReceiver}
use ipc_channel.Unix.ReceiverSet.{
  PollEntry, OsIpcReceiverSet, Event, PollResult, wait_events, select, data_received,
  closed_channel, events, poll_error,
}
use ipc_channel.Unix.ReceiverSet.Map.{lookup, remove}
use ipc_channel.Unix.ReceiverSet.Select.{Reports, select-Reports, no_events, one_event}
use ipc_channel.Unix.Recv.{
  Received, RecvAnswer, CmsgAnswers, FollowupAnswer, Message, unix_cmsg_new, recvmsg_result,
  cmsg_recv, sort_fds, recv_message, recv, blocking, received, end_of_file, ready,
}

abbrev receiver_3 : OsIpcReceiver
receiver_3 = record { fd = pos 3 }

abbrev entry_3 : PollEntry
entry_3 = record { id = 0; fd = pos 3 }

abbrev entry_4 : PollEntry
entry_4 = record { id = 1; fd = pos 4 }

abbrev two_members : OsIpcReceiverSet
two_members = record {
  incrementor = 2;
  registered = 4 ∷ 3 ∷ [];
  pollfds = (3, entry_3) ∷ (4, entry_4) ∷ [];
}

abbrev kernel : Kernel
kernel = record {
  sendbuf_size = 96;
  enobufs = 105;
  eagain = 11;
  ewouldblock = 11;
  st_mode = λ fd. none;
  st_size = λ fd. none;
  s_ifmt = 61440;
  s_ifsock = 49152;
  mmap = λ fd n. none;
}

abbrev hello : Received
hello = record {
  bytes_read = 10;
  total_size = 2;
  payload = 104 ∷ 105 ∷ [];
  controllen = 0;
  cmsg_length = 0;
  fds = [];
}

abbrev answering : RecvAnswer → CmsgAnswers
answering r = record {
  malloc_failed = none;
  set_failed = none;
  polled = ready;
  recvmsg = r;
  clear_failed = none;
}

-- A message for descriptor 3; the channel of any other is closed.
abbrev answers : ℤ → CmsgAnswers
answers (pos n) = if n == 3 then answering (received hello) else answering end_of_file
answers (negsuc n) = answering end_of_file

abbrev no_fragments : ℤ → List FollowupAnswer
no_fragments fd = []

abbrev deregisters : ℤ → Bool
deregisters fd = true

abbrev both : List Event
both = record { token = 4; readable = true } ∷ record { token = 3; readable = true } ∷ []

abbrev polls : List PollResult
polls = poll_error interrupted 4 ∷ events [] ∷ events both ∷ []

abbrev hello_message : Message
hello_message = record {
  bytes = 104 ∷ 105 ∷ [];
  handles = record { channels = []; shared_memory_regions = [] };
}

both-Reports :
    Reports
      (λ fd. recv kernel (answers fd) no_fragments blocking)
      two_members.pollfds
      both
      (closed_channel 1 ∷ data_received 0 hello_message ∷ [])
      ((3, entry_3) ∷ [])
unfolding recv unix_cmsg_new cmsg_recv recvmsg_result sub_usize channel_length sort_fds recv_message
    lookup remove
both-Reports =
    one_event (record { token = 4; readable = true }) entry_4 (closed_channel 1) refl refl refl
      (one_event (record { token = 3; readable = true }) entry_3 (data_received 0 hello_message)
        refl refl refl no_events)

select-Reports_example :
    ((select kernel answers no_fragments deregisters polls two_members).1
      ≡ ok (closed_channel 1 ∷ data_received 0 hello_message ∷ []))
    × ((select kernel answers no_fragments deregisters polls two_members).0.pollfds
        ≡ (3, entry_3) ∷ [])
select-Reports_example =
    select-Reports kernel answers no_fragments deregisters polls two_members both
      (closed_channel 1 ∷ data_received 0 hello_message ∷ []) ((3, entry_3) ∷ []) (λ fd. refl)
      (unfold wait_events in refl) both-Reports
