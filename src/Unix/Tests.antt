-- ===== src/Unix/Tests.antt =====
-- Concrete runs of src/platform/unix/mod.rs: a small buffer, two channels and a shared memory region.
mod Parts
use ipc_channel.Base.{
  ℕ, ◌+◌, ◌%◌, ◌≡◌, refl, subst, true, none, some, List, [], ◌∷◌, ◌++◌, map, arith, ltb, ◌==◌,
  if◌then◌else◌, length, set, replicate, ok, ℤ, add_usize, sub_usize, pos, negsuc,
}
use ipc_channel.Unix.Kernel.{SendAnswer, Kernel, pair}
use ipc_channel.Unix.Size.{IsBufSize, fragment_size, first_fragment_size, get_max_fragment_size}
use ipc_channel.Unix.Cmsg.{cmsg_len}
use ipc_channel.Unix.Handles.{
  OsIpcChannel, OsIpcSharedMemory, channel_fd, is_socket, map_at, map_file, shared_memory_from_fd,
  sender, receiver,
}
use ipc_channel.Unix.Send.{
  FirstPacket, Wire, send_first_fragment, send_followup_fragment, after_fragment, send_first,
  send_followup, round, send_loop, send_fragmented, message_fds, send_fds, send,
}
use ipc_channel.Unix.Send.Delivery.{SendEnds, send-SendEnds, Succeeds, send-Succeeds}
use ipc_channel.Unix.Recv.{
  Received, CmsgAnswers, FollowupAnswer, Message, recv, nonblocking, received, ready, fragment,
  closed,
}
use ipc_channel.Unix.Recv.Cmsg.{HasControl, Answers}
use ipc_channel.Unix.Recv.Sorting.{IsSocket}
use ipc_channel.Unix.Recv.Paths.{Installs, message}
use ipc_channel.Unix.Recv.RoundTrip.{Carries, recv-send}

-- Descriptors that end in 00 to 09 are sockets, the others are files of 3 bytes.
abbrev pub small_kernel : Kernel
small_kernel = record {
  sendbuf_size = 96;
  enobufs = 105;
  eagain = 11;
  ewouldblock = 11;
  st_mode =
      λ fd. elim fd [ pos n ↦ some (if ltb (n % 100) 10 then 49536 else 33152) | negsuc n ↦ none ];
  st_size = λ fd. some 3;
  s_ifmt = 61440;
  s_ifsock = 49152;
  mmap = λ fd n. some 4096;
}

abbrev accepting : ℕ → SendAnswer
accepting i = record { allocates = true; accepts = true; error = 0 }

abbrev pub long_data : List ℕ
long_data = replicate 100 7

abbrev two_channels : List OsIpcChannel
two_channels = sender (record { fd = pos 3 }) ∷ receiver (record { fd = pos 4 }) ∷ []

abbrev sent_region : OsIpcSharedMemory
sent_region = record { ptr = some 8192; length = 3; store = pos 12 }

abbrev pub arrived_region : OsIpcSharedMemory
arrived_region = record { ptr = some 4096; length = 3; store = pos 112 }

abbrev pub sane : IsBufSize 96
sane = record { holds = omega arith; fits = omega arith }

abbrev first_packet : FirstPacket
first_packet = record {
  fds = pos 3 ∷ pos 4 ∷ pos 12 ∷ pos 8 ∷ [];
  total = 100;
  payload = replicate 56 7;
}

abbrev fragments : Wire
fragments = record { main = first_packet ∷ []; dedicated = replicate 44 7 ∷ [] }

fragmented :
    send small_kernel (pair (pos 7) (pos 8)) accepting long_data two_channels (sent_region ∷ [])
    ≡ some (fragments, ok tt)
unfolding send send_fds get_max_fragment_size first_fragment_size sub_usize fragment_size
    send_fragmented send_loop round send_first after_fragment send_first_fragment message_fds
    send_followup add_usize send_followup_fragment channel_fd
fragmented = refl

-- A new descriptor in the receiving process.
abbrev install : ℤ → ℤ
install (pos n) = pos (n + 100)
install (negsuc n) = negsuc n

abbrev pub packet : Received
packet = record {
  bytes_read = 64;
  total_size = 100;
  payload = replicate 56 7;
  controllen = 32;
  cmsg_length = 32;
  fds = pos 103 ∷ pos 104 ∷ pos 112 ∷ pos 108 ∷ [];
}

abbrev delivering : Received → CmsgAnswers
delivering r = record {
  malloc_failed = none;
  set_failed = none;
  polled = ready;
  recvmsg = received r;
  clear_failed = none;
}

abbrev pub rest : ℤ → List FollowupAnswer
rest (pos n) = if n == 108 then fragment (replicate 44 7) ∷ closed ∷ [] else []
rest (negsuc n) = []

packet-HasControl : HasControl packet
unfolding cmsg_len add_usize sub_usize
packet-HasControl = record {
  none_sent = λ e. cc e;
  some_sent = λ _. (λ e. omega arith, refl);
  bounded = omega arith;
}

packet-Answers : Answers (delivering packet) packet
packet-Answers = record {
  allocated = refl;
  set = refl;
  polled = refl;
  packet = refl;
  nonempty = omega arith;
  cleared = refl;
}

fragments-Carries :
    Carries small_kernel install rest (message_fds two_channels (sent_region ∷ [])) fragments packet
unfolding message_fds get_max_fragment_size first_fragment_size sub_usize fragment_size channel_fd
fragments-Carries = record {
  packet = first_packet;
  main_is = refl;
  transfers = record {
    header = refl;
    body = refl;
    counted = refl;
    installed = refl;
    control = packet-HasControl;
  };
  rest = λ rx e.
      subst
        (λ x.
          IsSocket small_kernel (install x)
          × ((later : List FollowupAnswer) × (rest (install x)
                ≡ map fragment (fragments.dedicated) ++ later)))
        (last_fd rx e) (is_a_socket, (closed ∷ [], refl));
}
  where
    is_a_socket : is_socket small_kernel (pos 108) ≡ true
    is_a_socket = unfold is_socket in refl

    last_fd :
        (rx : ℤ)
        → first_packet.fds ≡ message_fds two_channels (sent_region ∷ []) ++ (rx ∷ [])
        → pos 8 ≡ rx
    last_fd rx e = cc e

arrived-Installs :
    Installs small_kernel install
      (map channel_fd two_channels)
      (sent_region ∷ [])
      (arrived_region ∷ [])
unfolding channel_fd is_socket shared_memory_from_fd map_file map_at
arrived-Installs = record {
  sockets = (refl, (refl, tt));
  named = refl;
  mapped = ((refl, refl), tt);
}

recv-send_example :
    recv small_kernel (delivering packet) rest nonblocking
    ≡ ok (message long_data (map install (map channel_fd two_channels)) (arrived_region ∷ []))
recv-send_example =
    recv-send small_kernel small_kernel (pair (pos 7) (pos 8)) accepting long_data two_channels
      (sent_region ∷ []) install (arrived_region ∷ []) fragments (delivering packet) packet
      nonblocking rest sane (omega arith) refl (unfold message_fds in omega arith) fragmented
      fragments-Carries arrived-Installs packet-Answers

send-SendEnds_example :
    SendEnds small_kernel
      (pair (pos 7) (pos 8))
      accepting
      (message_fds two_channels (sent_region ∷ []))
      long_data
      (send small_kernel (pair (pos 7) (pos 8)) accepting long_data two_channels (sent_region ∷ []))
send-SendEnds_example =
    send-SendEnds small_kernel (pair (pos 7) (pos 8)) accepting long_data two_channels
      (sent_region ∷ []) sane (omega arith)

send-Succeeds_example :
    Succeeds small_kernel
      (message_fds two_channels [])
      long_data
      (send small_kernel (pair (pos 7) (pos 8)) accepting long_data two_channels [])
send-Succeeds_example =
    send-Succeeds small_kernel (pos 7) (pos 8) accepting long_data two_channels [] sane
      (omega arith) (λ i. (refl, refl))

abbrev received_message : Message
received_message = message long_data (pos 103 ∷ pos 104 ∷ []) (arrived_region ∷ [])
