-- ===== src/Macos/Tests.antt =====
-- Runs of the definitions of the macOS transport.
use ipc_channel.Base.{
  ℕ, ◌+◌, ◌-◌, ◌^◌, ◌≡◌, refl, ◌≢◌, false, some, List, [], ◌∷◌, map, arith, leb, ◌==◌,
  if◌then◌else◌, replicate, map_err, waits, err, ok,
}
use ipc_channel.Errors.{empty}
use ipc_channel.Macos.System.{
  kern_invalid_right, mach_rcv_timed_out, mach_notify_no_senders, mach_send_too_large,
  bootstrap_name_in_use, mach_port_right_receive, mach_port_right_port_set, mach_msg_type_port_send,
  notify_no_senders, send_invalid_dest,
}
use ipc_channel.Macos.Errors.{to_try_recv_error}
use ipc_channel.Macos.Message.{
  Address, OsIpcSharedMemory, Message, bytes_at, deref, VmAllocate, pages, move_send, move_receive,
  port_descriptor, ool_descriptor,
}
use ipc_channel.Macos.Ports.{OsIpcReceiver, OsIpcChannel, channel, clone_sender, sender, receiver}
use ipc_channel.Macos.Send.{Mach, send}
use ipc_channel.Macos.Receive.{
  Call, receive_options, fetch_large, fetch, recv_with_blocking_mode, recv, try_recv, nonblocking,
  timeout, data_received, message, too_large, fails,
}
use ipc_channel.Macos.ReceiverSet.{OsIpcReceiverSet, add, select_set, drop_set}
use ipc_channel.Macos.OneShot.{register_loop}
use ipc_channel.Macos.Send.Outcome.{Outcome, send-Outcome}
use ipc_channel.Macos.Send.Retry.{send-ends}
use ipc_channel.Macos.RoundTrip.Descriptors.{renamed, no_descriptors, carried_port, carried_region}
use ipc_channel.Macos.RoundTrip.Payload.{Carries}
use ipc_channel.Macos.RoundTrip.Delivery.{recv-send_macos}
use ipc_channel.Macos.ReceiverSet.Delivery.{select-add_macos}

abbrev vm : VmAllocate
vm n = some (pages (replicate n 0))

abbrev bytes : List ℕ
bytes = 1 ∷ 2 ∷ 3 ∷ []

abbrev ports : List OsIpcChannel
ports = sender (record { port = 5 }) ∷ receiver (record { port = 6 }) ∷ []

abbrev region : Address → OsIpcSharedMemory
region a = record { ptr = a; length = 2 }

abbrev regions : List OsIpcSharedMemory
regions = region (pages (9 ∷ 8 ∷ [])) ∷ []

abbrev start : Mach
start = record { max_inline_size = 2 ^ 64 - 1; sent = []; dropped_ports = []; dropped_regions = [] }

-- The message of the second attempt, with its data out of line.
abbrev second_message : Message
second_message = record {
  msgh_size = 88;
  msgh_remote_port = 4;
  msgh_local_port = 0;
  msgh_id = 0;
  msgh_descriptor_count = 4;
  descriptors =
      port_descriptor 5 move_send
      ∷ port_descriptor 6 move_receive
      ∷ ool_descriptor (pages (9 ∷ 8 ∷ [])) 2
      ∷ ool_descriptor (pages (1 ∷ 2 ∷ 3 ∷ [])) 3
      ∷ [];
  has_inline_data = false;
  data_size = 0;
  bytes = [];
}

abbrev after : Mach
after = record start { max_inline_size = 3; sent = second_message ∷ [] }

too_large_twice :
    send vm (mach_send_too_large ∷ 0 ∷ []) 4 bytes ports regions start ≡ (after, ok tt)
unfolding send
too_large_twice = refl

-- A dead port: the handles are given back.
dead_port :
    send vm (268435459 ∷ []) 4 bytes ports regions start
    ≡ (record start { dropped_ports = ports; dropped_regions = regions }, err send_invalid_dest)
unfolding send
dead_port = refl

abbrev rename : ℕ → ℕ
rename n = n + 100

-- The message as it arrives: the page of the region has been copied as a whole.
abbrev arrived : Message
arrived = record second_message {
  msgh_local_port = 7;
  descriptors =
      port_descriptor 105 move_send
      ∷ port_descriptor 106 move_receive
      ∷ ool_descriptor (pages (9 ∷ 8 ∷ 0 ∷ 0 ∷ [])) 2
      ∷ ool_descriptor (pages (1 ∷ 2 ∷ 3 ∷ 0 ∷ [])) 3
      ∷ [];
}

carries : Carries rename second_message arrived
unfolding bytes_at
carries = record {
  same_size = refl;
  same_id = refl;
  same_count = refl;
  same_flag = refl;
  same_data_size = refl;
  same_bytes = refl;
  carried = carried_port 5 move_send move_send (
      carried_port 6 move_receive move_receive (
        carried_region (pages (9 ∷ 8 ∷ [])) (pages (9 ∷ 8 ∷ 0 ∷ 0 ∷ [])) 2 refl (
          carried_region (pages (1 ∷ 2 ∷ 3 ∷ [])) (pages (1 ∷ 2 ∷ 3 ∷ 0 ∷ [])) 3 refl
            no_descriptors)));
}

-- A kernel that has the message, with a trailer of 8 bytes.
abbrev call : Call
call flags limit size =
    if leb (arrived.msgh_size + 8) size then message arrived else too_large arrived.msgh_size

abbrev sevenths : OsIpcReceiver
sevenths = record { port = 7 }

received_run :
    try_recv (call ∷ call ∷ []) sevenths
    ≡ ok (
      bytes,
      record { port = 105 } ∷ record { port = 106 } ∷ [],
      region (pages (9 ∷ 8 ∷ 0 ∷ 0 ∷ [])) ∷ [],
    )
unfolding try_recv
received_run = refl

-- A large message is fetched by the second call.
large_run :
    (flags limit : ℕ)
    → fetch
        ((λ f l n.
            if leb 10008 n then message (record arrived { msgh_size = 10000 }) else too_large 10000)
          ∷ (λ f l n.
              if leb 10008 n
              then message (record arrived { msgh_size = 10000 })
              else too_large 10000)
          ∷ [])
        flags
        limit
      ≡ ok (record arrived { msgh_size = 10000 })
unfolding fetch fetch_large
large_run flags limit = refl

closed_run :
    recv ((λ f l n. message (record arrived { msgh_id = mach_notify_no_senders })) ∷ []) sevenths
    ≡ err notify_no_senders
unfolding recv
closed_run = refl

-- Nothing is there, and no wait is wanted.
empty_run :
    map_err to_try_recv_error (try_recv ((λ f l n. fails mach_rcv_timed_out) ∷ []) sevenths)
    ≡ err empty
unfolding try_recv to_try_recv_error
empty_run = refl

long_timeout : receive_options (timeout (2 ^ 32)) ≡ (6, 0)
unfolding receive_options
long_timeout = refl

-- The receiver of a cloned sender is gone.
clone_run :
    clone_sender (λ port right. kern_invalid_right) (record { port = 5 }) ≡ ok (record { port = 0 })
unfolding clone_sender
clone_run = refl

channel_run :
    channel (λ right. (0, 7)) 0 (λ port t. (0, 9, mach_msg_type_port_send)) 0
    ≡ ok (record { port = 9 }, sevenths)
unfolding channel
channel_run = refl

name_run :
    register_loop
      (λ b name right. if name == 3 then 0 else bootstrap_name_in_use)
      1
      9
      (1 ∷ 2 ∷ 3 ∷ [])
    ≡ ok 3
unfolding register_loop
name_run = refl

abbrev empty_set : OsIpcReceiverSet
empty_set = record { port = 2; ports = [] }

abbrev set_of_one : OsIpcReceiverSet
set_of_one = record { port = 2; ports = 7 ∷ [] }

add_run : add (λ port set. 0) empty_set sevenths ≡ (set_of_one, ok 7)
unfolding add
add_run = refl

drop_set_run :
    drop_set (λ port right. 0) set_of_one
    ≡ ((7, mach_port_right_receive) ∷ (2, mach_port_right_port_set) ∷ [], ok tt)
unfolding drop_set
drop_set_run = refl

send-Outcome_example :
    Outcome vm 4 bytes ports regions start
      (send vm (mach_send_too_large ∷ 0 ∷ []) 4 bytes ports regions start)
send-Outcome_example = send-Outcome vm 4 bytes ports regions (mach_send_too_large ∷ 0 ∷ []) start

send-ends_example : (send vm (mach_send_too_large ∷ 0 ∷ []) 4 bytes ports regions start).1 ≢ waits
send-ends_example = send-ends vm mach_send_too_large 0 [] 4 bytes ports regions start

recv-send_macos_example :
    (regions' : List OsIpcSharedMemory) × (recv_with_blocking_mode
        (call ∷ call ∷ [])
        sevenths
        nonblocking
      ≡ ok (bytes, renamed rename ports, regions'))
    × (map deref regions' ≡ map deref regions)
recv-send_macos_example =
    recv-send_macos rename vm (mach_send_too_large ∷ 0 ∷ []) 4 bytes ports regions start after
      second_message arrived 8 call call [] sevenths nonblocking too_large_twice refl carries
      (λ flags limit size. refl) (λ flags limit size. refl) (omega arith) (omega arith)
      (omega arith, tt) (λ e. omega arith)

select-add_macos_example :
    (regions' : List OsIpcSharedMemory) × (select_set (call ∷ call ∷ []) set_of_one
      ≡ ok (data_received 7 bytes (renamed rename ports) regions' ∷ []))
    × (map deref regions' ≡ map deref regions)
select-add_macos_example =
    select-add_macos rename vm (mach_send_too_large ∷ 0 ∷ []) 4 bytes ports regions start after
      second_message arrived 8 call call [] (λ port set. 0) empty_set set_of_one sevenths 7 add_run
      too_large_twice refl carries refl (λ flags limit size. refl) (λ flags limit size. refl)
      (omega arith) (omega arith) (omega arith, tt) (λ e. omega arith)
