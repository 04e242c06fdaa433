-- ===== src/Windows/RoundTrip/Delivery.antt =====
-- The round trip of a message: what `recv` returns for what `send` has written.
use ipc_channel.Base.{
  ℕ, ◌≤◌, ◌≡◌, refl, sym, ap, subst, ◌∙◌, inl, inr, Bool, true, false, not, ◌||◌, Option, none,
  some, List, [], ◌∷◌, ◌++◌, map, if◌then◌else◌, Bool-cases, length, All, Result, ok,
}
use ipc_channel.Windows.System.{WinError, System, blocking, gives}
use ipc_channel.Windows.Handle.{WinHandle}
use ipc_channel.Windows.Message.{
  OutOfBandMessage, full_message, is_empty, is_some, needs_to_be_sent, serialize_oob,
}
use ipc_channel.Windows.Message.Framing.{message_data-framed}
use ipc_channel.Windows.SharedMemory.{OsIpcSharedMemory}
use ipc_channel.Windows.Reader.{Vec, MessageReader, empty_vec, reserve}
use ipc_channel.Windows.Receiver.{
  OsIpcReceiver, Turn, Received, open_channels, Dedicated, big_data, data_or, receive_message, recv,
}
use ipc_channel.Windows.Receiver.Framing.{idle_reader, opened}
use ipc_channel.Windows.Receiver.Reassembly.{Arrives, Receives, receive_loop-Receives}
use ipc_channel.Windows.Send.{OsIpcChannel, SendAnswers, Pipes, oob_bytes_of, prepare, send}
use ipc_channel.Windows.Send.Plan.{Plans, prepare-Plans}
use ipc_channel.Windows.Send.Written.{Written, send-Written}
use ipc_channel.Windows.RoundTrip.{Codec, big_data-bytes, view, IsMapped, opened-data, opened-oob}

-- The message that arrives, by the out-of-band data that was sent with it.
abbrev pub arrived : System → List ℕ → OutOfBandMessage → Received
arrived w bytes oob = record {
  bytes = bytes;
  channels = open_channels oob.channel_handles;
  regions = map (view w) oob.shmem_handles;
}

abbrev pub empty_pipes : Pipes
empty_pipes = record { main = []; dedicated = [] }

-- What reaches the receiving process on the pipe made for the message, if there is one.
abbrev pub BigDataArrives : System → Dedicated → OutOfBandMessage → List ℕ → Type 0
BigDataArrives w dedicated oob bytes =
    (h n : ℕ)
    → oob.big_data_receiver_handle ≡ some (h, n)
    → Arrives w (reserve n empty_vec) (dedicated h) bytes

not_sent :
    (xs : List ℕ) (ys : List (ℕ × ℕ)) (big : Option (ℕ × ℕ))
    → (not (is_empty xs) || not (is_empty ys) || is_some big) ≡ false
    → (xs ≡ []) × (ys ≡ []) × (big ≡ none)
not_sent [] [] none h = (refl, refl, refl)
not_sent [] [] (some b) h = cc h
not_sent [] (y ∷ ys) big h = cc h
not_sent (x ∷ xs) ys big h = cc h

-- With out-of-band data: the data is in the frame, or on the pipe made for it.
opened_sent :
    (w w' : System) (a : SendAnswers) (dedicated : Dedicated) (bytes : List ℕ)
    (ports : List OsIpcChannel) (regions : List OsIpcSharedMemory) (big : Bool)
    (oob : OutOfBandMessage)
    → Codec w w'
    → Plans a bytes ports regions big oob
    → oob.target_process_id ≡ w'.current_process_id
    → All (IsMapped w') oob.shmem_handles
    → BigDataArrives w' dedicated oob bytes
    → opened w' dedicated (if big then [] else bytes) (serialize_oob w oob)
      ≡ ok (arrived w' bytes oob)
opened_sent w w' a dedicated bytes ports regions true oob c p t m b =
    opened-oob w w' dedicated bytes [] oob c t m
      (some bytes, apart (p.apart refl), unfold data_or in refl)
  where
    apart :
        ((h : ℕ) × (oob.big_data_receiver_handle ≡ some (h, length bytes)))
        → big_data w' dedicated oob.big_data_receiver_handle ≡ ok (some bytes)
    apart (h, is) =
        ap (big_data w' dedicated) is ∙ big_data-bytes w' dedicated h bytes (b h (length bytes) is)
opened_sent w w' a dedicated bytes ports regions false oob c p t m b =
    opened-oob w w' dedicated bytes bytes oob c t m (
      none,
      ap (big_data w' dedicated) (p.in_band refl) ∙ unfold big_data in refl,
      unfold data_or in message_data-framed bytes (serialize_oob w oob),
    )

-- Without: then the data is in the frame, and nothing else was sent.
opened_plain :
    (w' : System) (a : SendAnswers) (dedicated : Dedicated) (bytes : List ℕ)
    (ports : List OsIpcChannel) (regions : List OsIpcSharedMemory) (big : Bool)
    (oob : OutOfBandMessage)
    → Plans a bytes ports regions big oob
    → needs_to_be_sent oob ≡ false
    → opened w' dedicated (if big then [] else bytes) [] ≡ ok (arrived w' bytes oob)
unfolding needs_to_be_sent open_channels
opened_plain w' a dedicated bytes ports regions true oob p none_sent =
    let (_, _, no_big) =
      not_sent oob.channel_handles oob.shmem_handles oob.big_data_receiver_handle none_sent in
    let (h, is_big) = p.apart refl in absurd (cc (no_big, is_big))
opened_plain w' a dedicated bytes ports regions false oob p none_sent =
    let (channels, shmems, _) =
      not_sent oob.channel_handles oob.shmem_handles oob.big_data_receiver_handle none_sent in
    opened-data w' dedicated bytes
    ∙ ap (λ (m : Received). ok m)
        (ap (λ hs. record { bytes = bytes; channels = open_channels hs; regions = [] })
            (sym channels)
          ∙ ap
              (λ hs. record {
                bytes = bytes;
                channels = open_channels oob.channel_handles;
                regions = map (view w') hs;
              })
              (sym shmems))

-- The message in the frame that was written, opened by the process that it is for.
opened_written :
    (w w' : System) (a : SendAnswers) (dedicated : Dedicated) (bytes : List ℕ)
    (ports : List OsIpcChannel) (regions : List OsIpcSharedMemory) (big : Bool)
    (oob : OutOfBandMessage)
    → Codec w w'
    → a.server_process_id ≡ gives w'.current_process_id
    → Plans a bytes ports regions big oob
    → All (IsMapped w') oob.shmem_handles
    → BigDataArrives w' dedicated oob bytes
    → opened w' dedicated (if big then [] else bytes) (oob_bytes_of w oob)
      ≡ ok (arrived w' bytes oob)
unfolding oob_bytes_of
opened_written w w' a dedicated bytes ports regions big oob c named p m b =
    elim (Bool-cases (needs_to_be_sent oob)) [
      | inl some_sent ↦ rw some_sent (
          opened_sent w w' a dedicated bytes ports regions big oob c p (target (p.target some_sent))
            m b)
      | inr none_sent ↦
          rw none_sent (opened_plain w' a dedicated bytes ports regions big oob p none_sent)
    ]
  where
    target :
        a.server_process_id ≡ gives oob.target_process_id
        → oob.target_process_id ≡ w'.current_process_id
    target t = cc (t, named)

-- The pipe of its own carries the data, if there is one.
dedicated_data :
    (w w' : System) (a : SendAnswers) (dedicated : Dedicated) (bytes : List ℕ)
    (ports : List OsIpcChannel) (regions : List OsIpcSharedMemory) (big : Bool)
    (oob : OutOfBandMessage) (pipes : Pipes)
    → Plans a bytes ports regions big oob
    → Written w bytes big oob empty_pipes pipes
    → BigDataArrives w' dedicated oob pipes.dedicated
    → BigDataArrives w' dedicated oob bytes
dedicated_data w w' a dedicated bytes ports regions true oob pipes p written b h n is =
    subst (Arrives w' (reserve n empty_vec) (dedicated h)) written.dedicated_is (b h n is)
dedicated_data w w' a dedicated bytes ports regions false oob pipes p written b h n is =
    absurd (cc (p.in_band refl, is))

-- A message that has been sent is received as it was sent, in whatever chunks the kernel reads it, and
-- whatever follows it in the pipe: the data, a channel for each handle that was duplicated for the
-- receiving process, and a view of each region. It is supposed that bincode is inverted by its
-- counterpart, that the receiver's process is the one the system names for the pipe, that the regions
-- can be mapped, and that the pipe made for the data, if any, brings it.
pub recv-send_windows :
    (w w' : System) (a : SendAnswers) (bytes : List ℕ) (ports : List OsIpcChannel)
    (regions : List OsIpcSharedMemory) (pipes : Pipes) (big : Bool) (oob : OutOfBandMessage)
    (dedicated : Dedicated) (turns : List Turn) (x : WinHandle) (v : Vec) (stream rest : List ℕ)
    → Codec w w'
    → a.server_process_id ≡ gives w'.current_process_id
    → send w a bytes ports regions empty_pipes ≡ (pipes, ok tt)
    → prepare w a bytes ports regions ≡ ok (big, oob)
    → All (IsMapped w') oob.shmem_handles
    → BigDataArrives w' dedicated oob pipes.dedicated
    → Arrives w' v turns stream
    → length v.bytes ≤ v.capacity
    → v.bytes ++ stream ≡ pipes.main ++ rest
    → (left : Vec) × (recv w' dedicated turns (record { reader = idle_reader x v none })
        ≡ (record { reader = idle_reader x left none }, ok (arrived w' bytes oob)))
unfolding recv receive_message
recv-send_windows w w' a bytes ports regions pipes big oob dedicated turns x v stream rest c named
      sent prepared mapped big_arrives arrives fits is =
    (r.left, ap (λ (o : MessageReader × Result WinError Received). (held o.0, o.1)) r.returned)
  where
    held : MessageReader → OsIpcReceiver
    held reader = record { reader = reader }

    plans : Plans a bytes ports regions big oob
    plans = prepare-Plans w a bytes ports regions big oob prepared

    planned_written :
        ((plan : Bool × OutOfBandMessage) × (prepare w a bytes ports regions ≡ ok plan)
          × Written w bytes plan.0 plan.1 empty_pipes pipes)
        → Written w bytes big oob empty_pipes pipes
    planned_written (plan, prepared', written) =
        let same : plan ≡ (big, oob) = cc (prepared, prepared') in
        subst (λ (p : Bool × OutOfBandMessage). Written w bytes p.0 p.1 empty_pipes pipes) same
          written

    written : Written w bytes big oob empty_pipes pipes
    written = planned_written (send-Written w a bytes ports regions empty_pipes pipes sent)

    r :
        Receives w' dedicated blocking turns x v none
          (full_message (if big then [] else bytes) (oob_bytes_of w oob))
          stream
          (arrived w' bytes oob)
    r =
        receive_loop-Receives w' dedicated blocking turns x v none stream
          (if big then [] else bytes) (oob_bytes_of w oob) rest (arrived w' bytes oob) arrives fits
          written.fits
          (opened_written w w' a dedicated bytes ports regions big oob c named plans mapped (
            dedicated_data w w' a dedicated bytes ports regions big oob pipes plans written
              big_arrives))
          (is ∙ ap (λ bs. bs ++ rest) written.main_is)
