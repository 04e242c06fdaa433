-- ===== src/Unix/Recv/RoundTrip.antt =====
-- `send` and `recv` of src/platform/unix/mod.rs at the two ends of one socket.
use ipc_channel.Base.{
  ℕ, ℤ, ◌^◌, ◌<◌, ◌≡◌, subst, ap, sym, inl, inr, some, List, [], ◌∷◌, ◌++◌, map, ok, arith, length,
  take,
}
use ipc_channel.Unix.Kernel.{Kernel}
use ipc_channel.Unix.Size.{first_fragment_size, get_max_fragment_size, IsBufSize}
use ipc_channel.Unix.Cmsg.{max_fds_in_cmsg}
use ipc_channel.Unix.Handles.{OsIpcChannel, OsIpcSharedMemory, channel_fd}
use ipc_channel.Unix.Send.{Wire, FirstPacket, message_fds}
use ipc_channel.Unix.Send.Delivery.{Delivered}
use ipc_channel.Unix.Recv.{BlockingMode, Received, CmsgAnswers, FollowupAnswer, fragment, recv}
use ipc_channel.Unix.Recv.Cmsg.{Answers}
use ipc_channel.Unix.Recv.Sorting.{IsSocket, stores}
use ipc_channel.Unix.Kernel.{SendAnswer, PairAnswer}
use ipc_channel.Unix.Send.{send}
use ipc_channel.Unix.Send.Delivery.{SendEnds, send-SendEnds}
use ipc_channel.Unix.Recv.Paths.{Transfers, Installs, message, recv_single, recv_fragments}

-- What the wire looks like from the other end: `r` is what `recvmsg` makes of the first packet, and
-- the socket that came with it, if one did, gives the follow-up packets, whole and in order.
pub record Carries (k : Kernel) (install : ℤ → ℤ) (dedicated : ℤ → List FollowupAnswer)
    (fds : List ℤ) (w : Wire) (r : Received) : Type 0 where
  pub packet : FirstPacket
  pub main_is : w.main ≡ packet ∷ []
  pub transfers : Transfers k install packet r
  pub rest :
      (rx : ℤ)
      → packet.fds ≡ fds ++ (rx ∷ [])
      → IsSocket k (install rx)
        × ((later : List FollowupAnswer) × (dedicated (install rx)
              ≡ map fragment w.dedicated ++ later))

-- The message on the wire is the message that `recv` returns.
recv-Delivered :
    (ks k : Kernel) (install : ℤ → ℤ) (cs : List ℤ) (regions ms : List OsIpcSharedMemory)
    (bytes : List ℕ) (w : Wire) (a : CmsgAnswers) (r : Received) (mode : BlockingMode)
    (dedicated : ℤ → List FollowupAnswer)
    → IsBufSize k.sendbuf_size
    → length bytes < 2 ^ 63
    → ks.sendbuf_size ≡ k.sendbuf_size
    → length (cs ++ stores regions) < max_fds_in_cmsg
    → Delivered ks (cs ++ stores regions) bytes w
    → Carries k install dedicated (cs ++ stores regions) w r
    → Installs k install cs regions ms
    → Answers a r
    → recv k a dedicated mode ≡ ok (message bytes (map install cs) ms)
recv-Delivered ks k install cs regions ms bytes w a r mode dedicated sane short same few
      (inl (whole, le)) c i answers =
    recv_single k install cs regions ms i a r mode dedicated answers sane bytes short c.packet
      c.transfers (cc (c.main_is, whole, ap (λ x. x.main) whole)) (omega (arith, same_max))
      (omega arith)
  where
    same_max : get_max_fragment_size ks ≡ get_max_fragment_size k
    same_max = unfold get_max_fragment_size in ap first_fragment_size same
recv-Delivered ks k install cs regions ms bytes w a r mode dedicated sane short same few
      (inr (rx, sent)) c i answers =
    let packet : c.packet ≡ record {
      fds = (cs ++ stores regions) ++ (rx ∷ []);
      total = length bytes;
      payload = take sent.cut bytes;
    } =
      cc (c.main_is, sent.main_is) in
    let behind = c.rest rx (ap (λ p. p.fds) packet) in
    recv_fragments k install cs regions ms i a r mode dedicated answers sane bytes short c.packet w
      ks rx behind.1.0 c.transfers c.main_is same sent behind.0 behind.1.1 few

-- A send that succeeds, whatever the kernel refused on the way, is received as it was sent: the
-- bytes, the channels and the shared memory, each kind in its order. At most 63 descriptors are
-- sent; both processes have the same buffer size, of at least 48 bytes; the message is shorter than
-- 2^63 bytes; the system calls of the receiver succeed, and packets arrive whole and in order.
pub recv-send :
    (ks k : Kernel) (pr : PairAnswer) (answer : ℕ → SendAnswer) (bytes : List ℕ)
    (channels : List OsIpcChannel) (regions : List OsIpcSharedMemory) (install : ℤ → ℤ)
    (ms : List OsIpcSharedMemory) (w : Wire) (a : CmsgAnswers) (r : Received) (mode : BlockingMode)
    (dedicated : ℤ → List FollowupAnswer)
    → IsBufSize k.sendbuf_size
    → length bytes < 2 ^ 63
    → ks.sendbuf_size ≡ k.sendbuf_size
    → length (message_fds channels regions) < max_fds_in_cmsg
    → send ks pr answer bytes channels regions ≡ some (w, ok tt)
    → Carries k install dedicated (message_fds channels regions) w r
    → Installs k install (map channel_fd channels) regions ms
    → Answers a r
    → recv k a dedicated mode ≡ ok (message bytes (map install (map channel_fd channels)) ms)
unfolding message_fds
recv-send ks k pr answer bytes channels regions install ms w a r mode dedicated sane short same few
      sent carries installs answers =
    recv-Delivered ks k install (map channel_fd channels) regions ms bytes w a r mode dedicated sane
      short same few
      (subst (SendEnds ks pr answer (message_fds channels regions) bytes) sent
        (send-SendEnds ks pr answer bytes channels regions (subst IsBufSize (sym same) sane) short))
      carries installs answers
