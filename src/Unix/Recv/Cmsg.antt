-- ===== src/Unix/Recv/Cmsg.antt =====
-- `UnixCmsg::recv` of src/platform/unix/mod.rs: its modes, its errors, and how many descriptors
-- `recv` reads from the control buffer.
use ipc_channel.Base.{
  ℕ, zero, suc, lt→ltb, ℤ, ◌*◌, ◌≤◌, ◌<◌, ◌≡◌, ◌≢◌, refl, none, List, [], ◌∷◌, ok, arith, length,
  take, take_all,
}
use ipc_channel.Unix.Kernel.{Kernel}
use ipc_channel.Unix.Cmsg.{
  fd_size, max_fds_in_cmsg, cmsg_len, channel_length, channel_length-cmsg_len,
}
use ipc_channel.Unix.Recv.{
  BlockingMode, blocking, nonblocking, timeout, Received, received, CmsgAnswers, ready, cmsg_recv,
}

-- What `recvmsg` documents: the control buffer has the descriptors that were installed, and is empty
-- if there were none.
pub record HasControl (r : Received) : Type 0 where
  pub none_sent : r.fds ≡ [] → r.controllen ≡ 0
  pub some_sent :
      0 < length r.fds → (r.controllen ≢ 0) × (r.cmsg_length ≡ cmsg_len (length r.fds * fd_size))
  pub bounded : length r.fds ≤ max_fds_in_cmsg

take_nil {ℓ} : {A : Type ℓ} (n : ℕ) → take {A = A} n [] ≡ []
take_nil zero = refl
take_nil (suc n) = refl

-- `recv` reads each descriptor, and nothing behind the last.
pub take-channel_length :
    (r : Received) → HasControl r → take (channel_length r.controllen r.cmsg_length) r.fds ≡ r.fds
take-channel_length r h = go r.fds refl
  where
    go :
        (fds : List ℤ)
        → r.fds ≡ fds
        → take (channel_length r.controllen r.cmsg_length) r.fds ≡ r.fds
    go [] e = rw (e, take_nil)
    go (x ∷ xs) e =
        let some_fd : 0 < length r.fds = rw e (omega arith) in
        let header = h.some_sent some_fd in
        let count : channel_length r.controllen r.cmsg_length ≡ length r.fds =
          rw header.1
            (channel_length-cmsg_len r.controllen (length r.fds) header.0 (omega arith)) in
        rw count (take_all (length r.fds) r.fds (omega arith))

-- Where nothing stands in the way, `cmsg_recv` gives the packet, in each of the three modes.
pub record Answers (a : CmsgAnswers) (r : Received) : Type 0 where
  pub allocated : a.malloc_failed ≡ none
  pub set : a.set_failed ≡ none
  pub polled : a.polled ≡ ready
  pub packet : a.recvmsg ≡ received r
  pub nonempty : 0 < r.bytes_read
  pub cleared : a.clear_failed ≡ none

pub cmsg_recv-ok :
    (k : Kernel) (a : CmsgAnswers) (r : Received) (mode : BlockingMode)
    → Answers a r
    → cmsg_recv k a mode ≡ ok r
unfolding cmsg_recv
cmsg_recv-ok k a r blocking h = rw (h.packet, lt→ltb 0 r.bytes_read h.nonempty)
cmsg_recv-ok k a r nonblocking h = ground arith
cmsg_recv-ok k a r (timeout d) h = rw (h.polled, h.packet, lt→ltb 0 r.bytes_read h.nonempty)
