-- ===== src/Unix/Recv/Paths.antt =====
-- The two paths through `recv` of src/platform/unix/mod.rs, for a packet that a send put on the wire.
use ipc_channel.Base.{
  ℕ, ℤ, ◌+◌, ◌^◌, ◌≤◌, ◌<◌, ◌≡◌, refl, subst, max, ap, sym, ◌∙◌, List, [], ◌∷◌, ◌++◌, map,
  map-append, append-nil, append_assoc, ok, arith, ==_refl, ==_false, length, take, take_all,
  concat, All, length-append, length-take, le→leb, sub_usize, sub_usize_lem,
}
use ipc_channel.Unix.Kernel.{Kernel}
use ipc_channel.Unix.Size.{
  header_size, fragment_size, first_fragment_size, get_max_fragment_size, IsBufSize,
}
use ipc_channel.Unix.Cmsg.{max_fds_in_cmsg}
use ipc_channel.Unix.Handles.{OsIpcSharedMemory, OsOpaqueIpcChannel, to_receiver}
use ipc_channel.Unix.Send.{Wire, FirstPacket}
use ipc_channel.Unix.Send.Invariant.{Sent, Fits}
use ipc_channel.Unix.Recv.{
  BlockingMode, Received, CmsgAnswers, FollowupAnswer, fragment, Handles, Message, recv,
  recv_message, recv_rest, reassemble, sort_fds, unix_cmsg_new,
}
use ipc_channel.Unix.Recv.Cmsg.{HasControl, Answers, cmsg_recv-ok, take-channel_length}
use ipc_channel.Unix.Recv.Reassembly.{reassemble-joins}
use ipc_channel.Unix.Recv.Sorting.{from_fd, IsSocket, Maps, stores, sort_fds-sorts, pop-append}

-- What `recvmsg` documents of a packet: the buffers get what they have room for, and the
-- descriptors arrive as new ones of the receiving process, the sender's `fd` as `install fd`.
pub record Transfers (k : Kernel) (install : ℤ → ℤ) (p : FirstPacket) (r : Received) : Type 0 where
  pub header : r.total_size ≡ p.total
  pub body : r.payload ≡ take (get_max_fragment_size k) p.payload
  pub counted : r.bytes_read ≡ header_size + length r.payload
  pub installed : r.fds ≡ map install (take max_fds_in_cmsg p.fds)
  pub control : HasControl r

-- The message as it arrives: the channels are those of `xs`, not yet converted.
abbrev pub message : List ℕ → List ℤ → List OsIpcSharedMemory → Message
message bytes xs ms = record {
  bytes = bytes;
  handles = record { channels = map from_fd xs; shared_memory_regions = ms };
}

module _ (k : Kernel) (a : CmsgAnswers) (r : Received) (mode : BlockingMode)
    (dedicated : ℤ → List FollowupAnswer) (answers : Answers a r) (control : HasControl r) where
  -- Past the system calls, `recv` is the two paths on sorted handles.
  recv_lem :
      (h : Handles) (buffer : List ℕ)
      → r.payload ≡ buffer
      → r.bytes_read ≡ header_size + length buffer
      → length buffer < 2 ^ 63
      → sort_fds k r.fds (record { channels = []; shared_memory_regions = [] }) ≡ ok h
      → recv k a dedicated mode ≡ recv_message k dedicated r.total_size buffer h
  unfolding recv unix_cmsg_new
  recv_lem h buffer e n short s =
      let size : sub_usize r.bytes_read header_size ≡ length buffer =
        sub_usize_lem r.bytes_read 8 (omega arith) (omega arith) ∙ omega arith in
      rw (
        cmsg_recv-ok k a r mode answers,
        answers.allocated,
        take-channel_length r control,
        s,
        e,
        size,
        take_all (length buffer) buffer (omega arith),
      )

-- The receiving process sees the sent channels as sockets, and the sent memory as `ms`.
pub record Installs (k : Kernel) (install : ℤ → ℤ) (cs : List ℤ)
    (regions ms : List OsIpcSharedMemory) : Type 0 where
  pub sockets : All (IsSocket k) (map install cs)
  pub named : map install (stores regions) ≡ stores ms
  pub mapped : All (Maps k) ms

module _ (k : Kernel) (install : ℤ → ℤ) (cs : List ℤ) (regions ms : List OsIpcSharedMemory)
    (installs : Installs k install cs regions ms) where
  sorted :
      (ys : List ℤ)
      → All (IsSocket k) (map install ys)
      → sort_fds k
          (map install ((cs ++ stores regions) ++ ys))
          (record { channels = []; shared_memory_regions = [] })
        ≡ ok (record {
          channels = map from_fd (map install cs) ++ map from_fd (map install ys);
          shared_memory_regions = ms;
        })
  sorted ys h =
      ap (λ fds. sort_fds k fds (record { channels = []; shared_memory_regions = [] }))
        (map-append install (cs ++ stores regions) ys
          ∙ ap (λ zs. zs ++ map install ys) (map-append install cs (stores regions))
          ∙ append_assoc (map install cs) (map install (stores regions)) (map install ys)
          ∙ ap (λ zs. map install cs ++ (zs ++ map install ys)) installs.named)
      ∙ sort_fds-sorts k (map install cs) ms (map install ys) installs.sockets installs.mapped h

  module _ (a : CmsgAnswers) (r : Received) (mode : BlockingMode)
      (dedicated : ℤ → List FollowupAnswer) (answers : Answers a r)
      (sane : IsBufSize k.sendbuf_size) (bytes : List ℕ) (short : length bytes < 2 ^ 63) where
    recv_rest_lem :
        (xs : List OsOpaqueIpcChannel) (fd : ℤ) (buffer : List ℕ) (total : ℕ)
        → length buffer ≤ total
        → (whole : List ℕ)
        → reassemble k total (max (get_max_fragment_size k) total) (dedicated fd) buffer ≡ ok whole
        → recv_rest k dedicated total buffer
            (record { channels = xs ++ (from_fd fd ∷ []); shared_memory_regions = ms })
          ≡ ok (record {
            bytes = whole;
            handles = record { channels = xs; shared_memory_regions = ms };
          })
    unfolding recv_rest to_receiver
    recv_rest_lem xs fd buffer total le whole e =
        rw (pop-append xs (from_fd fd), recv_rest, le→leb (length buffer) total le, e)

    -- A packet that holds the whole message.
    pub recv_single :
        (p : FirstPacket)
        → Transfers k install p r
        → p ≡ record { fds = cs ++ stores regions; total = length bytes; payload = bytes }
        → length bytes ≤ get_max_fragment_size k
        → length (cs ++ stores regions) ≤ max_fds_in_cmsg
        → recv k a dedicated mode ≡ ok (message bytes (map install cs) ms)
    unfolding recv_message
    recv_single p t e le few =
        recv_lem k a r mode dedicated answers t.control
          (record { channels = map from_fd (map install cs); shared_memory_regions = ms }) bytes
          body (t.counted ∙ ap (λ xs. header_size + length xs) body) short
          (ap (λ xs. sort_fds k xs (record { channels = []; shared_memory_regions = [] })) fds_are
            ∙ sorted_all)
        ∙ rw (t.header ∙ ap (λ q. q.total) e, recv_message, ==_refl (length bytes))
      where
        body : r.payload ≡ bytes
        body =
            t.body
            ∙ ap (λ q. take (get_max_fragment_size k) q.payload) e
            ∙ take_all (get_max_fragment_size k) bytes le

        fds_are : r.fds ≡ map install (cs ++ stores regions)
        fds_are =
            t.installed
            ∙ ap (λ q. map install (take max_fds_in_cmsg q.fds)) e
            ∙ ap (map install) (take_all max_fds_in_cmsg (cs ++ stores regions) few)

        sorted_all :
            sort_fds k
              (map install (cs ++ stores regions))
              (record { channels = []; shared_memory_regions = [] })
            ≡ ok (record { channels = map from_fd (map install cs); shared_memory_regions = ms })
        sorted_all =
            rw (← append-nil (cs ++ stores regions))
              (sorted [] tt ∙ rw (append-nil (map from_fd (map install cs))) refl)

    -- A first packet with the rest of the message behind it. One of the 64 places for descriptors is
    -- the message's own socket.
    pub recv_fragments :
        (p : FirstPacket) (w : Wire) (ks : Kernel) (rx : ℤ) (later : List FollowupAnswer)
        → Transfers k install p r
        → w.main ≡ p ∷ []
        → ks.sendbuf_size ≡ k.sendbuf_size
        → Sent ks ((cs ++ stores regions) ++ (rx ∷ [])) bytes (length bytes) w
        → IsSocket k (install rx)
        → dedicated (install rx) ≡ map fragment w.dedicated ++ later
        → length (cs ++ stores regions) < max_fds_in_cmsg
        → recv k a dedicated mode ≡ ok (message bytes (map install cs) ms)
    unfolding recv_message
    recv_fragments p w ks rx later t main same sent socket feed few =
        recv_lem k a r mode dedicated answers t.control
          (record {
            channels = map from_fd (map install cs) ++ (from_fd (install rx) ∷ []);
            shared_memory_regions = ms;
          })
          head body (t.counted ∙ ap (λ xs. header_size + length xs) body)
          (omega (arith, head_length))
          (ap (λ xs. sort_fds k xs (record { channels = []; shared_memory_regions = [] })) fds_are
            ∙ sorted (rx ∷ []) (socket, tt))
        ∙ rw
            (
              t.header ∙ ap (λ q. q.total) e,
              recv_message,
              ==_false (length bytes) (length head) (λ z. omega (arith, head_length)),
            )
            (recv_rest_lem (map from_fd (map install cs)) (install rx) head (length bytes)
              (omega (arith, head_length)) bytes joined)
      where
        head : List ℕ
        head = take sent.cut bytes

        head_length : length head ≡ sent.cut
        head_length = omega (arith, length-take sent.cut bytes)

        e : p ≡ record {
          fds = (cs ++ stores regions) ++ (rx ∷ []);
          total = length bytes;
          payload = head;
        }
        e = cc (main, sent.main_is)

        same_max : get_max_fragment_size ks ≡ get_max_fragment_size k
        same_max = unfold get_max_fragment_size in ap first_fragment_size same

        body : r.payload ≡ head
        body =
            t.body
            ∙ ap (λ q. take (get_max_fragment_size k) q.payload) e
            ∙ take_all (get_max_fragment_size k) head
                (omega (arith, head_length, sent.in_buffer, same_max))

        fds_are : r.fds ≡ map install ((cs ++ stores regions) ++ (rx ∷ []))
        fds_are =
            t.installed
            ∙ ap (λ q. map install (take max_fds_in_cmsg q.fds)) e
            ∙ ap (map install) (
                take_all max_fds_in_cmsg ((cs ++ stores regions) ++ (rx ∷ []))
                  (omega (arith, length-append (cs ++ stores regions) (rx ∷ []))))

        fitting : All (Fits k) w.dedicated
        fitting =
            subst (λ n. All (λ q. (0 < length q) × (length q ≤ fragment_size n)) w.dedicated) same
              sent.fitting

        all_bytes : head ++ concat w.dedicated ≡ bytes
        all_bytes = sent.joined ∙ take_all (length bytes) bytes (omega arith)

        joined :
            reassemble k
              (length bytes)
              (max (get_max_fragment_size k) (length bytes))
              (dedicated (install rx))
              head
            ≡ ok bytes
        joined = rw feed (
            reassemble-joins k sane (length bytes) (max (get_max_fragment_size k) (length bytes))
              w.dedicated later head fitting
              (sym (length-append head (concat w.dedicated)) ∙ ap length all_bytes) short
              (omega arith)
            ∙ ap ok all_bytes)
