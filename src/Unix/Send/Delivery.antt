-- ===== src/Unix/Send/Delivery.antt =====
-- `send` of src/platform/unix/mod.rs as a whole: how it ends, and what is then on the wire.
use ipc_channel.Base.{
  ℕ, ℤ, ◌-◌, ◌*◌, ◌/◌, ◌^◌, ◌≤◌, ◌<◌, ◌≡◌, refl, ◌⊎◌, inl, inr, true, Option, none, some, List, [],
  ◌∷◌, ◌++◌, Result, ok, err, panic, waits, arith, leb, Bool-cases, Option-cases, length, leb→le,
  leb-false→lt,
}
use ipc_channel.Unix.Kernel.{Kernel, SendAnswer, PairAnswer, pair, no_pair, UnixError, errno}
use ipc_channel.Unix.Size.{
  get_max_fragment_size, first_fragment_size, IsBufSize, first_fragment_size_lem, downsize_bounds,
  downsize-IsBufSize,
}
use ipc_channel.Unix.Handles.{OsIpcChannel, OsIpcSharedMemory}
use ipc_channel.Unix.Send.{
  Wire, SendState, empty_wire, start, enough, send, send_fds, send_fragmented, after_single, retry,
  send_first_fragment, message_fds,
}
use ipc_channel.Unix.Send.Attempt.{push_main, send_first_fragment_cases, retry-downsize, Refused}
use ipc_channel.Unix.Send.Invariant.{Sent, Unfinished}
use ipc_channel.Unix.Send.Rounds.{send_loop-Ends, Ends}

-- A complete message: one packet with everything, or a first packet, which brings one descriptor
-- more, with the rest behind it.
abbrev pub Delivered : Kernel → List ℤ → List ℕ → Wire → Type 0
Delivered k fds bytes w =
    ((w ≡ push_main empty_wire fds (length bytes) bytes) × (length bytes ≤ get_max_fragment_size k))
    ⊎ ((rx : ℤ) × Sent k (fds ++ (rx ∷ [])) bytes (length bytes) w)

-- An incomplete message, with either list of descriptors.
abbrev pub Undelivered : Kernel → List ℤ → List ℕ → Wire → Type 0
Undelivered k fds bytes w = (w ≡ empty_wire) ⊎ ((rx : ℤ) × Unfinished k (fds ++ (rx ∷ [])) bytes w)

-- The error is one that the kernel gave for a packet, or for the socket pair.
abbrev pub IsKernelError : PairAnswer → (ℕ → SendAnswer) → UnixError → Type 0
IsKernelError pr answer e =
    ((i : ℕ) × Refused (answer i) × (e ≡ errno (answer i).error))
    ⊎ ((n : ℕ) × (pr ≡ no_pair n) × (e ≡ errno n))

abbrev pub SendEnds :
    Kernel
    → PairAnswer
    → (ℕ → SendAnswer)
    → List ℤ
    → List ℕ
    → Option (Wire × Result UnixError (Unit {0}))
    → Type 0
SendEnds k pr answer fds bytes none = ⊥
SendEnds k pr answer fds bytes (some (w, ok _)) = Delivered k fds bytes w
SendEnds k pr answer fds bytes (some (w, err e)) =
    Undelivered k fds bytes w × IsKernelError pr answer e
SendEnds k pr answer fds bytes (some (w, panic)) = ⊥
SendEnds k pr answer fds bytes (some (w, waits)) = ⊥

module _ (k : Kernel) (answer : ℕ → SendAnswer) (fds : List ℤ) (bytes : List ℕ)
    (sane : IsBufSize k.sendbuf_size) (short : length bytes < 2 ^ 63) where
  -- The loop's end is the end of `send`.
  loop-SendEnds :
      (tx rx : ℤ) (x : Option (Wire × Result UnixError (Unit {0})))
      → Ends k answer (fds ++ (rx ∷ [])) bytes sane short x
      → SendEnds k (pair tx rx) answer fds bytes x
  loop-SendEnds tx rx none h = h
  loop-SendEnds tx rx (some (w, ok _)) h = inr (rx, h)
  loop-SendEnds tx rx (some (w, err e)) h = (inr (rx, h.0), inl h.1)
  loop-SendEnds tx rx (some (w, panic)) h = h
  loop-SendEnds tx rx (some (w, waits)) h = h

  fragmented-SendEnds :
      (pr : PairAnswer) (s : SendState)
      → IsBufSize s.sendbuf_size
      → s.sendbuf_size ≤ k.sendbuf_size
      → s.byte_position ≡ 0
      → s.wire ≡ empty_wire
      → first_fragment_size s.sendbuf_size < length bytes
      → SendEnds k pr answer fds bytes (send_fragmented k pr answer (enough k bytes) fds bytes s)
  unfolding send_fragmented
  fragmented-SendEnds (no_pair e) s b le z w lt = (inl w, inr (e, refl, refl))
  fragmented-SendEnds (pair tx rx) s b le z w lt = loop-SendEnds tx rx _ (
      send_loop-Ends k answer (fds ++ (rx ∷ [])) bytes sane short (enough k bytes) s
        (record { size = b; capped = le; within = omega arith; stage = inl (z, w, lt) })
        (omega arith))

  -- The message fits a packet that the kernel refused: an error, or fragments from a smaller buffer.
  Refused-SendEnds :
      (pr : PairAnswer)
      → length bytes ≤ get_max_fragment_size k
      → Refused (answer 0)
      → SendEnds k pr answer fds bytes (
          after_single k pr answer
            (enough k bytes)
            fds
            bytes
            (start k)
            (empty_wire, err (errno (answer 0).error)))
  unfolding after_single get_max_fragment_size
  Refused-SendEnds pr h refused =
      let max_size : get_max_fragment_size k ≡ (k.sendbuf_size - 40) / 8 * 8 =
        first_fragment_size_lem k.sendbuf_size sane in
      let le : length bytes ≤ k.sendbuf_size = omega arith in
      elim (Option-cases (retry k (errno (answer 0).error) k.sendbuf_size (length bytes))) [
        | inl q ↦ rw (q, after_single) (inl refl, inl (0, refused, refl))
        | inr (m, q) ↦
            let d = retry-downsize k _ _ _ m q in
            let b = downsize_bounds k.sendbuf_size (length bytes) m le d in
            let z = downsize-IsBufSize k.sendbuf_size (length bytes) m sane le d in
            rw (q, after_single)
              (fragmented-SendEnds pr
                (record { sendbuf_size = m; byte_position = 0; calls = 1; wire = empty_wire }) z
                (omega arith) refl refl (omega (arith, first_fragment_size_lem m z)))
      ]

  single-SendEnds :
      (pr : PairAnswer)
      → length bytes ≤ get_max_fragment_size k
      → SendEnds k pr answer fds bytes (
          after_single k pr answer
            (enough k bytes)
            fds
            bytes
            (start k)
            (send_first_fragment (answer 0) fds bytes (length bytes) empty_wire))
  unfolding after_single
  single-SendEnds pr h =
      elim (send_first_fragment_cases (answer 0) fds bytes (length bytes) empty_wire) [
        | inl q ↦ rw q (inl (refl, h))
        | inr (q, refused) ↦ rw q (Refused-SendEnds pr h refused)
      ]

  send_fds-SendEnds :
      (pr : PairAnswer) → SendEnds k pr answer fds bytes (send_fds k pr answer bytes fds)
  unfolding send_fds get_max_fragment_size
  send_fds-SendEnds pr = elim (Bool-cases (leb (length bytes) (get_max_fragment_size k))) [
    | inl le ↦ rw le (single-SendEnds pr (leb→le _ _ le))
    | inr gt ↦
        rw gt (fragmented-SendEnds pr (start k) sane (omega arith) refl refl (leb-false→lt _ _ gt))
  ]

-- With a buffer of at least 48 bytes and a message shorter than 2^63 bytes, whatever the kernel
-- answers, `send` ends, without a panic: with `Ok` when a complete message is on the wire, or with
-- an error of the kernel when no complete message is.
pub send-SendEnds :
    (k : Kernel) (pr : PairAnswer) (answer : ℕ → SendAnswer) (bytes : List ℕ)
    (channels : List OsIpcChannel) (regions : List OsIpcSharedMemory)
    → IsBufSize k.sendbuf_size
    → length bytes < 2 ^ 63
    → SendEnds k pr answer
        (message_fds channels regions)
        bytes
        (send k pr answer bytes channels regions)
unfolding send
send-SendEnds k pr answer bytes channels regions sane short =
    send_fds-SendEnds k answer (message_fds channels regions) bytes sane short pr

-- The end of a send to a kernel that takes everything.
abbrev pub Succeeds :
    Kernel → List ℤ → List ℕ → Option (Wire × Result UnixError (Unit {0})) → Type 0
Succeeds k fds bytes x = (w : Wire) × (x ≡ some (w, ok tt)) × Delivered k fds bytes w

accepted-Succeeds :
    (k : Kernel) (tx rx : ℤ) (answer : ℕ → SendAnswer) (fds : List ℤ) (bytes : List ℕ)
    (x : Option (Wire × Result UnixError (Unit {0})))
    → ((i : ℕ) → ((answer i).accepts ≡ true) × ((answer i).allocates ≡ true))
    → SendEnds k (pair tx rx) answer fds bytes x
    → Succeeds k fds bytes x
accepted-Succeeds k tx rx answer fds bytes none all h = absurd h
accepted-Succeeds k tx rx answer fds bytes (some (w, ok _)) all h = (w, refl, h)
accepted-Succeeds k tx rx answer fds bytes (some (w, err e)) all (_, inl (i, inl refused, _)) =
    cc (all i).0
accepted-Succeeds k tx rx answer fds bytes (some (w, err e)) all (_, inl (i, inr refused, _)) =
    cc (all i).1
accepted-Succeeds k tx rx answer fds bytes (some (w, err e)) all (_, inr (n, q, _)) = cc
accepted-Succeeds k tx rx answer fds bytes (some (w, panic)) all h = absurd h
accepted-Succeeds k tx rx answer fds bytes (some (w, waits)) all h = absurd h

-- A kernel that gives a socket pair and takes every packet gets the whole message, in one packet or
-- in fragments, if its buffer has at least 48 bytes and the message is shorter than 2^63.
pub send-Succeeds :
    (k : Kernel) (tx rx : ℤ) (answer : ℕ → SendAnswer) (bytes : List ℕ)
    (channels : List OsIpcChannel) (regions : List OsIpcSharedMemory)
    → IsBufSize k.sendbuf_size
    → length bytes < 2 ^ 63
    → ((i : ℕ) → ((answer i).accepts ≡ true) × ((answer i).allocates ≡ true))
    → Succeeds k
        (message_fds channels regions)
        bytes
        (send k (pair tx rx) answer bytes channels regions)
send-Succeeds k tx rx answer bytes channels regions sane short all =
    accepted-Succeeds k tx rx answer _ bytes _ all
      (send-SendEnds k (pair tx rx) answer bytes channels regions sane short)
