-- ===== src/Unix/Send.antt =====
-- `OsIpcSender::send` of src/platform/unix/mod.rs: a message goes out in one packet, or in a first
-- packet on the sender's socket and the rest on a socket made for the message. The kernel's answers
-- are a sequence, one for each `sendmsg` or `send`; what it accepted is the `Wire`.
pub mod Attempt
pub mod Invariant
pub mod Rounds
pub mod Delivery
use ipc_channel.Base.{
  ℕ, zero, suc, ℤ, ◌+◌, ◌-◌, ◌*◌, ◌≡◌, refl, Bool, true, false, ◌&&◌, Option, none, some, List, [],
  ◌∷◌, ◌++◌, map, Result, ok, err, panic, waits, ltb, leb, ◌==◌, min, length, take, slice,
  if◌then◌else◌, add_usize,
}
use ipc_channel.Unix.Kernel.{
  Kernel, SendAnswer, PairAnswer, pair, no_pair, UnixError, errno, is_errno,
}
use ipc_channel.Unix.Size.{
  header_size, fragment_size, first_fragment_size, get_max_fragment_size, downsize,
}
use ipc_channel.Unix.Cmsg.{fd_size}
use ipc_channel.Unix.Handles.{OsIpcChannel, OsIpcSharedMemory, channel_fd}

-- The packet with the header: the descriptors, the length of the whole message, the payload.
pub record FirstPacket : Type 0 where
  pub fds : List ℤ
  pub total : ℕ
  pub payload : List ℕ

-- What the kernel has accepted: on the sender's socket, and on the message's own socket.
pub record Wire : Type 0 where
  pub main : List FirstPacket
  pub dedicated : List (List ℕ)

abbrev pub empty_wire : Wire
empty_wire = record { main = []; dedicated = [] }

-- `result > 0` after a call that sent `n` bytes if the kernel accepted it, or else returned -1.
abbrev pub outcome : SendAnswer → ℕ → Result UnixError (Unit {0})
outcome a n = if a.accepts && ltb 0 n then ok tt else err (errno a.error)

unfoldable pub send_first_fragment :
    SendAnswer → List ℤ → List ℕ → ℕ → Wire → Wire × Result UnixError (Unit {0})
send_first_fragment a fds data_buffer len w =
    let cmsg_length = length fds * fd_size in
    let packet : FirstPacket = record { fds = fds; total = len; payload = data_buffer } in
    let w' : Wire = if a.accepts then record w { main = w.main ++ (packet ∷ []) } else w in
    if ltb 0 cmsg_length && (if a.allocates then false else true)
    then (w, err (errno a.error))
    else (w', outcome a (header_size + length data_buffer))

unfoldable pub send_followup_fragment :
    SendAnswer → List ℕ → Wire → Wire × Result UnixError (Unit {0})
send_followup_fragment a data_buffer w =
    let w' : Wire =
      if a.accepts then record w { dedicated = w.dedicated ++ (data_buffer ∷ []) } else w in
    (w', outcome a (length data_buffer))

-- The variables of the loop, with the count of the kernel's answers used and what it accepted.
pub record SendState : Type 0 where
  pub sendbuf_size : ℕ
  pub byte_position : ℕ
  pub calls : ℕ
  pub wire : Wire

pub data Step : Type 0 where
  continue : SendState → Step
  stop : Wire → Result UnixError (Unit {0}) → Step

-- ENOBUFS, and a fragment that can still be made smaller: the new buffer size.
unfoldable pub retry : Kernel → UnixError → ℕ → ℕ → Option ℕ
retry k error sendbuf_size sent_size =
    if is_errno error k.enobufs then downsize sendbuf_size sent_size else none

-- The end of the loop's body, after an attempt to send up to `end_byte_position`.
unfoldable pub after_fragment : Kernel → SendState → ℕ → Wire × Result UnixError (Unit {0}) → Step
after_fragment k s end_byte_position (w, ok _) =
    continue (record s { byte_position = end_byte_position; calls = suc s.calls; wire = w })
after_fragment k s end_byte_position (w, err error) =
    elim (retry k error s.sendbuf_size (end_byte_position - s.byte_position)) [
      | some m ↦ continue (record s { sendbuf_size = m; calls = suc s.calls; wire = w })
      | none ↦ stop w (err error)
    ]
after_fragment k s end_byte_position (w, panic) = stop w panic
after_fragment k s end_byte_position (w, waits) = stop w waits

-- A slice with its end past the data panics.
unfoldable pub send_first : Kernel → (ℕ → SendAnswer) → List ℤ → List ℕ → SendState → Step
send_first k answer fds bytes s =
    let end_byte_position = first_fragment_size s.sendbuf_size in
    let attempt =
      send_first_fragment (answer s.calls) fds (take end_byte_position bytes) (length bytes)
        s.wire in
    if leb end_byte_position (length bytes)
    then after_fragment k s end_byte_position attempt
    else stop s.wire panic

unfoldable pub send_followup : Kernel → (ℕ → SendAnswer) → List ℕ → SendState → Step
send_followup k answer bytes s =
    let end_byte_position =
      min (add_usize s.byte_position (fragment_size s.sendbuf_size)) (length bytes) in
    let attempt =
      send_followup_fragment (answer s.calls) (slice s.byte_position end_byte_position bytes)
        s.wire in
    if leb s.byte_position end_byte_position
    then after_fragment k s end_byte_position attempt
    else stop s.wire panic

-- One round of `while byte_position < data.len()`.
unfoldable pub round : Kernel → (ℕ → SendAnswer) → List ℤ → List ℕ → SendState → Step
round k answer fds bytes s =
    if ltb s.byte_position (length bytes)
    then (if s.byte_position == 0
        then send_first k answer fds bytes s
        else send_followup k answer bytes s)
    else stop s.wire (ok tt)

-- `none` is a loop that has not ended after so many rounds.
unfoldable pub send_loop :
    Kernel
    → (ℕ → SendAnswer)
    → List ℤ
    → List ℕ
    → ℕ
    → SendState
    → Option (Wire × Result UnixError (Unit {0}))
send_loop k answer fds bytes zero s = none
send_loop k answer fds bytes (suc fuel) s = elim (round k answer fds bytes s) [
  | continue s' ↦ send_loop k answer fds bytes fuel s'
  | stop w r ↦ some (w, r)
]

-- The second half of `send`: a socket for the rest of the message, whose receiving end goes with
-- the first packet.
unfoldable pub send_fragmented :
    Kernel
    → PairAnswer
    → (ℕ → SendAnswer)
    → ℕ
    → List ℤ
    → List ℕ
    → SendState
    → Option (Wire × Result UnixError (Unit {0}))
send_fragmented k (no_pair e) answer fuel fds bytes s = some (s.wire, err (errno e))
send_fragmented k (pair tx rx) answer fuel fds bytes s =
    send_loop k answer (fds ++ (rx ∷ [])) bytes fuel s

unfoldable pub message_fds : List OsIpcChannel → List OsIpcSharedMemory → List ℤ
message_fds channels regions = map channel_fd channels ++ map (λ m. m.store) regions

-- After the attempt to send the message in a single packet.
unfoldable pub after_single :
    Kernel
    → PairAnswer
    → (ℕ → SendAnswer)
    → ℕ
    → List ℤ
    → List ℕ
    → SendState
    → Wire × Result UnixError (Unit {0})
    → Option (Wire × Result UnixError (Unit {0}))
after_single k pr answer fuel fds bytes s (w, ok _) = some (w, ok tt)
after_single k pr answer fuel fds bytes s (w, err error) =
    elim (retry k error s.sendbuf_size (length bytes)) [
      | none ↦ some (w, err error)
      | some m ↦
          send_fragmented k pr answer fuel fds bytes
            (record { sendbuf_size = m; byte_position = 0; calls = suc s.calls; wire = w })
    ]
after_single k pr answer fuel fds bytes s (w, panic) = some (w, panic)
after_single k pr answer fuel fds bytes s (w, waits) = some (w, waits)

abbrev pub start : Kernel → SendState
start k = record { sendbuf_size = k.sendbuf_size; byte_position = 0; calls = 0; wire = empty_wire }

-- Each round sends a byte at least or shrinks the buffer, so this many are enough.
abbrev pub enough : Kernel → List ℕ → ℕ
enough k bytes = suc (length bytes + k.sendbuf_size)

unfoldable pub send_fds :
    Kernel
    → PairAnswer
    → (ℕ → SendAnswer)
    → List ℕ
    → List ℤ
    → Option (Wire × Result UnixError (Unit {0}))
send_fds k pr answer bytes fds =
    let single = send_first_fragment (answer 0) fds bytes (length bytes) empty_wire in
    if leb (length bytes) (get_max_fragment_size k)
    then after_single k pr answer (enough k bytes) fds bytes (start k) single
    else send_fragmented k pr answer (enough k bytes) fds bytes (start k)

-- `OsIpcSender::send`
unfoldable pub send :
    Kernel
    → PairAnswer
    → (ℕ → SendAnswer)
    → List ℕ
    → List OsIpcChannel
    → List OsIpcSharedMemory
    → Option (Wire × Result UnixError (Unit {0}))
send k pr answer bytes channels regions = send_fds k pr answer bytes (message_fds channels regions)
