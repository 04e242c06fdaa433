-- ===== src/Windows/Receiver/Framing.antt =====
-- `get_message` on a buffer that starts with a frame, and on one that holds a part of it.
use ipc_channel.Base.{
  ℕ, ◌<◌, ◌≡◌, refl, ap, Option, none, some, List, [], ◌∷◌, ◌++◌, append-nil, arith, ◌==◌,
  if◌then◌else◌, ==_refl, ==_false, length, drop, length-append, Result, ◌>>=◌, ok, drop-append,
}
use ipc_channel.Windows.System.{WinError, System}
use ipc_channel.Windows.Handle.{WinHandle}
use ipc_channel.Windows.Message.{full_message, size, oob_data}
use ipc_channel.Windows.Message.Framing.{
  Fits, framed, length-full_message, from_bytes-full_message, from_bytes_partial,
}
use ipc_channel.Windows.Reader.{Vec, MessageReader}
use ipc_channel.Windows.Receiver.{
  Received, Dedicated, open_message, drain, take_message, get_message,
}

-- A reader without a read in progress.
abbrev pub idle_reader : WinHandle → Vec → Option ℕ → MessageReader
idle_reader x v id = record { handle = x; read_buf = v; async = none; entry_id = id }

-- What the receiver makes of a frame.
unfoldable pub opened : System → Dedicated → List ℕ → List ℕ → Result WinError Received
opened w dedicated in_band oob =
    oob_data w (framed in_band oob) >>= λ o. open_message w dedicated (framed in_band oob) o

cut_frame :
    (frame rest : List ℕ) (n : ℕ)
    → length frame ≡ n
    → (if length (frame ++ rest) == n then [] else drop n (frame ++ rest)) ≡ rest
cut_frame frame [] n h = rw (append-nil frame, h, ==_refl n) refl
cut_frame frame (x ∷ rest) n h =
    rw
      (
        ==_false (length (frame ++ (x ∷ rest))) n
            λ e. omega (arith, length-append frame (x ∷ rest)),
        drop-append n frame (x ∷ rest) h,
      )
      refl

drain_frame :
    (in_band oob rest : List ℕ) (x : WinHandle) (n : ℕ) (id : Option ℕ)
    → drain
        (size (framed in_band oob))
        (idle_reader x (record { bytes = full_message in_band oob ++ rest; capacity = n }) id)
      ≡ idle_reader x (record { bytes = rest; capacity = n }) id
unfolding drain size
drain_frame in_band oob rest x n id =
    ap (λ bs. idle_reader x (record { bytes = bs; capacity = n }) id)
      (cut_frame (full_message in_band oob) rest (size (framed in_band oob))
        (unfold size in length-full_message in_band oob))

-- A frame at the start of the buffer is taken out whole, and what follows it stays.
pub get_message-framed :
    (w : System) (dedicated : Dedicated) (in_band oob rest : List ℕ) (x : WinHandle) (n : ℕ)
    (id : Option ℕ) (received : Received)
    → Fits in_band oob
    → opened w dedicated in_band oob ≡ ok received
    → get_message w dedicated
        (idle_reader x (record { bytes = full_message in_band oob ++ rest; capacity = n }) id)
      ≡ (idle_reader x (record { bytes = rest; capacity = n }) id, ok (some received))
unfolding get_message take_message opened
get_message-framed w dedicated in_band oob rest x n id received f e =
    rw
      (
        get_message,
        from_bytes-full_message in_band oob rest f,
        take_message,
        e,
        drain_frame in_band oob rest x n id,
      )
      refl

-- Nothing is taken out before the frame is there.
pub get_message_partial :
    (w : System) (dedicated : Dedicated) (more in_band oob rest : List ℕ) (x : WinHandle) (v : Vec)
    (id : Option ℕ)
    → Fits in_band oob
    → v.bytes ++ more ≡ full_message in_band oob ++ rest
    → length v.bytes < length (full_message in_band oob)
    → get_message w dedicated (idle_reader x v id) ≡ (idle_reader x v id, ok none)
unfolding get_message
get_message_partial w dedicated more in_band oob rest x v id f e k =
    rw (get_message, from_bytes_partial v.bytes more in_band oob rest f e k) refl
