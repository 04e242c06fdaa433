-- ===== src/Windows/ReceiverSet/Delivery.antt =====
-- What `select` reports for a reader whose buffer holds several messages: all of them, in order, and
-- the part of a further one stays in the buffer.
use ipc_channel.Base.{
  ℕ, zero, suc, ◌≤◌, ◌<◌, ◌≡◌, refl, ap, ◌∙◌, Option, none, some, List, [], ◌∷◌, ◌++◌, map,
  append_assoc, arith, length, concat, All, length-append, Result, on_ok, chain, ok,
}
use ipc_channel.Windows.System.{WinError, System}
use ipc_channel.Windows.Handle.{WinHandle}
use ipc_channel.Windows.Message.{full_message, from_bytes}
use ipc_channel.Windows.Message.Framing.{Fits, length-full_message}
use ipc_channel.Windows.Reader.{MessageReader, ReadFile, issued, start_read}
use ipc_channel.Windows.Receiver.{Received, Dedicated, get_message}
use ipc_channel.Windows.Receiver.Framing.{idle_reader, opened, get_message-framed}
use ipc_channel.Windows.Receiver.Reassembly.{IsStarted, started_read}
use ipc_channel.Windows.ReceiverSet.{
  OsIpcReceiverSet, OsIpcSelectionResult, more, drain_messages, data_results, reinstate, serve,
  data_received,
}

-- A message in the buffer, with what the receiver makes of it.
pub record Frame : Type 0 where
  pub in_band : List ℕ
  pub oob : List ℕ
  pub received : Received

abbrev pub frame_bytes : Frame → List ℕ
frame_bytes f = full_message f.in_band f.oob

pub record Opens (w : System) (dedicated : Dedicated) (f : Frame) : Type 0 where
  pub fits : Fits f.in_band f.oob
  pub is : opened w dedicated f.in_band f.oob ≡ ok f.received

abbrev pub holding : WinHandle → ℕ → Option ℕ → List ℕ → MessageReader
holding x n id bytes = idle_reader x (record { bytes = bytes; capacity = n }) id

drain_messages-frames :
    (w : System) (dedicated : Dedicated) (fuel : ℕ) (fs : List Frame) (tail : List ℕ)
    (x : WinHandle) (n : ℕ) (id : Option ℕ)
    → length fs < fuel
    → All (Opens w dedicated) fs
    → from_bytes tail ≡ none
    → drain_messages w dedicated fuel (holding x n id (concat (map frame_bytes fs) ++ tail))
      ≡ (holding x n id tail, ok (map (λ f. f.received) fs))
unfolding drain_messages
drain_messages-frames w dedicated zero fs tail x n id k h e = absurd (omega arith)
drain_messages-frames w dedicated (suc fuel) [] tail x n id k h e =
    ap
      (λ (o : MessageReader × Result WinError (Option Received)).
        chain o (more λ r'. drain_messages w dedicated fuel r'))
      nothing_more
  where
    nothing_more : get_message w dedicated (holding x n id tail) ≡ (holding x n id tail, ok none)
    nothing_more = unfold get_message in rw (get_message, e) refl
drain_messages-frames w dedicated (suc fuel) (f ∷ fs) tail x n id k (h, hs) e =
    ap
      (λ (o : MessageReader × Result WinError (Option Received)).
        chain o (more λ r'. drain_messages w dedicated fuel r'))
      first
    ∙ ap
        (λ (o : MessageReader × Result WinError (List Received)).
          chain o λ r ms. (r, ok (f.received ∷ ms)))
        (drain_messages-frames w dedicated fuel fs tail x n id (omega arith) hs e)
  where
    rest : List ℕ
    rest = concat (map frame_bytes fs) ++ tail

    first :
        get_message w dedicated
          (holding x n id ((frame_bytes f ++ concat (map frame_bytes fs)) ++ tail))
        ≡ (holding x n id rest, ok (some f.received))
    first =
        ap (λ bs. get_message w dedicated (holding x n id bs))
          (append_assoc (frame_bytes f) (concat (map frame_bytes fs)) tail)
        ∙ get_message-framed w dedicated f.in_band f.oob rest x n id f.received h.fits h.is

-- A message takes at least a byte, so there are not more messages than bytes.
messages-le-bytes :
    (fs : List Frame) (tail : List ℕ) → length fs ≤ length (concat (map frame_bytes fs) ++ tail)
messages-le-bytes [] tail = omega arith
messages-le-bytes (f ∷ fs) tail = omega (
  arith,
  messages-le-bytes fs tail,
  length-full_message f.in_band f.oob,
  length-append (frame_bytes f) (concat (map frame_bytes fs)),
  length-append (concat (map frame_bytes fs)) tail,
  length-append (frame_bytes f ++ concat (map frame_bytes fs)) tail,
)

data_results-some :
    (id : ℕ) (ms : List Received) → data_results (some id) ms ≡ ok (map (data_received id) ms)
unfolding data_results
data_results-some id [] = refl
data_results-some id (m ∷ ms) = rw (data_results-some id ms) refl

-- A reader whose buffer holds messages, and a part of a further one, is served: its messages are
-- reported in order under its identifier, and it goes back to the set with the rest in its buffer and
-- a new read in progress, if the read starts.
pub serve-delivers :
    (w : System) (dedicated : Dedicated) (answer : ReadFile) (s : OsIpcReceiverSet) (x : WinHandle)
    (n id : ℕ) (fs : List Frame) (tail : List ℕ)
    → All (Opens w dedicated) fs
    → from_bytes tail ≡ none
    → IsStarted w answer
    → serve w dedicated answer s (holding x n (some id) (concat (map frame_bytes fs) ++ tail)) ≡ (
      record s { readers = s.readers ++ (issued w (holding x n (some id) tail) ∷ []) },
      ok (map (data_received id) (map (λ f. f.received) fs)),
    )
unfolding serve reinstate
serve-delivers w dedicated answer s x n id fs tail h e started =
    ap drained (
      drain_messages-frames w dedicated (suc (length bytes)) fs tail x n (some id)
        (omega (arith, messages-le-bytes fs tail)) h e)
    ∙ ap
        (λ (r : Result WinError (List OsIpcSelectionResult)).
          on_ok s r
            λ results. reinstate s results (start_read w answer (holding x n (some id) tail)))
        (data_results-some id messages)
    ∙ ap (reinstate s (map (data_received id) messages))
        (started_read w answer x (record { bytes = tail; capacity = n }) (some id) started)
  where
    bytes : List ℕ
    bytes = concat (map frame_bytes fs) ++ tail

    messages : List Received
    messages = map (λ f. f.received) fs

    drained :
        MessageReader × Result WinError (List Received)
        → OsIpcReceiverSet × Result WinError (List OsIpcSelectionResult)
    drained o = on_ok s o.1 λ ms.
        on_ok s (data_results o.0.entry_id ms)
          λ results. reinstate s results (start_read w answer o.0)
