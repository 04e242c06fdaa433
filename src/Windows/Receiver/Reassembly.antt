-- ===== src/Windows/Receiver/Reassembly.antt =====
-- A message is received from whatever chunks the kernel reads it in.
use ipc_channel.Base.{
  ℕ, ◌+◌, ◌%◌, ◌^◌, ◌≤◌, ◌<◌, ◌≡◌, refl, sym, ap, subst, ◌∙◌, ◌⊎◌, inl, inr, Option, some, List, [],
  ◌∷◌, ◌++◌, append-nil, append_assoc, arith, ltb, ltb→lt, ltb-false→le, le→leb, ==_refl,
  Bool-cases, length, length-append, take_all, Result, chain, waits, ok,
}
use ipc_channel.Windows.System.{WinError, BlockingMode, System, new_cell, into_inner, blocking}
use ipc_channel.Windows.Handle.{WinHandle, new_handle, take_raw, take_handle}
use ipc_channel.Windows.Message.{full_message}
use ipc_channel.Windows.Message.Framing.{Fits}
use ipc_channel.Windows.Reader.{
  Vec, MessageReader, ReadFile, Wait, reserve, Outcome, take_back, room, reserve_if_full, issued,
  read_file, start_read, extend, notify_completion, fetch_async_result, read_true, read_false,
  wait_true,
}
use ipc_channel.Windows.Reader.Invariant.{reserve_if_full-room}
use ipc_channel.Windows.Receiver.{
  Turn, Received, start_and_fetch, Dedicated, get_message, next, receive_loop,
}
use ipc_channel.Windows.Receiver.Framing.{
  idle_reader, opened, get_message-framed, get_message_partial,
}

-- The read starts, at once or in the background.
abbrev pub IsStarted : System → ReadFile → Type 0
IsStarted w answer = (answer ≡ read_true) ⊎ (answer ≡ read_false w.error_io_pending)

-- The buffer after a read.
abbrev pub grown : Vec → List ℕ → Vec
grown v chunk = record (reserve_if_full v) { bytes = v.bytes ++ chunk }

-- A turn in which the kernel reads a chunk, not longer than it was asked for.
pub record Delivers (w : System) (v : Vec) (t : Turn) (chunk : List ℕ) : Type 0 where
  pub started : IsStarted w t.read
  pub later : List Wait
  pub answered :
      t.answers
      ≡ wait_true (record { internal_high = length chunk; offset = 0; written = chunk }) ∷ later
  pub fits : length chunk ≤ room (reserve_if_full v)

-- A stream that arrives chunk by chunk, from a buffer on.
pub data Arrives (w : System) : Vec → List Turn → List ℕ → Type 0 where
  nothing : {v : Vec} → Arrives w v [] []
  chunk :
      {v : Vec} {t : Turn} {turns : List Turn} {c stream : List ℕ}
      → Delivers w v t c
      → Arrives w (grown v c) turns stream
      → Arrives w v (t ∷ turns) (c ++ stream)

reserve_if_full-bytes : (v : Vec) → (reserve_if_full v).bytes ≡ v.bytes
unfolding reserve_if_full reserve
reserve_if_full-bytes v = ground arith

pub grown-fits :
    (v : Vec) (c : List ℕ)
    → length v.bytes ≤ v.capacity
    → length c ≤ room (reserve_if_full v)
    → length (grown v c).bytes ≤ (grown v c).capacity
unfolding room
grown-fits v c h k =
    omega (
      arith,
      reserve_if_full-room v h,
      length-append v.bytes c,
      ap length (reserve_if_full-bytes v),
    )

pub started_read :
    (w : System) (answer : ReadFile) (x : WinHandle) (v : Vec) (id : Option ℕ)
    → IsStarted w answer
    → start_read w answer (idle_reader x v id) ≡ (issued w (idle_reader x v id), ok tt)
unfolding start_read read_file
started_read w answer x v id (inl e) = rw e refl
started_read w answer x v id (inr e) = rw (e, ==_refl w.error_io_pending) refl

-- The bytes that the kernel has read stand behind those of the buffer.
extend_chunk :
    (u : Vec) (c : List ℕ) (x : WinHandle) (id : Option ℕ)
    → length u.bytes + length c ≤ u.capacity
    → length c < 2 ^ 32
    → extend (record { internal_high = length c; offset = 0; written = c }) (idle_reader x u id)
      ≡ (idle_reader x (record u { bytes = u.bytes ++ c }) id, ok tt)
unfolding extend
extend_chunk u c x id h k =
    let short : length c % 2 ^ 32 ≡ length c = omega arith in
    rw (short, le→leb (length u.bytes + length c) u.capacity h, take_all (length c) c (omega arith))
      refl

-- A turn adds its chunk to the buffer.
pub start_and_fetch-grown :
    (w : System) (mode : BlockingMode) (t : Turn) (c : List ℕ) (x : WinHandle) (v : Vec)
    (id : Option ℕ)
    → length v.bytes ≤ v.capacity
    → Delivers w v t c
    → start_and_fetch w mode t (idle_reader x v id) ≡ (idle_reader x (grown v c) id, ok tt)
unfolding start_and_fetch fetch_async_result notify_completion take_back into_inner room issued
    take_handle take_raw new_cell new_handle
start_and_fetch-grown w mode t c x v id h d =
    ap (λ (o : Outcome). chain o λ r _. fetch_async_result w t.answers mode r)
      (started_read w t.read x v id d.started)
    ∙ ap (λ answers. fetch_async_result w answers mode (issued w (idle_reader x v id))) d.answered
    ∙ extend_chunk (reserve_if_full v) c x id (omega (arith, d.fits, reserve_if_full-room v h))
        (omega (arith, d.fits))
    ∙ ap (λ bs. (idle_reader x (record (reserve_if_full v) { bytes = bs ++ c }) id, ok tt))
        (reserve_if_full-bytes v)

append_prefix :
    (xs ys us vs : List ℕ)
    → xs ++ us ≡ ys ++ vs
    → length ys ≤ length xs
    → (zs : List ℕ) × (xs ≡ ys ++ zs)
append_prefix xs [] us vs e h = (xs, refl)
append_prefix [] (y ∷ ys) us vs e h = absurd (omega arith)
append_prefix (x ∷ xs) (y ∷ ys) us vs e h =
    let (zs, f) = append_prefix xs ys us vs (cc e) (omega arith) in (zs, cc (e, f))

-- How a receiving call ends: which part of the stream it has read, and what is left in the buffer.
pub record Receives (w : System) (dedicated : Dedicated) (mode : BlockingMode) (turns : List Turn)
    (x : WinHandle) (v : Vec) (id : Option ℕ) (frame stream : List ℕ) (received : Received)
    : Type 0 where
  pub read : List ℕ
  pub later : List ℕ
  pub left : Vec
  pub returned :
      receive_loop w dedicated mode turns (idle_reader x v id)
      ≡ (idle_reader x left id, ok received)
  pub stream_is : stream ≡ read ++ later
  pub left_is : v.bytes ++ read ≡ frame ++ left.bytes

abbrev Got : Type 0
Got = MessageReader × Result WinError (Option Received)

-- The turns that are left when the message is there are not needed.
enough-Receives :
    (w : System) (dedicated : Dedicated) (mode : BlockingMode) (turns : List Turn) (x : WinHandle)
    (v : Vec) (id : Option ℕ) (stream in_band oob rest : List ℕ) (received : Received)
    → Fits in_band oob
    → opened w dedicated in_band oob ≡ ok received
    → v.bytes ++ stream ≡ full_message in_band oob ++ rest
    → length (full_message in_band oob) ≤ length v.bytes
    → Receives w dedicated mode turns x v id (full_message in_band oob) stream received
unfolding receive_loop
enough-Receives w dedicated mode turns x v id stream in_band oob rest received f o e k = record {
  read = [];
  later = stream;
  left = left;
  returned = subst Returned (sym v_is) (whole turns);
  stream_is = refl;
  left_is = append-nil v.bytes ∙ prefix.1;
}
  where
    prefix : (zs : List ℕ) × (v.bytes ≡ full_message in_band oob ++ zs)
    prefix = append_prefix v.bytes (full_message in_band oob) stream rest e k

    left : Vec
    left = record { bytes = prefix.0; capacity = v.capacity }

    Returned : Vec → Type 0
    Returned u =
        receive_loop w dedicated mode turns (idle_reader x u id)
        ≡ (idle_reader x left id, ok received)

    v_is : v ≡ record { bytes = full_message in_band oob ++ prefix.0; capacity = v.capacity }
    v_is = ap (λ bs. record { bytes = bs; capacity = v.capacity }) prefix.1

    taken :
        get_message w dedicated (
          idle_reader x
            (record { bytes = full_message in_band oob ++ prefix.0; capacity = v.capacity })
            id)
        ≡ (idle_reader x left id, ok (some received))
    taken = get_message-framed w dedicated in_band oob prefix.0 x v.capacity id received f o

    whole :
        (turns : List Turn)
        → receive_loop w dedicated mode turns (
            idle_reader x
              (record { bytes = full_message in_band oob ++ prefix.0; capacity = v.capacity })
              id)
          ≡ (idle_reader x left id, ok received)
    whole [] = ap (λ (o : Got). chain o (next λ r. (r, waits))) taken
    whole (t ∷ turns) =
        ap
          (λ (o : Got). chain o (
            next λ r.
              chain (start_and_fetch w mode t r)
                λ r' _. receive_loop w dedicated blocking turns r'))
          taken

-- Once a whole message has arrived, a receiving call returns it, in whatever chunks it comes and
-- wherever the chunks end; what was read behind it stays in the buffer, in order.
pub receive_loop-Receives :
    (w : System) (dedicated : Dedicated) (mode : BlockingMode) (turns : List Turn) (x : WinHandle)
    (v : Vec) (id : Option ℕ) (stream in_band oob rest : List ℕ) (received : Received)
    → Arrives w v turns stream
    → length v.bytes ≤ v.capacity
    → Fits in_band oob
    → opened w dedicated in_band oob ≡ ok received
    → v.bytes ++ stream ≡ full_message in_band oob ++ rest
    → Receives w dedicated mode turns x v id (full_message in_band oob) stream received
unfolding receive_loop
receive_loop-Receives w dedicated mode [] x v id stream in_band oob rest received nothing h f o e =
    enough-Receives w dedicated mode [] x v id [] in_band oob rest received f o e (
      omega (
        arith,
        ap length e,
        length-append v.bytes [],
        length-append (full_message in_band oob) rest,
      ))
receive_loop-Receives w dedicated mode (t ∷ turns) x v id stream in_band oob rest received
      (chunk {c = c} {stream = later} d a) h f o e =
    elim (Bool-cases (ltb (length v.bytes) (length (full_message in_band oob)))) [
      | inr enough ↦
          enough-Receives w dedicated mode (t ∷ turns) x v id (c ++ later) in_band oob rest received
            f o e (ltb-false→le (length v.bytes) (length (full_message in_band oob)) enough)
      | inl short ↦ step (ltb→lt (length v.bytes) (length (full_message in_band oob)) short) (
          receive_loop-Receives w dedicated blocking turns x (grown v c) id later in_band oob rest
            received a (grown-fits v c h d.fits) f o (append_assoc v.bytes c later ∙ e))
    ]
  where
    frame : List ℕ
    frame = full_message in_band oob

    go : MessageReader → MessageReader × Result WinError Received
    go r = chain (start_and_fetch w mode t r) λ r' _. receive_loop w dedicated blocking turns r'

    step :
        length v.bytes < length frame
        → Receives w dedicated blocking turns x (grown v c) id frame later received
        → Receives w dedicated mode (t ∷ turns) x v id frame (c ++ later) received
    step short r = record {
      read = c ++ r.read;
      later = r.later;
      left = r.left;
      returned =
          ap (λ (o : Got). chain o (next go))
            (get_message_partial w dedicated (c ++ later) in_band oob rest x v id f e short)
          ∙ ap (λ (o : Outcome). chain o λ r' _. receive_loop w dedicated blocking turns r')
              (start_and_fetch-grown w mode t c x v id h d)
          ∙ r.returned;
      stream_is = ap (λ s. c ++ s) r.stream_is ∙ sym (append_assoc c r.read r.later);
      left_is = sym (append_assoc v.bytes c r.read) ∙ r.left_is;
    }
