-- ===== src/Windows/RoundTrip.antt =====
-- From `send` to `recv` of src/platform/windows/mod.rs: a message arrives as it was sent, on one pipe
-- or on two, in whatever chunks the kernel reads it.
pub mod Delivery
use ipc_channel.Base.{
  ℕ, ◌≤◌, ◌<◌, ◌≡◌, refl, ap, ◌∙◌, ◌≢◌, inl, inr, false, Option, none, some, List, [], ◌∷◌, ◌++◌,
  map, append-nil, append_assoc, arith, ltb, lt→ltb, ltb-false, ltb-false→le, ==_refl, ==_false,
  Bool-cases, length, All, length-append, Result, ◌>>=◌, ok,
}
use ipc_channel.Windows.System.{WinError, System, OobTuple, blocking}
use ipc_channel.Windows.Handle.{WinHandle, new_handle}
use ipc_channel.Windows.Message.{OutOfBandMessage, serialize_oob, deserialize_oob, oob_data}
use ipc_channel.Windows.Message.Framing.{framed, message_data-framed, oob_bytes-framed}
use ipc_channel.Windows.SharedMemory.{OsIpcSharedMemory, from_handle}
use ipc_channel.Windows.Reader.{Vec, empty_vec, reserve, new_reader}
use ipc_channel.Windows.Receiver.{
  Turn, receiver_from_handle, raw_next, raw_loop, read_raw_sized, recv_raw, open_channels,
  open_regions, Dedicated, big_data, data_or, open_message,
}
use ipc_channel.Windows.Receiver.Framing.{idle_reader, opened}
use ipc_channel.Windows.Receiver.Reassembly.{
  Arrives, grown, grown-fits, start_and_fetch-grown, nothing, chunk,
}

-- What bincode documents, between the process that sends and the one that receives.
pub record Codec (w w' : System) : Type 0 where
  pub inverts : (t : OobTuple) → w'.deserialize (w.serialize t) ≡ some t
  pub nonempty : (t : OobTuple) → 0 < length (w.serialize t)

nil_of : {A : Type 0} (xs : List A) → length xs ≡ 0 → xs ≡ []
nil_of [] h = refl
nil_of (x ∷ xs) h = absurd (omega arith)

-- The bytes of a pipe made for a message are read in full.
raw_loop-bytes :
    (w : System) (n : ℕ) (turns : List Turn) (x : WinHandle) (v : Vec) (id : Option ℕ)
    (stream : List ℕ)
    → Arrives w v turns stream
    → length v.bytes ≤ v.capacity
    → length (v.bytes ++ stream) ≡ n
    → raw_loop w n turns (idle_reader x v id) ≡ ok (v.bytes ++ stream)
unfolding raw_loop
raw_loop-bytes w n [] x v id stream nothing h e =
    rw (ltb-false (length v.bytes) n (omega (arith, length-append v.bytes [])), append-nil v.bytes)
      refl
raw_loop-bytes w n (t ∷ turns) x v id stream (chunk {c = c} {stream = later} d a) h e =
    elim (Bool-cases (ltb (length v.bytes) n)) [
      | inr full ↦ rw (full, nil_of (c ++ later) (past full), append-nil v.bytes) refl
      | inl more ↦ rw more (
          ap (raw_next w λ r. raw_loop w n turns r)
            (start_and_fetch-grown w blocking t c x v id h d)
          ∙ raw_loop-bytes w n turns x (grown v c) id later a (grown-fits v c h d.fits)
              (ap length (append_assoc v.bytes c later) ∙ e)
          ∙ ap ok (append_assoc v.bytes c later))
    ]
  where
    past : ltb (length v.bytes) n ≡ false → length (c ++ later) ≡ 0
    past full =
        omega (arith, ltb-false→le (length v.bytes) n full, length-append v.bytes (c ++ later), e)

reserve_empty-bytes : (n : ℕ) → (reserve n empty_vec).bytes ≡ []
unfolding reserve
reserve_empty-bytes n = ground arith

pub big_data-bytes :
    (w : System) (dedicated : Dedicated) (h : ℕ) (bytes : List ℕ)
    → Arrives w (reserve (length bytes) empty_vec) (dedicated h) bytes
    → big_data w dedicated (some (h, length bytes)) ≡ ok (some bytes)
unfolding big_data recv_raw read_raw_sized receiver_from_handle new_reader
big_data-bytes w dedicated h bytes a =
    ap (λ (r : Result WinError (List ℕ)). r >>= λ bs. ok (some bs))
      (raw_loop-bytes w (length bytes) (dedicated h) (new_handle h)
          (reserve (length bytes) empty_vec) none bytes a (omega (arith, ap length none_yet))
          (ap (λ bs. length (bs ++ bytes)) none_yet)
        ∙ ap (λ bs. ok (bs ++ bytes)) none_yet)
  where
    none_yet : (reserve (length bytes) empty_vec).bytes ≡ []
    none_yet = reserve_empty-bytes (length bytes)

-- The view of a region that arrives.
abbrev pub view : System → ℕ × ℕ → OsIpcSharedMemory
view w (h, n) = record { handle = new_handle h; ptr = w.map_view_of_file h; length = n }

abbrev pub IsMapped : System → ℕ × ℕ → Type 0
IsMapped w (h, n) = w.map_view_of_file h ≢ 0

open_regions-views :
    (w : System) (handles : List (ℕ × ℕ))
    → All (IsMapped w) handles
    → open_regions w handles ≡ ok (map (view w) handles)
unfolding open_regions from_handle
open_regions-views w [] h = refl
open_regions-views w ((x, n) ∷ handles) (m, h) =
    rw (open_regions, ==_false (w.map_view_of_file x) 0 m, open_regions-views w handles h) refl

-- Without out-of-band data, the data is all there is.
pub opened-data :
    (w : System) (dedicated : Dedicated) (bytes : List ℕ)
    → opened w dedicated bytes [] ≡ ok (record { bytes = bytes; channels = []; regions = [] })
unfolding opened oob_data open_message
opened-data w dedicated bytes = rw (message_data-framed bytes []) refl

-- The out-of-band message is read back, by the process that it is for.
oob_data-serialized :
    (w w' : System) (in_band : List ℕ) (oob : OutOfBandMessage)
    → Codec w w'
    → oob.target_process_id ≡ w'.current_process_id
    → oob_data w' (framed in_band (serialize_oob w oob)) ≡ ok (some oob)
unfolding oob_data deserialize_oob serialize_oob
oob_data-serialized w w' in_band oob c t =
    rw
      (
        oob_data,
        lt→ltb 0 (length (w.serialize (tuple oob))) (c.nonempty (tuple oob)),
        oob_bytes-framed in_band (w.serialize (tuple oob)),
        c.inverts (tuple oob),
        t,
        ==_refl w'.current_process_id,
      )
      refl
  where
    tuple : OutOfBandMessage → OobTuple
    tuple m = (m.target_process_id, m.channel_handles, m.shmem_handles, m.big_data_receiver_handle)

-- With it, the message is what was put together before it was written.
pub opened-oob :
    (w w' : System) (dedicated : Dedicated) (bytes in_band : List ℕ) (oob : OutOfBandMessage)
    → Codec w w'
    → oob.target_process_id ≡ w'.current_process_id
    → All (IsMapped w') oob.shmem_handles
    → ((big : Option (List ℕ)) × (big_data w' dedicated oob.big_data_receiver_handle ≡ ok big)
        × (data_or (framed in_band (serialize_oob w oob)) big ≡ bytes))
    → opened w' dedicated in_band (serialize_oob w oob)
      ≡ ok (record {
        bytes = bytes;
        channels = open_channels oob.channel_handles;
        regions = map (view w') oob.shmem_handles;
      })
unfolding opened open_message
opened-oob w w' dedicated bytes in_band oob c t m (big, got, is) =
    rw
      (oob_data-serialized w w' in_band oob c t, open_regions-views w' oob.shmem_handles m, got, is)
      refl
