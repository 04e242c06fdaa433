-- ===== src/Unix/Send/Invariant.antt =====
-- The loop of `send` in src/platform/unix/mod.rs: what holds before each round.
use ipc_channel.Base.{
  ℕ, ℤ, ◌+◌, ◌-◌, ◌^◌, ◌≤◌, ◌<◌, ◌≡◌, sym, ap, ◌∙◌, ◌⊎◌, List, [], ◌∷◌, ◌++◌, Result, ok, err,
  panic, waits, arith, length, take, slice, concat, All, All-append, length-slice,
  take-append-slice, concat-append, append-nil, append_assoc,
}
use ipc_channel.Unix.Kernel.{Kernel, SendAnswer, UnixError, errno}
use ipc_channel.Unix.Size.{
  fragment_size, first_fragment_size, get_max_fragment_size, IsBufSize, first_fragment_size_mono,
}
use ipc_channel.Unix.Send.{Wire, SendState, Step, continue, stop, empty_wire}
use ipc_channel.Unix.Send.Attempt.{push_main, push_dedicated, Refused}

-- A fragment that the receiver's buffer has room for, and that is not empty.
abbrev pub Fits : Kernel → List ℕ → Type 0
Fits k p = (0 < length p) × (length p ≤ fragment_size k.sendbuf_size)

-- The bytes up to `pos` are on the wire: a first packet with some but not all of the message, and
-- follow-up packets that go on where it ends.
pub record Sent (k : Kernel) (fds : List ℤ) (bytes : List ℕ) (pos : ℕ) (w : Wire) : Type 0 where
  pub cut : ℕ
  pub main_is : w.main ≡ record { fds = fds; total = length bytes; payload = take cut bytes } ∷ []
  pub nonempty : 0 < cut
  pub partial : cut < length bytes
  pub in_buffer : cut ≤ get_max_fragment_size k
  pub joined : take cut bytes ++ concat w.dedicated ≡ take pos bytes
  pub fitting : All (Fits k) w.dedicated

-- What holds before a round.
pub record Progress (k : Kernel) (fds : List ℤ) (bytes : List ℕ) (s : SendState) : Type 0 where
  pub size : IsBufSize s.sendbuf_size
  pub capped : s.sendbuf_size ≤ k.sendbuf_size
  pub within : s.byte_position ≤ length bytes
  pub stage :
      ((s.byte_position ≡ 0)
        × (s.wire ≡ empty_wire)
        × (first_fragment_size s.sendbuf_size < length bytes))
      ⊎ ((0 < s.byte_position) × Sent k fds bytes s.byte_position s.wire)

abbrev pub measure : List ℕ → SendState → ℕ
measure bytes s = (length bytes - s.byte_position) + s.sendbuf_size

-- The descriptors and bytes of an unfinished message: nothing, or less than all of it.
abbrev pub Unfinished : Kernel → List ℤ → List ℕ → Wire → Type 0
Unfinished k fds bytes w =
    (w ≡ empty_wire) ⊎ ((pos : ℕ) × (pos < length bytes) × Sent k fds bytes pos w)

-- How the loop may end: with `Ok` only when all bytes are on the wire, with an error only of the
-- kernel and with the message unfinished, and never by a panic.
abbrev pub Outcome :
    Kernel → (ℕ → SendAnswer) → List ℤ → List ℕ → Wire → Result UnixError (Unit {0}) → Type 0
Outcome k answer fds bytes w (ok _) = Sent k fds bytes (length bytes) w
Outcome k answer fds bytes w (err e) =
    Unfinished k fds bytes w × ((i : ℕ) × Refused (answer i) × (e ≡ errno (answer i).error))
Outcome k answer fds bytes w panic = ⊥
Outcome k answer fds bytes w waits = ⊥

-- What a round comes to: the invariant and a smaller measure, or an end.
abbrev pub Ensures : Kernel → (ℕ → SendAnswer) → List ℤ → List ℕ → ℕ → Step → Type 0
Ensures k answer fds bytes n (continue s) = Progress k fds bytes s × (measure bytes s < n)
Ensures k answer fds bytes n (stop w r) = Outcome k answer fds bytes w r

module _ (k : Kernel) (fds : List ℤ) (bytes : List ℕ) (sane : IsBufSize k.sendbuf_size)
    (short : length bytes < 2 ^ 63) where
  pub smaller_first :
      (m n : ℕ)
      → IsBufSize m
      → IsBufSize n
      → m ≤ n
      → first_fragment_size n < length bytes
      → first_fragment_size m < length bytes
  smaller_first m n hm hn h lt = omega (arith, first_fragment_size_mono m n hm hn h)

  pub first-Sent :
      (w : Wire) (n : ℕ)
      → w ≡ empty_wire
      → 0 < n
      → n < length bytes
      → n ≤ get_max_fragment_size k
      → Sent k fds bytes n (push_main w fds (length bytes) (take n bytes))
  first-Sent w n e h lt le = record {
    cut = n;
    main_is = rw e;
    nonempty = h;
    partial = lt;
    in_buffer = le;
    joined = rw e (append-nil _);
    fitting = rw e tt;
  }

  -- The next slice goes on where the wire ends.
  pub followup-Sent :
      (w : Wire) (i j : ℕ)
      → Sent k fds bytes i w
      → i < j
      → j ≤ length bytes
      → j - i ≤ fragment_size k.sendbuf_size
      → Sent k fds bytes j (push_dedicated w (slice i j bytes))
  followup-Sent w i j t lt le fit = record {
    cut = t.cut;
    main_is = t.main_is;
    nonempty = t.nonempty;
    partial = t.partial;
    in_buffer = t.in_buffer;
    joined =
        ap (◌++◌ (take t.cut bytes)) (
          concat-append w.dedicated (slice i j bytes ∷ [])
          ∙ ap (◌++◌ (concat w.dedicated)) (append-nil (slice i j bytes)))
        ∙ sym (append_assoc (take t.cut bytes) (concat w.dedicated) (slice i j bytes))
        ∙ ap (λ xs. xs ++ slice i j bytes) t.joined
        ∙ take-append-slice i j bytes (omega arith);
    fitting =
        All-append (Fits k) w.dedicated (slice i j bytes ∷ []) t.fitting
          ((omega (arith, sized), omega (arith, sized)), tt);
  }
    where
      sized : length (slice i j bytes) ≡ j - i
      sized = length-slice i j bytes (omega arith) le
