-- ===== src/Unix/Send/Attempt.antt =====
-- What one attempt to send a fragment comes to, of `send` in src/platform/unix/mod.rs.
use ipc_channel.Base.{
  false, ℕ, ℤ, ◌≡◌, ◌<◌, suc, ◌-◌, ◌⊎◌, inl, inr, List, [], ◌∷◌, ◌++◌, ok, err, arith, length, some,
  Option-cases,
}
use ipc_channel.Unix.Kernel.{Kernel, SendAnswer, UnixError, errno}
use ipc_channel.Unix.Size.{downsize}
use ipc_channel.Unix.Send.{
  Wire, SendState, continue, stop, send_first_fragment, send_followup_fragment, after_fragment,
  retry,
}

abbrev pub push_main : Wire → List ℤ → ℕ → List ℕ → Wire
push_main w fds len payload = record w {
  main = w.main ++ (record { fds = fds; total = len; payload = payload } ∷ []);
}

abbrev pub push_dedicated : Wire → List ℕ → Wire
push_dedicated w payload = record w { dedicated = w.dedicated ++ (payload ∷ []) }

-- The kernel did not take the packet, or there was no memory for its descriptors.
abbrev pub Refused : SendAnswer → Type 0
Refused a = (a.accepts ≡ false) ⊎ (a.allocates ≡ false)

pub send_first_fragment_cases :
    (a : SendAnswer) (fds : List ℤ) (bytes : List ℕ) (len : ℕ) (w : Wire)
    → (send_first_fragment a fds bytes len w ≡ (push_main w fds len bytes, ok tt))
      ⊎ ((send_first_fragment a fds bytes len w ≡ (w, err (errno a.error))) × Refused a)
unfolding send_first_fragment
send_first_fragment_cases a fds bytes len w = ground arith

pub send_followup_fragment_cases :
    (a : SendAnswer) (bytes : List ℕ) (w : Wire)
    → 0 < length bytes
    → (send_followup_fragment a bytes w ≡ (push_dedicated w bytes, ok tt))
      ⊎ ((send_followup_fragment a bytes w ≡ (w, err (errno a.error))) × Refused a)
unfolding send_followup_fragment
send_followup_fragment_cases a bytes w h = ground arith

pub retry-downsize :
    (k : Kernel) (e : UnixError) (n sent m : ℕ)
    → retry k e n sent ≡ some m
    → downsize n sent ≡ some m
unfolding retry
retry-downsize k e n sent m h = ground arith

-- After a refusal the loop stops with the error, or goes on with the smaller buffer.
pub after_refusal :
    (k : Kernel) (s : SendState) (end : ℕ) (w : Wire) (e : UnixError)
    → (after_fragment k s end (w, err e) ≡ stop w (err e))
      ⊎ ((m : ℕ) × (downsize s.sendbuf_size (end - s.byte_position) ≡ some m)
          × (after_fragment k s end (w, err e)
              ≡ continue (record s { sendbuf_size = m; calls = suc s.calls; wire = w })))
unfolding after_fragment
after_refusal k s end w e = elim (Option-cases (retry k e s.sendbuf_size (end - s.byte_position))) [
  | inl q ↦ inl (rw (q, after_fragment))
  | inr (m, q) ↦ inr (m, retry-downsize k e _ _ m q, rw (q, after_fragment))
]
