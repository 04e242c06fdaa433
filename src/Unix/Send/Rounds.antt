-- ===== src/Unix/Send/Rounds.antt =====
-- The loop of `send` in src/platform/unix/mod.rs: each round keeps the invariant, and the loop ends.
use ipc_channel.Base.{
  ℕ, zero, suc, ℤ, ◌+◌, ◌-◌, ◌*◌, ◌/◌, ◌^◌, ◌≤◌, ◌<◌, ◌≡◌, refl, subst, inl, inr, Option, none,
  some, List, Result, err, arith, ltb, ==_iff, ==_false, min, Bool-cases, length, take, slice,
  length-slice, add_usize, add_usize_lem, ltb→lt, ltb-false→le, le→leb,
}
use ipc_channel.Unix.Kernel.{Kernel, SendAnswer, UnixError, errno}
use ipc_channel.Unix.Size.{
  fragment_size, first_fragment_size, get_max_fragment_size, IsBufSize, fragment_size_lem,
  first_fragment_size_lem, first_fragment_size_mono, fragment_size_mono, downsize_bounds,
  downsize-IsBufSize,
}
use ipc_channel.Unix.Send.{
  Wire, SendState, Step, continue, stop, empty_wire, after_fragment, send_first, send_followup,
  round, send_loop,
}
use ipc_channel.Unix.Send.Attempt.{
  send_first_fragment_cases, send_followup_fragment_cases, after_refusal, Refused,
}
use ipc_channel.Unix.Send.Invariant.{
  Sent, Progress, Outcome, Ensures, measure, smaller_first, first-Sent, followup-Sent,
}

module _ (k : Kernel) (answer : ℕ → SendAnswer) (fds : List ℤ) (bytes : List ℕ)
    (sane : IsBufSize k.sendbuf_size) (short : length bytes < 2 ^ 63) where
  -- A refused attempt leaves the wire as it was; a retry has a smaller buffer.
  Refused-Ensures :
      (s : SendState) (end : ℕ)
      → Progress k fds bytes s
      → s.byte_position < length bytes
      → Refused (answer s.calls)
      → end - s.byte_position ≤ s.sendbuf_size
      → Ensures k answer fds bytes
          (measure bytes s)
          (after_fragment k s end (s.wire, err (errno (answer s.calls).error)))
  Refused-Ensures s end v lt refused h =
      elim (after_refusal k s end s.wire (errno (answer s.calls).error)) [
        | inl q ↦ rw q (
          elim v.stage [ inl (_, w, _) ↦ inl w | inr (_, t) ↦ inr (s.byte_position, lt, t) ],
          (s.calls, refused, refl),
        )
        | inr (m, d, q) ↦
            let b = downsize_bounds s.sendbuf_size (end - s.byte_position) m h d in
            let z = downsize-IsBufSize s.sendbuf_size (end - s.byte_position) m v.size h d in
            rw q (
              record {
                size = z;
                capped = omega arith;
                within = v.within;
                stage = elim v.stage [
                  | inl (p, w, l) ↦ inl (
                    p,
                    w,
                    smaller_first k fds bytes sane short m s.sendbuf_size z v.size (omega arith) l,
                  )
                  | inr t ↦ inr t
                ];
              },
              omega arith,
            )
      ]

  first-Ensures :
      (s : SendState)
      → Progress k fds bytes s
      → s.byte_position ≡ 0
      → s.wire ≡ empty_wire
      → first_fragment_size s.sendbuf_size < length bytes
      → Ensures k answer fds bytes (measure bytes s) (send_first k answer fds bytes s)
  unfolding send_first after_fragment get_max_fragment_size
  first-Ensures s v z e lt =
      let n = first_fragment_size s.sendbuf_size in
      let a = answer s.calls in
      let sized : n ≡ (s.sendbuf_size - 40) / 8 * 8 =
        first_fragment_size_lem s.sendbuf_size v.size in
      rw (le→leb n (length bytes) (omega arith))
        (elim (send_first_fragment_cases a fds (take n bytes) (length bytes) s.wire) [
          | inl q ↦ rw q (
            record {
              size = v.size;
              capped = v.capped;
              within = omega arith;
              stage = inr (
                omega arith,
                first-Sent k fds bytes sane short s.wire n e (omega arith) lt
                    (first_fragment_size_mono s.sendbuf_size k.sendbuf_size v.size sane v.capped),
              );
            },
            omega arith,
          )
          | inr (q, refused) ↦ rw q (Refused-Ensures s n v (omega arith) refused (omega arith))
        ])

  followup-Ensures :
      (s : SendState)
      → Progress k fds bytes s
      → Sent k fds bytes s.byte_position s.wire
      → s.byte_position < length bytes
      → Ensures k answer fds bytes (measure bytes s) (send_followup k answer bytes s)
  unfolding send_followup after_fragment
  followup-Ensures s v t lt =
      let frag = fragment_size s.sendbuf_size in
      let size : frag ≡ s.sendbuf_size - 32 = fragment_size_lem s.sendbuf_size v.size in
      let mono : frag ≤ fragment_size k.sendbuf_size =
        fragment_size_mono s.sendbuf_size k.sendbuf_size v.size sane v.capped in
      let sum : add_usize s.byte_position frag ≡ s.byte_position + frag =
        add_usize_lem s.byte_position frag (omega arith) in
      let end = min (s.byte_position + frag) (length bytes) in
      let piece = slice s.byte_position end bytes in
      let sized : length piece ≡ end - s.byte_position =
        length-slice s.byte_position end bytes (omega arith) (omega arith) in
      rw (sum, le→leb s.byte_position end (omega arith))
        (elim (send_followup_fragment_cases (answer s.calls) piece s.wire (omega arith)) [
          | inl q ↦ rw q (
            record {
              size = v.size;
              capped = v.capped;
              within = omega arith;
              stage = inr (
                omega arith,
                followup-Sent k fds bytes sane short s.wire s.byte_position end t (omega arith)
                    (omega arith) (omega arith),
              );
            },
            omega arith,
          )
          | inr (q, refused) ↦ rw q (Refused-Ensures s end v lt refused (omega arith))
        ])

  pub round-Ensures :
      (s : SendState)
      → Progress k fds bytes s
      → Ensures k answer fds bytes (measure bytes s) (round k answer fds bytes s)
  unfolding round
  round-Ensures s v = elim (Bool-cases (ltb s.byte_position (length bytes))) [
    | inl more ↦ rw more (elim v.stage [
      | inl (z, e, lt) ↦ rw ((==_iff s.byte_position 0).1 z) (first-Ensures s v z e lt)
      | inr (p, t) ↦
          rw (==_false s.byte_position 0 (λ z. omega arith))
            (followup-Ensures s v t (ltb→lt _ _ more))
    ])
    | inr done ↦ rw done (elim v.stage [
      | inl (z, _, _) ↦ absurd (omega (arith, ltb-false→le _ _ done))
      | inr (_, t) ↦
          let all : s.byte_position ≡ length bytes = omega (arith, ltb-false→le _ _ done) in
          subst (λ n. Sent k fds bytes n s.wire) all t
    ])
  ]

  abbrev pub Ends : Option (Wire × Result UnixError (Unit {0})) → Type 0
  Ends none = ⊥
  Ends (some (w, r)) = Outcome k answer fds bytes w r

  Ends-step :
      (fuel : ℕ) (s : SendState) (x : Step) (n : ℕ)
      → ((s' : SendState)
          → Progress k fds bytes s'
          → measure bytes s' < fuel
          → Ends (send_loop k answer fds bytes fuel s'))
      → round k answer fds bytes s ≡ x
      → n ≤ fuel
      → Ensures k answer fds bytes n x
      → Ends (send_loop k answer fds bytes (suc fuel) s)
  unfolding send_loop
  Ends-step fuel s (continue s') n ih e le h = rw (e, send_loop) (ih s' h.0 (omega (arith, h.1)))
  Ends-step fuel s (stop w r) n ih e le h = rw (e, send_loop) h

  -- With a measure below the fuel the loop ends, and not by a panic.
  pub send_loop-Ends :
      (fuel : ℕ) (s : SendState)
      → Progress k fds bytes s
      → measure bytes s < fuel
      → Ends (send_loop k answer fds bytes fuel s)
  send_loop-Ends zero s v h = absurd (omega arith)
  send_loop-Ends (suc fuel) s v h =
      Ends-step fuel s (round k answer fds bytes s) (measure bytes s) (send_loop-Ends fuel) refl
        (omega arith) (round-Ensures s v)
