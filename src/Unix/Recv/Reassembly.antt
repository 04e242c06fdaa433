-- ===== src/Unix/Recv/Reassembly.antt =====
-- The loop of `recv` in src/platform/unix/mod.rs that puts the fragments of a message together.
use ipc_channel.Base.{
  ℕ, ◌+◌, ◌-◌, ◌^◌, ◌≤◌, ◌<◌, ◌≡◌, ap, sym, ◌∙◌, List, [], ◌∷◌, ◌++◌, map, ok, arith, ==_false, min,
  length, take_all, concat, All, length-append, append-nil, append_assoc, lt→ltb, ltb-false, le→leb,
  add_usize, add_usize_lem,
}
use ipc_channel.Unix.Kernel.{Kernel}
use ipc_channel.Unix.Size.{fragment_size, fragment_size_lem, IsBufSize}
use ipc_channel.Unix.Send.Invariant.{Fits}
use ipc_channel.Unix.Recv.{FollowupAnswer, fragment, recv_fragment, reassemble}

module _ (k : Kernel) (sane : IsBufSize k.sendbuf_size) where
  -- A fragment that fits is read whole.
  recv_fragment-fits :
      (buffer p : List ℕ) (room : ℕ)
      → 0 < length p
      → length p ≤ room
      → recv_fragment buffer room (fragment p) ≡ ok (buffer ++ p)
  unfolding recv_fragment
  recv_fragment-fits buffer p room h le =
      rw (take_all room p le, ==_false (length p) 0 (λ z. omega arith))

  -- Fragments that fit, and that make up what is missing of a message shorter than 2^63 bytes for
  -- which the buffer has room, are joined to the whole message; what comes behind them is not read.
  pub reassemble-joins :
      (total capacity : ℕ) (ps : List (List ℕ)) (rest : List FollowupAnswer) (buffer : List ℕ)
      → All (Fits k) ps
      → length buffer + length (concat ps) ≡ total
      → total < 2 ^ 63
      → total ≤ capacity
      → reassemble k total capacity (map fragment ps ++ rest) buffer ≡ ok (buffer ++ concat ps)
  unfolding reassemble
  reassemble-joins total capacity [] [] buffer fits e h c =
      rw (ltb-false (length buffer) total (omega arith)) (ap ok (sym (append-nil buffer)))
  reassemble-joins total capacity [] (a ∷ rest) buffer fits e h c =
      rw (ltb-false (length buffer) total (omega arith)) (ap ok (sym (append-nil buffer)))
  reassemble-joins total capacity (p ∷ ps) rest buffer fits e h c =
      let size = fragment_size_lem k.sendbuf_size sane in
      let joined = length-append p (concat ps) in
      let frag = fragment_size k.sendbuf_size in
      let sum : add_usize (length buffer) frag ≡ length buffer + frag =
        add_usize_lem (length buffer) frag (omega arith) in
      let end = min (length buffer + frag) total in
      rw
        (
          lt→ltb (length buffer) total (omega (arith, fits.0)),
          sum,
          le→leb end capacity (omega arith),
          le→leb (length buffer) end (omega arith),
          recv_fragment-fits buffer p (end - length buffer) fits.0.0 (omega (arith, fits.0)),
        )
        (reassemble-joins total capacity ps rest (buffer ++ p) fits.1
            (omega (arith, length-append buffer p)) h c
          ∙ ap ok (append_assoc buffer p (concat ps)))
