-- ===== src/Macos/Send/Outcome.antt =====
-- How `send` ends on macOS: in two attempts, with the message taken or the handles given back.
use ipc_channel.Base.{
  ℕ, ◌≤◌, ◌≡◌, refl, subst, inl, inr, true, ◌&&◌, List, [], ◌∷◌, ◌++◌, arith, ltb, ◌==◌,
  if◌then◌else◌, ltb→lt, Bool-cases, if_keeps, length, Result, panic, waits, err, ok,
}
use ipc_channel.Macos.System.{MachError, mach_msg_success, mach_send_too_large}
use ipc_channel.Macos.Message.{OsIpcSharedMemory, SendData, Message, VmAllocate, is_inline}
use ipc_channel.Macos.Ports.{OsIpcChannel}
use ipc_channel.Macos.Send.{Mach, lower_max, prepare, conclude, send}
use ipc_channel.Macos.Send.Total.{prepare-PanicsOrGives}

module _ (vm : VmAllocate) (port : ℕ) (bytes : List ℕ) (ports : List OsIpcChannel)
    (regions : List OsIpcSharedMemory) where
  -- A message for what is sent, made with some value of MAX_INLINE_SIZE.
  pub record Made (all_regions : List OsIpcSharedMemory) (m : Message) : Type 0 where
    pub max_inline_size : ℕ
    pub left : SendData
    pub made : prepare vm max_inline_size port bytes ports regions ≡ ok (left, all_regions, m)

  -- MAX_INLINE_SIZE has not grown. After a success one message more has been taken, and no handle is
  -- given back; after an error the ports and the regions are, and no message has been taken.
  pub record Outcome (s : Mach) (o : Mach × Result MachError (Unit {0})) : Type 0 where
    pub lowers : o.0.max_inline_size ≤ s.max_inline_size
    pub taken :
        o.1 ≡ ok tt
        → (all_regions : List OsIpcSharedMemory) × (m : Message) × Made all_regions m
          × (o.0.sent ≡ s.sent ++ (m ∷ []))
          × (o.0.dropped_ports ≡ s.dropped_ports)
          × (o.0.dropped_regions ≡ s.dropped_regions)
    pub refused :
        (e : MachError)
        → o.1 ≡ err e
        → (all_regions : List OsIpcSharedMemory) × (m : Message) × Made all_regions m
          × (o.0.sent ≡ s.sent)
          × (o.0.dropped_ports ≡ s.dropped_ports ++ ports)
          × (o.0.dropped_regions ≡ s.dropped_regions ++ all_regions)

  panic-Outcome : (s : Mach) → Outcome s (s, panic)
  panic-Outcome s = record { lowers = omega arith; taken = λ e. cc e; refused = λ x e. cc e }

  waits-Outcome : (s : Mach) → Outcome s (s, waits)
  waits-Outcome s = record { lowers = omega arith; taken = λ e. cc e; refused = λ x e. cc e }

  lower_max-Outcome :
      (n : ℕ) (s : Mach) (o : Mach × Result MachError (Unit {0}))
      → Outcome (lower_max n s) o
      → Outcome s o
  unfolding lower_max
  lower_max-Outcome n s o h = elim (Bool-cases (ltb n s.max_inline_size)) [
    | inl y ↦
        lowered y (subst (λ b. Outcome (if b then record s { max_inline_size = n } else s) o) y h)
    | inr k ↦ subst (λ b. Outcome (if b then record s { max_inline_size = n } else s) o) k h
  ]
    where
      lowered :
          ltb n s.max_inline_size ≡ true
          → Outcome (record s { max_inline_size = n }) o
          → Outcome s o
      lowered y h = record {
        lowers = omega (arith, h.lowers, ltb→lt n s.max_inline_size y);
        taken = h.taken;
        refused = h.refused;
      }

  conclude-Outcome :
      (code : ℕ) (d : SendData) (all_regions : List OsIpcSharedMemory) (m : Message)
      (again : Mach × Result MachError (Unit {0})) (s : Mach)
      → Made all_regions m
      → Outcome s again
      → Outcome s (conclude code d ports all_regions m again s)
  unfolding conclude
  conclude-Outcome code d all_regions m again s made h =
      if_keeps (Outcome s) ((code == mach_send_too_large) && is_inline d) h (
        if_keeps (Outcome s) (code == mach_msg_success)
          (record {
            lowers = omega arith;
            taken = λ _. (all_regions, m, made, refl, refl, refl);
            refused = λ x e. cc e;
          })
          (record {
            lowers = omega arith;
            taken = λ e. cc e;
            refused = λ x e. (all_regions, m, made, refl, refl, refl);
          }))

  -- However often the kernel finds a message too large, `send` on macOS ends with the message taken or
  -- with the handles given back: after `Ok` one message more has been taken, which was made for the
  -- data, the ports and the regions, and nothing is given back; after an error no message has been
  -- taken, and the ports and the regions are given back, among them the one that the data was put in.
  -- MAX_INLINE_SIZE never grows.
  pub send-Outcome :
      (codes : List ℕ) (s : Mach) → Outcome s (send vm codes port bytes ports regions s)
  unfolding send
  send-Outcome [] s = waits-Outcome s
  send-Outcome (code ∷ codes) s =
      elim (prepare-PanicsOrGives vm s.max_inline_size port bytes ports regions) [
        | inl p ↦ rw p (panic-Outcome s)
        | inr ((d, all_regions, m), p) ↦ rw p (
            conclude-Outcome code d all_regions m _ s
              (record { max_inline_size = s.max_inline_size; left = d; made = p })
              (lower_max-Outcome (length bytes) s _
                (send-Outcome codes (lower_max (length bytes) s))))
      ]
