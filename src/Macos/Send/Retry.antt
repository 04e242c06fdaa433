-- ===== src/Macos/Send/Retry.antt =====
-- Why `send` on macOS makes two attempts at most.
use ipc_channel.Base.{
  ℕ, ◌≤◌, ◌≡◌, refl, ◌≢◌, inl, inr, false, List, ◌∷◌, arith, leb, le→leb, length, Result, on_ok,
  waits,
}
use ipc_channel.Macos.System.{MachError}
use ipc_channel.Macos.Message.{OsIpcSharedMemory, SendData, Message, VmAllocate, is_inline}
use ipc_channel.Macos.Ports.{OsIpcChannel}
use ipc_channel.Macos.Send.{Mach, lower_max, prepare, conclude, send}
use ipc_channel.Macos.Send.Total.{prepare-PanicsOrGives}
use ipc_channel.Macos.Send.Forms.{Form, prepare-Form, in_message, in_region}

lower_max-most : (n : ℕ) (s : Mach) → (lower_max n s).max_inline_size ≤ n
unfolding lower_max
lower_max-most n s = ground arith

-- Data of the maximal length goes out of line.
Form-out_of_line :
    (vm : VmAllocate) (n port : ℕ) (bytes : List ℕ) (ports : List OsIpcChannel)
    (regions : List OsIpcSharedMemory) {o : SendData × List OsIpcSharedMemory × Message}
    → Form vm n port bytes ports regions o
    → n ≤ length bytes
    → is_inline o.0 ≡ false
unfolding is_inline
Form-out_of_line vm n port bytes ports regions (in_message short is_m) h =
    absurd (cc (short, le→leb n (length bytes) h))
Form-out_of_line vm n port bytes ports regions (in_region region is_region is_m) h = refl

-- An attempt ends, if the one that follows a message that is too large does.
attempt_ends :
    (vm : VmAllocate) (code port : ℕ) (bytes : List ℕ) (ports : List OsIpcChannel)
    (regions : List OsIpcSharedMemory) (s : Mach) (again : Mach × Result MachError (Unit {0}))
    → (leb s.max_inline_size (length bytes) ≡ false → again.1 ≢ waits)
    → (on_ok s
        (prepare vm s.max_inline_size port bytes ports regions)
        (λ (d, all_regions, m). conclude code d ports all_regions m again s)).1
      ≢ waits
unfolding conclude is_inline
attempt_ends vm code port bytes ports regions s again h =
    elim (prepare-PanicsOrGives vm s.max_inline_size port bytes ports regions) [
      | inl p ↦ rw p (λ e. cc e)
      | inr (o, p) ↦ rw p (by_form (prepare-Form vm s.max_inline_size port bytes ports regions p))
    ]
  where
    by_form :
        {o : SendData × List OsIpcSharedMemory × Message}
        → Form vm s.max_inline_size port bytes ports regions o
        → (conclude code o.0 ports o.1 o.2 again s).1 ≢ waits
    by_form (in_message short is_m) = let k = h short in ground arith
    by_form (in_region region is_region is_m) = ground arith

-- Two answers of the kernel are enough for `send` on macOS to end: the second attempt, after a message
-- that is too large, has its data out of line.
pub send-ends :
    (vm : VmAllocate) (code again_code : ℕ) (codes : List ℕ) (port : ℕ) (bytes : List ℕ)
    (ports : List OsIpcChannel) (regions : List OsIpcSharedMemory) (s : Mach)
    → (send vm (code ∷ again_code ∷ codes) port bytes ports regions s).1 ≢ waits
unfolding send
send-ends vm code again_code codes port bytes ports regions s =
    let lowered = lower_max (length bytes) s in
    attempt_ends vm code port bytes ports regions s _ λ _.
      attempt_ends vm again_code port bytes ports regions lowered _ λ short. absurd (
        cc (short, le→leb lowered.max_inline_size (length bytes) (lower_max-most (length bytes) s)))
