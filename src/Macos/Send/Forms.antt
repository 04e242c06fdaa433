-- ===== src/Macos/Send/Forms.antt =====
-- The two forms of a message on macOS: with its data, or with a region more that has the data.
use ipc_channel.Base.{
  ℕ, ◌≡◌, refl, sym, subst, Bool, true, false, none, some, List, [], ◌∷◌, ◌++◌, leb, if◌then◌else◌,
  length, Result, ◌>>=◌, >>=-each, ok,
}
use ipc_channel.Macos.System.{MachError}
use ipc_channel.Macos.Message.{
  OsIpcSharedMemory, SendData, Message, VmAllocate, from_bytes, send_data_from, take_shared_memory,
  inline, out_of_line,
}
use ipc_channel.Macos.Ports.{OsIpcChannel}
use ipc_channel.Macos.Send.{message_for, and_region, prepare}

-- What has gone well if `prepare` has.
pub data Form (vm : VmAllocate) (n port : ℕ) (bytes : List ℕ) (ports : List OsIpcChannel)
    (regions : List OsIpcSharedMemory) : SendData × List OsIpcSharedMemory × Message → Type 0 where
  in_message :
      {m : Message}
      → leb n (length bytes) ≡ false
      → message_for port (inline bytes) ports regions ≡ ok m
      → Form vm n port bytes ports regions (inline bytes, regions, m)
  in_region :
      {m : Message} (region : OsIpcSharedMemory)
      → from_bytes vm bytes ≡ ok region
      → message_for port (out_of_line none) ports (regions ++ (region ∷ [])) ≡ ok m
      → Form vm n port bytes ports regions (out_of_line none, regions ++ (region ∷ []), m)

pub ok_injective : {E A : Type 0} {a b : A} → ◌≡◌ {A = Result E A} (ok a) (ok b) → a ≡ b
ok_injective e = cc e

pub prepare-Form :
    (vm : VmAllocate) (n port : ℕ) (bytes : List ℕ) (ports : List OsIpcChannel)
    (regions : List OsIpcSharedMemory) {o : SendData × List OsIpcSharedMemory × Message}
    → prepare vm n port bytes ports regions ≡ ok o
    → Form vm n port bytes ports regions o
unfolding prepare send_data_from take_shared_memory
prepare-Form vm n port bytes ports regions {o} p = by_test (leb n (length bytes)) refl p
  where
    rest : SendData → Result MachError (SendData × List OsIpcSharedMemory × Message)
    rest whole =
        let (d, m) = take_shared_memory whole in
        message_for port d ports (and_region regions m) >>= λ message.
        ok (d, and_region regions m, message)

    by_test :
        (b : Bool)
        → leb n (length bytes) ≡ b
        → ((if b
              then (from_bytes vm bytes >>= λ m. ok (out_of_line (some m)))
              else ok (inline bytes))
            >>= rest)
          ≡ ok o
        → Form vm n port bytes ports regions o
    by_test true is e =
        >>=-each (from_bytes vm bytes >>= λ m. ok (out_of_line (some m))) rest e
          λ whole is_whole after.
            >>=-each (from_bytes vm bytes) _ is_whole λ region is_region is_out.
              >>=-each (message_for port (out_of_line none) ports (regions ++ (region ∷ []))) _
                (subst (λ x. rest x ≡ ok o) (sym (ok_injective is_out)) after)
                λ m is_m is_o.
                  subst (Form vm n port bytes ports regions) (ok_injective is_o)
                    (in_region region is_region is_m)
    by_test false is e = >>=-each (message_for port (inline bytes) ports regions) _ e λ m is_m is_o.
        subst (Form vm n port bytes ports regions) (ok_injective is_o) (in_message is is_m)
