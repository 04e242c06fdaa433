-- ===== src/Macos/Send/Total.antt =====
-- `prepare` on macOS panics or gives a message: it reports no error, and does not wait.
use ipc_channel.Base.{
  ℕ, ◌%◌, ◌^◌, ◌≡◌, refl, ◌⊎◌, inl, inr, Option, none, some, List, [], ◌∷◌, ltb, leb, if_keeps,
  length, take, Result, ◌>>=◌, unwrap, panic, ok,
}
use ipc_channel.Macos.System.{MachError}
use ipc_channel.Macos.Message.{
  Address, OsIpcSharedMemory, SendData, bytes_at, deref, VmAllocate, allocate_vm_pages, store,
  from_bytes, send_data_from, take_shared_memory, null, pages, inline, out_of_line, ool_descriptor,
}
use ipc_channel.Macos.Ports.{OsIpcChannel}
use ipc_channel.Macos.Send.{ool_descriptors, message_for, and_region, prepare}

abbrev pub PanicsOrGives : {A : Type 0} → Result MachError A → Type 0
PanicsOrGives {A} r = (r ≡ panic) ⊎ ((a : A) × (r ≡ ok a))

-- A chain of calls that only panic or give a result is one.
>>=-PanicsOrGives :
    {A B : Type 0} (r : Result MachError A) (next : A → Result MachError B)
    → PanicsOrGives r
    → ((a : A) → PanicsOrGives (next a))
    → PanicsOrGives (r >>= next)
>>=-PanicsOrGives r next (inl p) k = rw p (inl refl)
>>=-PanicsOrGives r next (inr (a, p)) k = rw p (k a)

bytes_at-PanicsOrGives : (a : Address) (n : ℕ) → PanicsOrGives (bytes_at a n)
unfolding bytes_at
bytes_at-PanicsOrGives null n = if_keeps PanicsOrGives (ltb 0 n) (inl refl) (inr ([], refl))
bytes_at-PanicsOrGives (pages xs) n = inr (take n xs, refl)

deref-PanicsOrGives : (m : OsIpcSharedMemory) → PanicsOrGives (deref m)
unfolding deref
deref-PanicsOrGives m = bytes_at-PanicsOrGives m.ptr m.length

unwrap-PanicsOrGives : {A : Type 0} (o : Option A) → PanicsOrGives (unwrap o)
unwrap-PanicsOrGives none = inl refl
unwrap-PanicsOrGives (some a) = inr (a, refl)

from_bytes-PanicsOrGives : (vm : VmAllocate) (bytes : List ℕ) → PanicsOrGives (from_bytes vm bytes)
unfolding from_bytes allocate_vm_pages
from_bytes-PanicsOrGives vm bytes =
    >>=-PanicsOrGives (unwrap (vm (length bytes))) _ (unwrap-PanicsOrGives (vm (length bytes)))
      λ address. inr (record { ptr = store address bytes; length = length bytes }, refl)

ool_descriptors-PanicsOrGives :
    (regions : List OsIpcSharedMemory) → PanicsOrGives (ool_descriptors regions)
unfolding ool_descriptors
ool_descriptors-PanicsOrGives [] = inr ([], refl)
ool_descriptors-PanicsOrGives (m ∷ regions) =
    >>=-PanicsOrGives (deref m) _ (deref-PanicsOrGives m) λ _.
      >>=-PanicsOrGives (ool_descriptors regions) _ (ool_descriptors-PanicsOrGives regions)
        λ ds. inr (ool_descriptor m.ptr (m.length % 2 ^ 32) ∷ ds, refl)

send_data-PanicsOrGives :
    (vm : VmAllocate) (n : ℕ) (bytes : List ℕ) → PanicsOrGives (send_data_from vm n bytes)
unfolding send_data_from
send_data-PanicsOrGives vm n bytes =
    if_keeps PanicsOrGives (leb n (length bytes))
      (>>=-PanicsOrGives (from_bytes vm bytes) _ (from_bytes-PanicsOrGives vm bytes)
        λ m. inr (out_of_line (some m), refl))
      (inr (inline bytes, refl))

message_for-PanicsOrGives :
    (port : ℕ) (d : SendData) (ports : List OsIpcChannel) (regions : List OsIpcSharedMemory)
    → PanicsOrGives (message_for port d ports regions)
unfolding message_for
message_for-PanicsOrGives port d ports regions =
    >>=-PanicsOrGives (ool_descriptors regions) _ (ool_descriptors-PanicsOrGives regions)
      λ ools. inr (_, refl)

pub prepare-PanicsOrGives :
    (vm : VmAllocate) (n port : ℕ) (bytes : List ℕ) (ports : List OsIpcChannel)
    (regions : List OsIpcSharedMemory)
    → PanicsOrGives (prepare vm n port bytes ports regions)
unfolding prepare
prepare-PanicsOrGives vm n port bytes ports regions =
    >>=-PanicsOrGives (send_data_from vm n bytes) _ (send_data-PanicsOrGives vm n bytes) λ whole.
      let (d, m) = take_shared_memory whole in
      >>=-PanicsOrGives (message_for port d ports (and_region regions m)) _
        (message_for-PanicsOrGives port d ports (and_region regions m))
        λ message. inr ((d, and_region regions m, message), refl)
