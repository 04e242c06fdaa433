-- ===== src/Macos/RoundTrip/Delivery.antt =====
-- The round trip of a message on macOS: what `recv` returns for what `send` has given to the kernel.
use ipc_channel.Base.{
  ℕ, ◌+◌, ◌%◌, ◌^◌, ◌≤◌, ◌<◌, ◌≡◌, refl, sym, ap, subst, ◌∙◌, ◌≢◌, inl, inr, true, none, List, [],
  ◌∷◌, ◌++◌, map, arith, ltb, leb, if◌then◌else◌, lt→ltb, le→leb, ==_false, Bool-cases, length, All,
  length-append, All-append, unwrap, >>=-each, ok,
}
use ipc_channel.Macos.System.{mach_port_null, small_message_size}
use ipc_channel.Macos.Message.{
  OsIpcSharedMemory, SendData, Message, deref, VmAllocate, from_bytes, is_inline, inline_data,
  content_size, size_of, size_of_bounds, inline, out_of_line,
}
use ipc_channel.Macos.Ports.{OsIpcReceiver, OsIpcChannel}
use ipc_channel.Macos.Send.{Mach, send}
use ipc_channel.Macos.Receive.{
  BlockingMode, Call, receive_options, max_trailer_size, fetch_large, fetch, read_message, select,
  received, recv_with_blocking_mode, data_received, message, too_large,
}
use ipc_channel.Macos.Send.Forms.{Form, ok_injective, prepare-Form, in_message, in_region}
use ipc_channel.Macos.Send.Outcome.{Made, Outcome, send-Outcome}
use ipc_channel.Macos.RoundTrip.Descriptors.{IsShort, renamed}
use ipc_channel.Macos.RoundTrip.Payload.{
  Carries, Fits, message_for-built, rest_of_select, read_message-built, payload-inline,
  message_for-deref, payload-region,
}

from_bytes-IsShort :
    (vm : VmAllocate) (bytes : List ℕ) (region : OsIpcSharedMemory)
    → from_bytes vm bytes ≡ ok region
    → length bytes < 2 ^ 32
    → IsShort region
unfolding from_bytes
from_bytes-IsShort vm bytes region e h =
    >>=-each (unwrap (vm (length bytes))) _ e
      λ a _ is_region. subst IsShort (ok_injective is_region) h

-- What is read in a message of either form.
read_message-Form :
    (rename : ℕ → ℕ) (vm : VmAllocate) (n port : ℕ) (bytes : List ℕ) (ports : List OsIpcChannel)
    (regions : List OsIpcSharedMemory) {o : SendData × List OsIpcSharedMemory × Message}
    (m' : Message)
    → Form vm n port bytes ports regions o
    → Carries rename o.2 m'
    → Fits bytes ports regions
    → All IsShort regions
    → (regions' : List OsIpcSharedMemory) × (read_message m'
        ≡ ok (data_received m'.msgh_local_port bytes (renamed rename ports) regions'))
      × (map deref regions' ≡ map deref regions)
unfolding rest_of_select
read_message-Form rename vm n port bytes ports regions m' (in_message {m} _ is_m) c fits short =
    let (ools, described, is_built) = message_for-built port (inline bytes) ports regions is_m in
    let c' = subst (λ x. Carries rename x m') is_built c in
    let (all, is_read, same) =
      read_message-built rename port (inline bytes) ports regions ools m' described c' short
        (omega arith) in
    (
      all,
      is_read ∙ rw (payload-inline rename port bytes ports regions all ools m' c' same fits) refl,
      same,
    )
read_message-Form rename vm n port bytes ports regions m' (in_region {m} region is_made is_m) c fits
      short =
    let all_regions = regions ++ (region ∷ []) in
    let (ools, described, is_built) =
      message_for-built port (out_of_line none) ports all_regions is_m in
    let c' = subst (λ x. Carries rename x m') is_built c in
    let all_short =
      All-append IsShort regions (region ∷ []) short
        (from_bytes-IsShort vm bytes region is_made (omega arith), tt) in
    let (all, is_read, same) =
      read_message-built rename port (out_of_line none) ports all_regions ools m' described c'
        all_short (omega (arith, length-append regions (region ∷ []))) in
    let (got, is_got) = message_for-deref port (out_of_line none) ports regions region is_m in
    let (rest, is_payload, are_same) =
      payload-region rename vm port bytes got ports regions all region ools m' c' same is_made
        is_got in
    (rest, is_read ∙ rw is_payload refl, are_same)

-- The messages that `send` makes are within the sizes of the kernel, with any trailer.
Form-size :
    (vm : VmAllocate) (n port : ℕ) (bytes : List ℕ) (ports : List OsIpcChannel)
    (regions : List OsIpcSharedMemory) {o : SendData × List OsIpcSharedMemory × Message}
    → Form vm n port bytes ports regions o
    → Fits bytes ports regions
    → o.2.msgh_size + max_trailer_size < 2 ^ 32
unfolding content_size is_inline inline_data
Form-size vm n port bytes ports regions (in_message {m} _ is_m) fits =
    let (_, _, is_built) = message_for-built port (inline bytes) ports regions is_m in
    let size : m.msgh_size ≡ size_of (inline bytes) (length ports) (length regions) % 2 ^ 32 =
      ap (λ (x : Message). x.msgh_size) is_built in
    let (_, room, little) = size_of_bounds (inline bytes) (length ports) (length regions) in
    omega (arith, size, room, little, fits)
Form-size vm n port bytes ports regions (in_region {m} region _ is_m) fits =
    let all = regions ++ (region ∷ []) in
    let (_, _, is_built) = message_for-built port (out_of_line none) ports all is_m in
    let size : m.msgh_size ≡ size_of (out_of_line none) (length ports) (length all) % 2 ^ 32 =
      ap (λ (x : Message). x.msgh_size) is_built in
    let (_, room, little) = size_of_bounds (out_of_line none) (length ports) (length all) in
    omega (arith, size, room, little, fits, length-append regions (region ∷ []))

-- The kernel with a message that waits: it gives it into a buffer with room for it and its trailer, and
-- the message's size otherwise.
abbrev pub Holds : Message → ℕ → Call → Type 0
Holds m trailer call =
    (flags limit size : ℕ)
    → call flags limit size
      ≡ (if leb (m.msgh_size + trailer) size then message m else too_large m.msgh_size)

-- Two calls are enough to fetch a message, of whatever size.
fetch-Holds :
    (m : Message) (trailer : ℕ) (first second : Call) (calls : List Call) (flags limit : ℕ)
    → Holds m trailer first
    → Holds m trailer second
    → trailer ≤ max_trailer_size
    → m.msgh_size + max_trailer_size < 2 ^ 32
    → fetch (first ∷ second ∷ calls) flags limit ≡ ok m
unfolding fetch fetch_large
fetch-Holds m trailer first second calls flags limit h k small fits =
    let again : leb (m.msgh_size + trailer) (m.msgh_size + max_trailer_size) ≡ true =
      le→leb _ _ (omega arith) in
    let checked : ltb (m.msgh_size + max_trailer_size) (2 ^ 32) ≡ true = lt→ltb _ _ fits in
    elim (Bool-cases (leb (m.msgh_size + trailer) small_message_size)) [
      | inl y ↦ rw (h flags limit small_message_size) (rw y refl)
      | inr n ↦
          rw (h flags limit small_message_size) (
            rw n (rw (k flags limit (m.msgh_size + max_trailer_size)) (rw again (rw checked refl))))
    ]

last_message : (ms : List Message) (m m' : Message) → ms ++ (m ∷ []) ≡ ms ++ (m' ∷ []) → m ≡ m'
last_message [] m m' e = cc e
last_message (x ∷ ms) m m' e = last_message ms m m' (cc e)

-- A message that the kernel has carried over, as `select` reports it.
pub selected-Made :
    (rename : ℕ → ℕ) (vm : VmAllocate) (port : ℕ) (bytes : List ℕ) (ports : List OsIpcChannel)
    (regions all_regions : List OsIpcSharedMemory) (m m' : Message) (trailer : ℕ)
    (first second : Call) (calls : List Call) (from : ℕ) (mode : BlockingMode)
    → Made vm port bytes ports regions all_regions m
    → Carries rename m m'
    → Holds m' trailer first
    → Holds m' trailer second
    → trailer ≤ max_trailer_size
    → Fits bytes ports regions
    → All IsShort regions
    → from ≢ mach_port_null
    → (regions' : List OsIpcSharedMemory) × (select (first ∷ second ∷ calls) from mode
        ≡ ok (data_received m'.msgh_local_port bytes (renamed rename ports) regions'))
      × (map deref regions' ≡ map deref regions)
unfolding select
selected-Made rename vm port bytes ports regions all_regions m m' trailer first second calls from
      mode made c h k small fits short is_port =
    let form = prepare-Form vm made.max_inline_size port bytes ports regions made.made in
    let size = Form-size vm made.max_inline_size port bytes ports regions form fits in
    let (flags, limit) = receive_options mode in
    let is_fetched =
      fetch-Holds m' trailer first second calls flags limit h k small
        (omega (arith, size, c.same_size)) in
    let (regions', is_read, same) =
      read_message-Form rename vm made.max_inline_size port bytes ports regions m' form c fits
        short in
    (regions', rw (==_false from mach_port_null is_port) (rw is_fetched (rw is_read refl)), same)

-- The message that has been taken last was made for what was sent.
pub sent-Made :
    (vm : VmAllocate) (codes : List ℕ) (port : ℕ) (bytes : List ℕ) (ports : List OsIpcChannel)
    (regions : List OsIpcSharedMemory) (s s' : Mach) (m : Message)
    → send vm codes port bytes ports regions s ≡ (s', ok tt)
    → s'.sent ≡ s.sent ++ (m ∷ [])
    → (all_regions : List OsIpcSharedMemory) × Made vm port bytes ports regions all_regions m
sent-Made vm codes port bytes ports regions s s' m is_sent is_last =
    let outcome =
      subst (Outcome vm port bytes ports regions s) is_sent
        (send-Outcome vm port bytes ports regions codes s) in
    let (all_regions, sent, made, is_sent', _, _) = outcome.taken refl in
    let is_m : sent ≡ m = last_message s.sent sent m (sym is_sent' ∙ is_last) in
    (all_regions, subst (Made vm port bytes ports regions all_regions) is_m made)

-- A message that `send` on macOS has sent, however often the kernel found it too large, is received as
-- it was sent, in every mode: the data, whether it went in the message or in a region; the ports, under
-- the names that the kernel gives them; the regions, with their lengths and bytes. It is supposed that
-- the message is shorter than 4 GiB, and each region; that the kernel carries it over with its
-- descriptors; that a call gives the message into a buffer with room for it and its trailer, and its
-- size otherwise; and that the receiver has not been consumed.
pub recv-send_macos :
    (rename : ℕ → ℕ) (vm : VmAllocate) (codes : List ℕ) (port : ℕ) (bytes : List ℕ)
    (ports : List OsIpcChannel) (regions : List OsIpcSharedMemory) (s s' : Mach) (m m' : Message)
    (trailer : ℕ) (first second : Call) (calls : List Call) (r : OsIpcReceiver)
    (mode : BlockingMode)
    → send vm codes port bytes ports regions s ≡ (s', ok tt)
    → s'.sent ≡ s.sent ++ (m ∷ [])
    → Carries rename m m'
    → Holds m' trailer first
    → Holds m' trailer second
    → trailer ≤ max_trailer_size
    → Fits bytes ports regions
    → All IsShort regions
    → r.port ≢ mach_port_null
    → (regions' : List OsIpcSharedMemory) × (recv_with_blocking_mode (first ∷ second ∷ calls) r mode
        ≡ ok (bytes, renamed rename ports, regions'))
      × (map deref regions' ≡ map deref regions)
unfolding recv_with_blocking_mode received
recv-send_macos rename vm codes port bytes ports regions s s' m m' trailer first second calls r mode
      is_sent is_last c h k small fits short is_port =
    let (all, made) = sent-Made vm codes port bytes ports regions s s' m is_sent is_last in
    let (regions', is_selected, same) =
      selected-Made rename vm port bytes ports regions all m m' trailer first second calls r.port
        mode made c h k small fits short is_port in
    (regions', rw is_selected refl, same)
