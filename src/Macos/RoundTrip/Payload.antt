-- ===== src/Macos/RoundTrip/Payload.antt =====
-- The ports, the regions and the data of a message on macOS, read back.
use ipc_channel.Base.{
  ℕ, ◌+◌, ◌*◌, ◌%◌, ◌^◌, ◌<◌, ◌≡◌, refl, sym, ap, subst, ◌∙◌, true, false, none, List, [], ◌∷◌,
  ◌++◌, map, arith, leb, ◌==◌, le→leb, length, take, drop, All, take_all, take-append, length-map,
  Result, ◌>>=◌, unwrap, >>=-each, ok,
}
use ipc_channel.Macos.System.{MachError, mach_notify_no_senders, mach_port_null}
use ipc_channel.Macos.Message.{
  Address, OsIpcSharedMemory, SendData, Descriptor, Message, bytes_at, deref, VmAllocate,
  allocate_vm_pages, store, from_bytes, is_inline, inline_data, message_size, port_descriptor_size,
  ool_descriptor_size, content_size, size_of, size_of_bounds, null, pages, inline, out_of_line,
}
use ipc_channel.Macos.Ports.{OsIpcChannel, OsOpaqueIpcChannel}
use ipc_channel.Macos.Send.{port_descriptors, ool_descriptors, message_for}
use ipc_channel.Macos.Receive.{
  OsIpcSelectionResult, read_ports, read_regions, pop_region, payload, read_message, data_received,
}
use ipc_channel.Macos.Send.Forms.{ok_injective}
use ipc_channel.Macos.RoundTrip.Descriptors.{
  Carried, Described, IsShort, renamed_port, renamed, ool_descriptors-Described,
  read_regions-Carried, read_ports-Carried,
}

-- A message as it arrives: its port rights and its pages have been moved, the rest is as it was. The
-- local port is that of the receiver.
pub record Carries (rename : ℕ → ℕ) (m m' : Message) : Type 0 where
  pub same_size : m'.msgh_size ≡ m.msgh_size
  pub same_id : m'.msgh_id ≡ m.msgh_id
  pub same_count : m'.msgh_descriptor_count ≡ m.msgh_descriptor_count
  pub same_flag : m'.has_inline_data ≡ m.has_inline_data
  pub same_data_size : m'.data_size ≡ m.data_size
  pub same_bytes : m'.bytes ≡ m.bytes
  pub carried : Carried rename m.descriptors m'.descriptors

-- Messages, with the largest trailer and a region for the data, that are shorter than 4 GiB.
abbrev pub Fits : List ℕ → List OsIpcChannel → List OsIpcSharedMemory → Type 0
Fits bytes ports regions = 12 * length ports + 16 * length regions + length bytes + 200 < 2 ^ 32

-- The message that `message_for` makes, by its descriptors of regions.
abbrev pub built :
    ℕ → SendData → List OsIpcChannel → List OsIpcSharedMemory → List Descriptor → Message
built port d ports regions ools = record {
  msgh_size = size_of d (length ports) (length regions) % 2 ^ 32;
  msgh_remote_port = port;
  msgh_local_port = mach_port_null;
  msgh_id = 0;
  msgh_descriptor_count = (length ports + length regions) % 2 ^ 32;
  descriptors = port_descriptors ports ++ ools;
  has_inline_data = is_inline d;
  data_size = length (inline_data d);
  bytes = inline_data d;
}

pub message_for-built :
    (port : ℕ) (d : SendData) (ports : List OsIpcChannel) (regions : List OsIpcSharedMemory)
    {m : Message}
    → message_for port d ports regions ≡ ok m
    → (ools : List Descriptor) × Described regions ools × (m ≡ built port d ports regions ools)
unfolding message_for
message_for-built port d ports regions e =
    >>=-each (ool_descriptors regions) _ e λ ools is_ools is_m.
      (ools, ool_descriptors-Described regions is_ools, sym (ok_injective is_m))

-- The rest of `select` for a message with these ports and regions.
unfoldable pub rest_of_select :
    (ℕ → ℕ)
    → Message
    → List OsIpcChannel
    → List OsIpcSharedMemory
    → Result MachError OsIpcSelectionResult
rest_of_select rename m' ports all = payload m' (length ports) all >>= λ (bytes, regions).
    ok (data_received m'.msgh_local_port bytes (renamed rename ports) regions)

-- `read_message`, by what its parts read.
read_message-parts :
    (m : Message) (ports : List OsOpaqueIpcChannel) (n : ℕ) (rest : List Descriptor)
    (all : List OsIpcSharedMemory)
    → read_ports m.msgh_descriptor_count m.descriptors ≡ (ports, n, rest)
    → read_regions n rest ≡ ok all
    → m.msgh_id ≡ 0
    → read_message m ≡ (
        payload m (length ports) all >>= λ (bytes, regions).
        ok (data_received m.msgh_local_port bytes ports regions))
unfolding read_message
read_message-parts m ports n rest all p r z =
    let e : (m.msgh_id == mach_notify_no_senders) ≡ false = rw z refl in rw p (rw e (rw r refl))

pub read_message-built :
    (rename : ℕ → ℕ) (port : ℕ) (d : SendData) (ports : List OsIpcChannel)
    (regions : List OsIpcSharedMemory) (ools : List Descriptor) (m : Message)
    → Described regions ools
    → Carries rename (built port d ports regions ools) m
    → All IsShort regions
    → length ports + length regions < 2 ^ 32
    → (all : List OsIpcSharedMemory) × (read_message m ≡ rest_of_select rename m ports all)
      × (map deref all ≡ map deref regions)
unfolding rest_of_select
read_message-built rename port d ports regions ools m described c short few =
    let (rest, are_ports, remains) =
      read_ports-Carried rename ports m.msgh_descriptor_count (omega (arith, c.same_count))
        described c.carried in
    let (all, are_regions, same) = read_regions-Carried rename described short remains in
    (
      all,
      read_message-parts m (renamed rename ports) (length regions) rest all are_ports are_regions
            c.same_id
          ∙ rw (length-map (renamed_port rename) ports) refl,
      same,
    )

-- The last region, which `pop` takes, is the last that was sent.
pop_region-last :
    (regions : List OsIpcSharedMemory) (region : OsIpcSharedMemory) (all : List OsIpcSharedMemory)
    → map deref all ≡ map deref (regions ++ (region ∷ []))
    → (rest : List OsIpcSharedMemory) × (last : OsIpcSharedMemory) × (pop_region all
        ≡ ok (rest, last))
      × (map deref rest ≡ map deref regions)
      × (deref last ≡ deref region)
unfolding pop_region
pop_region-last [] region [] e = absurd (cc e)
pop_region-last (x ∷ regions) region [] e = absurd (cc e)
pop_region-last [] region (m ∷ []) e = ([], m, refl, refl, cc e)
pop_region-last [] region (m ∷ m' ∷ all) e = absurd (cc e)
pop_region-last (x ∷ []) region (m ∷ []) e = absurd (cc e)
pop_region-last (x ∷ y ∷ regions) region (m ∷ []) e = absurd (cc e)
pop_region-last (x ∷ regions) region (m ∷ m' ∷ all) e =
    let (rest, last, popped, are_same, is_same) =
      pop_region-last regions region (m' ∷ all) (cc e) in
    (m ∷ rest, last, rw popped refl, cc (e, are_same), is_same)

same_length :
    (all regions : List OsIpcSharedMemory)
    → map deref all ≡ map deref regions
    → length all ≡ length regions
same_length all regions e = sym (length-map deref all) ∙ ap length e ∙ length-map deref regions

-- The data of a message that has it.
pub payload-inline :
    (rename : ℕ → ℕ) (port : ℕ) (bytes : List ℕ) (ports : List OsIpcChannel)
    (regions all : List OsIpcSharedMemory) (ools : List Descriptor) (m : Message)
    → Carries rename (built port (inline bytes) ports regions ools) m
    → map deref all ≡ map deref regions
    → Fits bytes ports regions
    → payload m (length ports) all ≡ ok (bytes, all)
unfolding payload content_size is_inline inline_data
payload-inline rename port bytes ports regions all ools m c same fits =
    let (_, room, little) = size_of_bounds (inline bytes) (length ports) (length regions) in
    let flag : m.has_inline_data ≡ true = c.same_flag in
    let size : m.data_size ≡ length bytes = c.same_data_size in
    let is_whole : take m.data_size m.bytes ≡ bytes =
      rw (size, c.same_bytes) (take_all (length bytes) bytes (omega arith)) in
    let is_there : leb
          (m.data_size
            + (message_size
                + port_descriptor_size * length ports
                + ool_descriptor_size * length all))
          m.msgh_size
        ≡ true =
      le→leb _ _
        (omega (arith, room, little, size, c.same_size, same_length all regions same, fits)) in
    rw flag (rw is_there (rw is_whole refl))

-- Shared memory that was made of bytes, as `deref` gives it, if it does.
bytes_at-store :
    (a : Address) (bytes : List ℕ) {got : List ℕ}
    → bytes_at (store a bytes) (length bytes) ≡ ok got
    → got ≡ bytes
unfolding bytes_at
bytes_at-store null [] e = cc e
bytes_at-store null (x ∷ bytes) e = absurd (ground arith)
bytes_at-store (pages xs) bytes e =
    sym (ok_injective e) ∙ take-append (length bytes) bytes (drop (length bytes) xs) refl

deref-from_bytes :
    (vm : VmAllocate) (bytes : List ℕ) {got : List ℕ} (region : OsIpcSharedMemory)
    → from_bytes vm bytes ≡ ok region
    → deref region ≡ ok got
    → got ≡ bytes
unfolding from_bytes deref allocate_vm_pages
deref-from_bytes vm bytes {got} region e f =
    >>=-each (unwrap (vm (length bytes))) _ e λ a _ is_region.
      bytes_at-store a bytes (subst (λ r. deref r ≡ ok got) (sym (ok_injective is_region)) f)

-- A region among those that have descriptors can be read.
ool_descriptors-deref :
    (regions : List OsIpcSharedMemory) (region : OsIpcSharedMemory) {ds : List Descriptor}
    → ool_descriptors (regions ++ (region ∷ [])) ≡ ok ds
    → (got : List ℕ) × (deref region ≡ ok got)
unfolding ool_descriptors
ool_descriptors-deref [] region e = >>=-each (deref region) _ e λ got is_got _. (got, is_got)
ool_descriptors-deref (m ∷ regions) region e = >>=-each (deref m) _ e λ _ _ rest.
    >>=-each (ool_descriptors (regions ++ (region ∷ []))) _ rest
      λ ds is_ds _. ool_descriptors-deref regions region is_ds

pub message_for-deref :
    (port : ℕ) (d : SendData) (ports : List OsIpcChannel) (regions : List OsIpcSharedMemory)
    (region : OsIpcSharedMemory) {m : Message}
    → message_for port d ports (regions ++ (region ∷ [])) ≡ ok m
    → (got : List ℕ) × (deref region ≡ ok got)
unfolding message_for
message_for-deref port d ports regions region e =
    >>=-each (ool_descriptors (regions ++ (region ∷ []))) _ e
      λ ds is_ds _. ool_descriptors-deref regions region is_ds

-- The data of a message that has it in a region.
pub payload-region :
    (rename : ℕ → ℕ) (vm : VmAllocate) (port : ℕ) (bytes got : List ℕ) (ports : List OsIpcChannel)
    (regions all : List OsIpcSharedMemory) (region : OsIpcSharedMemory) (ools : List Descriptor)
    (m : Message)
    → Carries rename (built port (out_of_line none) ports (regions ++ (region ∷ [])) ools) m
    → map deref all ≡ map deref (regions ++ (region ∷ []))
    → from_bytes vm bytes ≡ ok region
    → deref region ≡ ok got
    → (rest : List OsIpcSharedMemory) × (payload m (length ports) all ≡ ok (bytes, rest))
      × (map deref rest ≡ map deref regions)
unfolding payload is_inline
payload-region rename vm port bytes got ports regions all region ools m c same is_made is_got =
    let (rest, last, popped, are_same, is_same) = pop_region-last regions region all same in
    let flag : m.has_inline_data ≡ false = c.same_flag in
    let is_bytes : deref last ≡ ok bytes =
      is_same ∙ is_got ∙ ap (λ x. ok x) (deref-from_bytes vm bytes region is_made is_got) in
    (rest, rw flag (rw popped (rw is_bytes refl)), are_same)
