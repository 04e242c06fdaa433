-- ===== src/Macos/RoundTrip/Descriptors.antt =====
-- The descriptors of a message, read back.
use ipc_channel.Base.{
  ℕ, zero, suc, ◌+◌, ◌%◌, ◌^◌, ◌<◌, ◌≡◌, refl, ap, subst, ◌∙◌, List, [], ◌∷◌, ◌++◌, map, arith,
  length, All, >>=-each, ok,
}
use ipc_channel.Macos.Message.{
  Address, OsIpcSharedMemory, Disposition, Descriptor, bytes_at, deref, port_descriptor,
  ool_descriptor,
}
use ipc_channel.Macos.Ports.{OsIpcChannel, OsOpaqueIpcChannel, port_of, sender, receiver}
use ipc_channel.Macos.Send.{port_descriptors, ool_descriptors}
use ipc_channel.Macos.Receive.{read_ports, read_regions}
use ipc_channel.Macos.Send.Forms.{ok_injective}

-- The kernel gives a port another name, and the pages of a region another address.
pub data Carried (rename : ℕ → ℕ) : List Descriptor → List Descriptor → Type 0 where
  no_descriptors : Carried rename [] []
  carried_port :
      {ds ds' : List Descriptor} (name : ℕ) (d d' : Disposition)
      → Carried rename ds ds'
      → Carried rename (port_descriptor name d ∷ ds) (port_descriptor (rename name) d' ∷ ds')
  carried_region :
      {ds ds' : List Descriptor} (a a' : Address) (n : ℕ)
      → bytes_at a' n ≡ bytes_at a n
      → Carried rename ds ds'
      → Carried rename (ool_descriptor a n ∷ ds) (ool_descriptor a' n ∷ ds')

abbrev pub IsShort : OsIpcSharedMemory → Type 0
IsShort m = m.length < 2 ^ 32

-- Ports as they arrive.
abbrev pub renamed_port : (ℕ → ℕ) → OsIpcChannel → OsOpaqueIpcChannel
renamed_port rename c = record { port = rename (port_of c) }

abbrev pub renamed : (ℕ → ℕ) → List OsIpcChannel → List OsOpaqueIpcChannel
renamed rename = map (renamed_port rename)

-- The descriptors of regions.
pub data Described : List OsIpcSharedMemory → List Descriptor → Type 0 where
  no_regions : Described [] []
  region_described :
      {regions : List OsIpcSharedMemory} {ds : List Descriptor} (m : OsIpcSharedMemory)
      → Described regions ds
      → Described (m ∷ regions) (ool_descriptor m.ptr (m.length % 2 ^ 32) ∷ ds)

pub ool_descriptors-Described :
    (regions : List OsIpcSharedMemory) {ds : List Descriptor}
    → ool_descriptors regions ≡ ok ds
    → Described regions ds
unfolding ool_descriptors
ool_descriptors-Described [] e = subst (Described []) (ok_injective e) no_regions
ool_descriptors-Described (m ∷ regions) e = >>=-each (deref m) _ e λ _ _ rest.
    >>=-each (ool_descriptors regions) _ rest λ ds is_ds is_all.
      subst (Described (m ∷ regions)) (ok_injective is_all)
        (region_described m (ool_descriptors-Described regions is_ds))

-- Regions shorter than 4 GiB arrive with their lengths and their bytes.
pub read_regions-Carried :
    (rename : ℕ → ℕ) {regions : List OsIpcSharedMemory} {ools ds : List Descriptor}
    → Described regions ools
    → All IsShort regions
    → Carried rename ools ds
    → (regions' : List OsIpcSharedMemory) × (read_regions (length regions) ds ≡ ok regions')
      × (map deref regions' ≡ map deref regions)
unfolding read_regions deref
read_regions-Carried rename no_regions h no_descriptors = ([], refl, refl)
read_regions-Carried rename (region_described {regions} m described) (h, hs)
      (carried_region {ds' = ds'} a a' n same carried) =
    let (regions', is_read, are_same) = read_regions-Carried rename described hs carried in
    let e : m.length % 2 ^ 32 ≡ m.length = omega arith in
    let here : OsIpcSharedMemory = record { ptr = a'; length = m.length % 2 ^ 32 } in
    (
      here ∷ regions',
      rw is_read refl,
      ap (λ x. x ∷ map deref regions') (same ∙ ap (bytes_at m.ptr) e) ∙ ap (◌∷◌ (deref m)) are_same,
    )

read_ports-Carried_regions :
    (rename : ℕ → ℕ) {regions : List OsIpcSharedMemory} {ools ds : List Descriptor}
    → Described regions ools
    → Carried rename ools ds
    → read_ports (length regions) ds ≡ ([], length regions, ds)
unfolding read_ports
read_ports-Carried_regions rename no_regions no_descriptors = refl
read_ports-Carried_regions rename (region_described m described) (carried_region a a' n same c) =
    refl

-- The ports are read as they were sent, under their new names, and the regions remain.
pub read_ports-Carried :
    (rename : ℕ → ℕ) (ports : List OsIpcChannel) (n : ℕ) {regions : List OsIpcSharedMemory}
    {ools ds : List Descriptor}
    → n ≡ length ports + length regions
    → Described regions ools
    → Carried rename (port_descriptors ports ++ ools) ds
    → (rest : List Descriptor) × (read_ports n ds ≡ (renamed rename ports, length regions, rest))
      × Carried rename ools rest
unfolding read_ports port_descriptors
read_ports-Carried rename [] n {regions} {ds = ds} count described carried =
    let e : n ≡ length regions = omega arith in
    (ds, ap (λ k. read_ports k ds) e ∙ read_ports-Carried_regions rename described carried, carried)
read_ports-Carried rename (sender s ∷ ports) zero count described carried = absurd (omega arith)
read_ports-Carried rename (receiver s ∷ ports) zero count described carried = absurd (omega arith)
read_ports-Carried rename (sender s ∷ ports) (suc n) count described
      (carried_port name d d' carried) =
    let (rest, is_read, remains) =
      read_ports-Carried rename ports n (omega arith) described carried in
    (rest, rw is_read refl, remains)
read_ports-Carried rename (receiver r ∷ ports) (suc n) count described
      (carried_port name d d' carried) =
    let (rest, is_read, remains) =
      read_ports-Carried rename ports n (omega arith) described carried in
    (rest, rw is_read refl, remains)
