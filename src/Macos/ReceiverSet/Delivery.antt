-- ===== src/Macos/ReceiverSet/Delivery.antt =====
-- A message for a receiver in a set, reported under the receiver's identifier.
use ipc_channel.Base.{
  ℕ, ◌≤◌, ◌≡◌, refl, sym, ap, ◌∙◌, ◌≢◌, List, [], ◌∷◌, ◌++◌, map, arith, All, Result, map_err,
  on_ok-ok, ok,
}
use ipc_channel.Macos.System.{MachError, mach_port_null, kernel}
use ipc_channel.Macos.Message.{OsIpcSharedMemory, Message, deref, VmAllocate}
use ipc_channel.Macos.Ports.{
  OsIpcReceiver, OsIpcChannel, mach_port_move_member, extract_port, consume_port,
}
use ipc_channel.Macos.Send.{Mach, send}
use ipc_channel.Macos.Receive.{Call, max_trailer_size, blocking, data_received}
use ipc_channel.Macos.ReceiverSet.{OsIpcReceiverSet, add, select_set}
use ipc_channel.Macos.RoundTrip.Descriptors.{IsShort, renamed}
use ipc_channel.Macos.RoundTrip.Payload.{Carries, Fits}
use ipc_channel.Macos.RoundTrip.Delivery.{Holds, selected-Made, sent-Made}

-- What `add` has done if it has gone well.
pub record Added (s s' : OsIpcReceiverSet) (r : OsIpcReceiver) (id : ℕ) : Type 0 where
  pub is_port : id ≡ r.port
  pub same_set : s'.port ≡ s.port
  pub grows : s'.ports ≡ s.ports ++ (id ∷ [])

consume_port-port :
    (r : OsIpcReceiver) (id : ℕ)
    → ◌≡◌ {A = Result MachError ℕ} (consume_port r).1 (ok id)
    → id ≡ r.port
unfolding consume_port extract_port
consume_port-port r id e = ground arith

pub add-Added :
    (move_member : ℕ → ℕ → ℕ) (s s' : OsIpcReceiverSet) (r : OsIpcReceiver) (id : ℕ)
    → add move_member s r ≡ (s', ok id)
    → Added s s' r id
unfolding add
add-Added move_member s s' r id e =
    let (port, _, e1) = on_ok-ok s s' (extract_port r) _ e in
    let (_, _, e2) =
      on_ok-ok s s' (map_err kernel (mach_port_move_member (move_member port s.port))) _ e1 in
    let (taken, is_taken, e3) = on_ok-ok s s' (consume_port r).1 _ e2 in
    let same : taken ≡ id = cc e3 in
    record {
      is_port = consume_port-port r id (is_taken ∙ ap (λ x. ok x) same);
      same_set = cc e3;
      grows = cc e3;
    }

-- A message that `send` on macOS has sent, and that the kernel has carried to a receiver that was added
-- to a set, is reported by `select` under the identifier that `add` returned: with the data, the ports
-- under the names that the kernel gives them, and the regions with their lengths and bytes. What is
-- supposed of the kernel and of the lengths is what is supposed for `recv`.
pub select-add_macos :
    (rename : ℕ → ℕ) (vm : VmAllocate) (codes : List ℕ) (port : ℕ) (bytes : List ℕ)
    (ports : List OsIpcChannel) (regions : List OsIpcSharedMemory) (t t' : Mach) (m m' : Message)
    (trailer : ℕ) (first second : Call) (calls : List Call) (move_member : ℕ → ℕ → ℕ)
    (s s' : OsIpcReceiverSet) (r : OsIpcReceiver) (id : ℕ)
    → add move_member s r ≡ (s', ok id)
    → send vm codes port bytes ports regions t ≡ (t', ok tt)
    → t'.sent ≡ t.sent ++ (m ∷ [])
    → Carries rename m m'
    → m'.msgh_local_port ≡ r.port
    → Holds m' trailer first
    → Holds m' trailer second
    → trailer ≤ max_trailer_size
    → Fits bytes ports regions
    → All IsShort regions
    → s.port ≢ mach_port_null
    → (regions' : List OsIpcSharedMemory) × (select_set (first ∷ second ∷ calls) s'
        ≡ ok (data_received id bytes (renamed rename ports) regions' ∷ []))
      × (map deref regions' ≡ map deref regions)
unfolding select_set
select-add_macos rename vm codes port bytes ports regions t t' m m' trailer first second calls
      move_member s s' r id is_added is_sent is_last c is_for h k small fits short is_set =
    let added = add-Added move_member s s' r id is_added in
    let (all, made) = sent-Made vm codes port bytes ports regions t t' m is_sent is_last in
    let (regions', is_selected, same) =
      selected-Made rename vm port bytes ports regions all m m' trailer first second calls s'.port
        blocking made c h k small fits short (λ e. is_set (sym added.same_set ∙ e)) in
    let is_id : m'.msgh_local_port ≡ id = is_for ∙ sym added.is_port in
    (regions', rw is_selected (rw is_id refl), same)
