-- ===== src/Macos/ReceiverSet.antt =====
-- `OsIpcReceiverSet` of src/platform/macos/mod.rs: a port set of the kernel. A receiver's identifier is
-- the name of its port.
pub mod Delivery
use ipc_channel.Base.{ℕ, List, [], ◌∷◌, ◌++◌, Result, ◌>>=◌, map_err, on_ok, chain, panic, ok}
use ipc_channel.Macos.System.{MachError, mach_port_right_receive, mach_port_right_port_set, kernel}
use ipc_channel.Macos.Message.{OsIpcSharedMemory}
use ipc_channel.Macos.Ports.{
  OsIpcReceiver, OsOpaqueIpcChannel, Allocate, mach_port_allocate, ModRefs, mach_port_mod_release,
  mach_port_move_member, extract_port, consume_port,
}
use ipc_channel.Macos.Receive.{
  OsIpcSelectionResult, Call, select, blocking, data_received, channel_closed,
}

pub record OsIpcReceiverSet : Type 0 where
  pub port : ℕ
  pub ports : List ℕ

unfoldable pub new_set : Allocate → Result MachError OsIpcReceiverSet
unfolding mach_port_allocate
new_set allocate = map_err kernel (mach_port_allocate allocate mach_port_right_port_set) >>= λ port.
    ok (record { port = port; ports = [] })

-- The argument is the code of `mach_port_move_member`, by the port and the set.
unfoldable pub add :
    (ℕ → ℕ → ℕ) → OsIpcReceiverSet → OsIpcReceiver → OsIpcReceiverSet × Result MachError ℕ
unfolding extract_port mach_port_move_member consume_port
add move_member s r = on_ok s (extract_port r) λ port.
    on_ok s (map_err kernel (mach_port_move_member (move_member port s.port))) λ _.
      on_ok s (consume_port r).1
        λ receiver_port. (record s { ports = s.ports ++ (receiver_port ∷ []) }, ok receiver_port)

unfoldable pub select_set :
    List Call → OsIpcReceiverSet → Result MachError (List OsIpcSelectionResult)
unfolding select
select_set calls s = select calls s.port blocking >>= λ result. ok (result ∷ [])

-- `OsIpcSelectionResult::unwrap`
unfoldable pub unwrap_selection :
    OsIpcSelectionResult
    → Result MachError (ℕ × List ℕ × List OsOpaqueIpcChannel × List OsIpcSharedMemory)
unwrap_selection (data_received id bytes channels regions) = ok (id, bytes, channels, regions)
unwrap_selection (channel_closed id) = panic

-- `Drop`: every release is unwrapped. The list is of the rights that have been released.
unfoldable pub release_ports :
    ModRefs → List ℕ → List (ℕ × ℕ) → List (ℕ × ℕ) × Result MachError (Unit {0})
unfolding mach_port_mod_release
release_ports refs [] released = (released, ok tt)
release_ports refs (port ∷ ports) released =
    let rest = release_ports refs ports (released ++ ((port, mach_port_right_receive) ∷ [])) in
    elim (mach_port_mod_release refs port mach_port_right_receive) [
      | ok _ ↦ rest
      | _ ↦ (released, panic)
    ]

unfoldable pub drop_set : ModRefs → OsIpcReceiverSet → List (ℕ × ℕ) × Result MachError (Unit {0})
unfolding release_ports mach_port_mod_release
drop_set refs s = chain (release_ports refs s.ports []) λ released _.
    elim (mach_port_mod_release refs s.port mach_port_right_port_set) [
      | ok _ ↦ (released ++ ((s.port, mach_port_right_port_set) ∷ []), ok tt)
      | _ ↦ (released, panic)
    ]
