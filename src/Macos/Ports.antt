-- ===== src/Macos/Ports.antt =====
-- Port rights in src/platform/macos/mod.rs: the operations of the kernel on them, and the two ends of a
-- channel. A handle is the name of its port; a call's code is an argument.
use ipc_channel.Base.{
  ℕ, List, [], ◌∷◌, ◌==◌, if◌then◌else◌, Result, ◌>>=◌, map_err, on_ok, chain, panic, err, ok,
}
use ipc_channel.Macos.System.{
  KernelError, MachError, kern_success, mach_port_null, mach_port_right_send,
  mach_port_right_receive, mach_msg_type_make_send, mach_msg_type_port_send, kernel_error_from,
  kernel,
}

-- What the wrappers of the kernel's operations make of its code.
unfoldable pub kernel_result {ℓ} : {A : Type ℓ} → ℕ → A → Result KernelError A
unfolding kernel_error_from
kernel_result code a = if code == kern_success then ok a else err (kernel_error_from code)

-- `mach_port_allocate`, by the right: the code and the port.
abbrev pub Allocate : Type 0
Allocate = ℕ → ℕ × ℕ

unfoldable pub mach_port_allocate : Allocate → ℕ → Result KernelError ℕ
unfolding kernel_result
mach_port_allocate allocate right = let (code, port) = allocate right in kernel_result code port

-- `mach_port_mod_refs`, by the port and the right.
abbrev pub ModRefs : Type 0
ModRefs = ℕ → ℕ → ℕ

unfoldable pub mach_port_mod_addref : ModRefs → ℕ → ℕ → Result KernelError (Unit {0})
unfolding kernel_result
mach_port_mod_addref refs port right = kernel_result (refs port right) tt

unfoldable pub mach_port_mod_release : ModRefs → ℕ → ℕ → Result KernelError (Unit {0})
unfolding kernel_result
mach_port_mod_release refs port right = kernel_result (refs port right) tt

unfoldable pub mach_port_move_member : ℕ → Result KernelError (Unit {0})
unfolding kernel_result
mach_port_move_member code = kernel_result code tt

-- The code, the right and the right that was acquired.
abbrev pub Extract : Type 0
Extract = ℕ → ℕ → ℕ × ℕ × ℕ

unfoldable pub mach_port_extract_right : Extract → ℕ → ℕ → Result KernelError (ℕ × ℕ)
unfolding kernel_result
mach_port_extract_right extract port message_type =
    let (code, right, acquired_right) = extract port message_type in
    kernel_result code (right, acquired_right)

pub record OsIpcReceiver : Type 0 where
  pub port : ℕ

pub record OsIpcSender : Type 0 where
  pub port : ℕ

pub data OsIpcChannel : Type 0 where
  sender : OsIpcSender → OsIpcChannel
  receiver : OsIpcReceiver → OsIpcChannel

unfoldable pub port_of : OsIpcChannel → ℕ
port_of (sender s) = s.port
port_of (receiver r) = r.port

pub record OsOpaqueIpcChannel : Type 0 where
  pub port : ℕ

unfoldable pub to_sender : OsOpaqueIpcChannel → OsOpaqueIpcChannel × OsIpcSender
to_sender c = (record { port = mach_port_null }, record { port = c.port })

unfoldable pub to_receiver : OsOpaqueIpcChannel → OsOpaqueIpcChannel × OsIpcReceiver
to_receiver c = (record { port = mach_port_null }, record { port = c.port })

-- `OsIpcReceiver::new`; the second argument is the code of `mach_port_set_attributes`.
unfoldable pub new_receiver : Allocate → ℕ → Result MachError OsIpcReceiver
unfolding mach_port_allocate kernel_result
new_receiver allocate attributes = do
  port ← map_err kernel (mach_port_allocate allocate mach_port_right_receive)
  map_err kernel (kernel_result attributes (record { port = port }))

-- `debug_assert!(port != MACH_PORT_NULL)`
unfoldable pub extract_port {ℓ} : {E : Type ℓ} → OsIpcReceiver → Result E ℕ
extract_port r = if r.port == mach_port_null then panic else ok r.port

unfoldable pub consume_port {ℓ} : {E : Type ℓ} → OsIpcReceiver → OsIpcReceiver × Result E ℕ
unfolding extract_port
consume_port r = on_ok r (extract_port r) λ port. (record { port = mach_port_null }, ok port)

unfoldable pub consume {ℓ} : {E : Type ℓ} → OsIpcReceiver → OsIpcReceiver × Result E OsIpcReceiver
unfolding consume_port
consume r = chain (consume_port r) λ r' port. (r', ok (record { port = port }))

-- `extract_right` with the assertion on what was acquired.
unfoldable pub make_send : Extract → ℕ → Result MachError ℕ
unfolding mach_port_extract_right
make_send extract port =
    map_err kernel (mach_port_extract_right extract port mach_msg_type_make_send)
    >>= λ (right, acquired). if acquired == mach_msg_type_port_send then ok right else panic

-- `OsIpcReceiver::sender`
unfoldable pub sender_of : Extract → OsIpcReceiver → Result MachError OsIpcSender
unfolding extract_port make_send
sender_of extract r = do
  port ← extract_port r
  right ← make_send extract port
  ok (record { port = right })

unfoldable pub request_no_senders_notification : ℕ → OsIpcReceiver → Result MachError (Unit {0})
unfolding extract_port kernel_result
request_no_senders_notification code r =
    extract_port r >>= λ port. map_err kernel (kernel_result code tt)

unfoldable pub channel : Allocate → ℕ → Extract → ℕ → Result MachError (OsIpcSender × OsIpcReceiver)
unfolding new_receiver sender_of request_no_senders_notification
channel allocate attributes extract notification = do
  r ← new_receiver allocate attributes
  s ← sender_of extract r
  _ ← request_no_senders_notification notification r
  ok (s, r)

-- `Drop for OsIpcReceiver`: the code of the release is unwrapped. The list is of the rights released.
unfoldable pub drop_receiver : ModRefs → OsIpcReceiver → List (ℕ × ℕ) × Result MachError (Unit {0})
unfolding mach_port_mod_release
drop_receiver refs r =
    if r.port == mach_port_null
    then ([], ok tt)
    else (elim (mach_port_mod_release refs r.port mach_port_right_receive) [
      | ok _ ↦ ((r.port, mach_port_right_receive) ∷ [], ok tt)
      | _ ↦ ([], panic)
    ])

-- `Clone for OsIpcSender`: the null name stands for a channel whose receiver is gone.
unfoldable pub clone_sender : ModRefs → OsIpcSender → Result MachError OsIpcSender
unfolding mach_port_mod_addref
clone_sender refs s =
    if s.port == mach_port_null
    then ok s
    else (elim (mach_port_mod_addref refs s.port mach_port_right_send) [
      | ok _ ↦ ok s
      | err KernelError.invalid_right ↦ ok (record { port = mach_port_null })
      | _ ↦ panic
    ])

-- `Drop for OsIpcSender`, with the code of `mach_port_deallocate` by the port.
unfoldable pub drop_sender : (ℕ → ℕ) → OsIpcSender → List (ℕ × ℕ) × Result MachError (Unit {0})
drop_sender deallocate s =
    if s.port == mach_port_null
    then ([], ok tt)
    else (if deallocate s.port == kern_success
        then ((s.port, mach_port_right_send) ∷ [], ok tt)
        else ([], panic))
