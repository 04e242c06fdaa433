-- ===== src/Macos/OneShot.antt =====
-- `OsIpcOneShotServer` of src/platform/macos/mod.rs and the bootstrap names that it registers. A name is
-- a number: the random one behind the prefix.
use ipc_channel.Base.{
  ℕ, ◌≡◌, refl, ◌≢◌, List, [], ◌∷◌, ◌++◌, ◌==◌, if◌then◌else◌, ==_false, All, Result, ◌>>=◌, waits,
  err, ok,
}
use ipc_channel.Macos.System.{
  MachError, kern_success, bootstrap_name_in_use, bootstrap_success, mach_port_null,
  kernel_error_from, mach_error_from, kernel,
}
use ipc_channel.Macos.Ports.{
  OsIpcReceiver, OsIpcSender, Allocate, Extract, new_receiver, extract_port, consume, make_send,
}
use ipc_channel.Macos.Receive.{Call, Received, recv}

-- `task_get_special_port`: the code and the port.
unfoldable pub get_bootstrap_port : ℕ × ℕ → Result MachError ℕ
unfolding kernel_error_from
get_bootstrap_port (code, bootstrap_port) =
    if code == kern_success then ok bootstrap_port else err (kernel (kernel_error_from code))

-- `bootstrap_register2`, by the bootstrap port, the name and the right.
abbrev pub Register : Type 0
Register = ℕ → ℕ → ℕ → ℕ

-- The loop of `register_bootstrap_name`, with the random numbers.
unfoldable pub register_loop : Register → ℕ → ℕ → List ℕ → Result MachError ℕ
unfolding mach_error_from
register_loop register bootstrap_port right [] = waits
register_loop register bootstrap_port right (name ∷ names) =
    let code = register bootstrap_port name right in
    let rest = register_loop register bootstrap_port right names in
    if code == bootstrap_name_in_use
    then rest
    else (if code == bootstrap_success then ok name else err (mach_error_from code))

unfoldable pub register_bootstrap_name :
    ℕ × ℕ → Extract → Register → List ℕ → OsIpcReceiver → Result MachError ℕ
unfolding extract_port get_bootstrap_port make_send register_loop
register_bootstrap_name special extract register names r = do
  port ← extract_port r
  bootstrap_port ← get_bootstrap_port special
  right ← make_send extract port
  register_loop register bootstrap_port right names

unfoldable pub unregister_global_name : ℕ × ℕ → Register → ℕ → Result MachError (Unit {0})
unfolding get_bootstrap_port mach_error_from
unregister_global_name special register name = get_bootstrap_port special >>= λ bootstrap_port.
    let code = register bootstrap_port name mach_port_null in
    if code == bootstrap_success then ok tt else err (mach_error_from code)

-- `bootstrap_look_up`, by the bootstrap port and the name: the code and the port.
abbrev pub LookUp : Type 0
LookUp = ℕ → ℕ → ℕ × ℕ

unfoldable pub connect : ℕ × ℕ → LookUp → ℕ → Result MachError OsIpcSender
unfolding get_bootstrap_port mach_error_from
connect special look_up name = get_bootstrap_port special >>= λ bootstrap_port.
    let (code, port) = look_up bootstrap_port name in
    if code == bootstrap_success then ok (record { port = port }) else err (mach_error_from code)

pub record OsIpcOneShotServer : Type 0 where
  pub receiver : OsIpcReceiver
  pub name : ℕ

unfoldable pub new_server :
    Allocate → ℕ → ℕ × ℕ → Extract → Register → List ℕ → Result MachError (OsIpcOneShotServer × ℕ)
unfolding new_receiver register_bootstrap_name
new_server allocate attributes special extract register names = do
  r ← new_receiver allocate attributes
  name ← register_bootstrap_name special extract register names r
  ok (record { receiver = r; name = name }, name)

unfoldable pub accept : List Call → OsIpcOneShotServer → Result MachError (OsIpcReceiver × Received)
unfolding recv consume
accept calls s =
    recv calls s.receiver >>= λ message. (consume s.receiver).1 >>= λ r. ok (r, message)

-- The name that is registered is the first of the random ones that is not in use; an error is that of
-- the first other answer.
pub register_loop-finds :
    (register : Register) (bootstrap_port right name : ℕ) (used names : List ℕ)
    → All (λ n. register bootstrap_port n right ≡ bootstrap_name_in_use) used
    → register bootstrap_port name right ≢ bootstrap_name_in_use
    → register_loop register bootstrap_port right (used ++ (name ∷ names)) ≡ (
        if register bootstrap_port name right == bootstrap_success
        then ok name
        else err (mach_error_from (register bootstrap_port name right)))
unfolding register_loop
register_loop-finds register bootstrap_port right name [] names h n = rw (==_false _ _ n) refl
register_loop-finds register bootstrap_port right name (x ∷ used) names (h, hs) n =
    rw h (register_loop-finds register bootstrap_port right name used names hs n)
