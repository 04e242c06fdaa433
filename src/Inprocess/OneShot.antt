-- ===== src/Inprocess/OneShot.antt =====
-- The one-shot servers of src/platform/inprocess/mod.rs: a global table by name, in which a server
-- waits for one client. A call that takes the lock is one step; `accept` takes it twice.
use ipc_channel.Base.{
  ℕ, ◌+◌, ◌-◌, ◌≡◌, refl, Option, none, some, Result, ok, panic, waits, ◌>>=◌, on_ok, arith, ltb,
  ◌==◌, if◌then◌else◌,
}
use ipc_channel.Inprocess.Channel.{
  ChannelError, OsIpcSender, OsIpcReceiver, Message, Arrival, channel, recv,
}

-- `conns` is the count of the `true`s in the record's own channel. A clone of a record shares it.
pub record ServerRecord : Type 0 where
  pub sender : OsIpcSender
  pub conns : ℕ

-- `ONE_SHOT_SERVERS`. A name is a number: it is made by the uuid library.
abbrev pub Servers : Type 0
Servers = ℕ → Option ServerRecord

abbrev pub update : ℕ → Option ServerRecord → Servers → Servers
update name r servers n = if name == n then r else servers n

pub record OsIpcOneShotServer : Type 0 where
  pub receiver : OsIpcReceiver
  pub name : ℕ

-- `ServerRecord::new`
unfoldable pub new_record : OsIpcSender → ServerRecord
new_record s = record { sender = s; conns = 0 }

-- `ServerRecord::connect`
unfoldable pub record_connect : ServerRecord → ServerRecord
record_connect r = record r { conns = r.conns + 1 }

-- `ServerRecord::accept`: waits while no client has connected.
unfoldable pub record_accept : ServerRecord → Result ChannelError ServerRecord
record_accept r = if ltb 0 r.conns then ok (record r { conns = r.conns - 1 }) else waits

-- `OsIpcOneShotServer::new`, for the name that the uuid library makes and a fresh crossbeam channel.
unfoldable pub new : ℕ → ℕ → Servers → Servers × OsIpcOneShotServer × ℕ
unfolding new_record channel
new uuid c servers =
    let (sender, receiver) = channel c in
    (
      update uuid (some (new_record sender)) servers,
      record { receiver = receiver; name = uuid },
      uuid,
    )

-- `OsIpcSender::connect`
unfoldable pub connect : ℕ → Servers → Servers × Result ChannelError OsIpcSender
unfolding record_connect
connect name servers = elim (servers name) [
  | none ↦ (servers, panic)
  | some r ↦ (update name (some (record_connect r)) servers, ok r.sender)
]

-- `accept` up to the removal of the record.
unfoldable pub accept_record :
    OsIpcOneShotServer → Servers → Servers × Result ChannelError (Unit {0})
unfolding record_accept
accept_record server servers = elim (servers server.name) [
  | none ↦ (servers, panic)
  | some r ↦ on_ok servers (record_accept r) λ r'. (update server.name none servers, ok tt)
]

-- `OsIpcOneShotServer::accept`
unfoldable pub accept :
    OsIpcOneShotServer
    → (ℕ → Arrival)
    → Servers
    → Servers × Result ChannelError (OsIpcReceiver × Message)
unfolding accept_record
accept server arrival servers =
    let (servers', r) = accept_record server servers in
    on_ok servers' r λ _. (servers', recv server.receiver arrival >>= λ m. ok (server.receiver, m))

-- A server accepts exactly one client: before a client has connected it waits; then it gets the first
-- message on its own channel, to which the client's sender belongs; and then its name is gone, so
-- that a further client panics. Other servers are not touched.
pub accept-connect-new :
    (uuid c name : ℕ) (servers : Servers) (arrival : ℕ → Arrival)
    → let made = new uuid c servers in
      let joined = connect uuid made.0 in
      let done = accept made.1 arrival joined.0 in
      ((accept made.1 arrival made.0).1 ≡ waits)
      × (joined.1 ≡ ok (record { sender = c }))
      × (done.1 ≡ (recv made.1.receiver arrival >>= λ m. ok (made.1.receiver, m)))
      × (made.1.receiver ≡ record { receiver = some c })
      × ((connect uuid done.0).1 ≡ panic)
      × (done.0 name ≡ (if uuid == name then none else servers name))
unfolding new connect accept
accept-connect-new uuid c name servers arrival =
    (ground arith, ground arith, ground arith, refl, ground arith, ground arith)
