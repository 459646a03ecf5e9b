-- ===== src/Conn.antt =====
-- `class Connection` of src/connections.h and src/connections.cpp, and `Write` and `Close` of
-- src/netio.cpp. What `write` answers is an argument, and so is the handler of closed connections.
-- A send buffer stands for the bytes that it shows and its place in the block (`Conn.Window`); memory does not run out here.
pub mod Window
pub mod Laws
pub mod Polling
pub mod Erasing
pub mod Round
pub mod Drain
pub mod Order
pub mod Trace
pub mod Overlap
pub mod Shut
pub mod Stale
pub mod Link
pub mod Reading
mod Tests
use redisproxy.Base.{
  ℕ, zero, suc, Bool, true, false, ◌||◌, ◌&&◌, not, Option, none, some, [], ◌++◌, Bytes, length,
  ◌==◌, ltb, leb, ◌+◌, ◌-◌, if◌then◌else◌,
}
use redisproxy.Base.Int.{pos}
use redisproxy.Error.{Error, of_code, ok, closed, try_again, is_none, equal}
use redisproxy.Mem.{Ptr}
use redisproxy.Buffer.View
use redisproxy.Conn.Window.{Place, append_place, past, cleared}
use redisproxy.Event
use redisproxy.Event.{Epoll, Event, Writes, set_writable}

-- `NET_FLAG_CLOSE` and `NET_FLAG_RST`, the two bits of `flag_` that the program sets.
pub record Flags : Type 0 where
  pub close : Bool
  pub rst : Bool

abbrev pub no_flags : Flags
no_flags = record { close = false; rst = false }

-- `flags |= NET_FLAG_CLOSE` where `NET_FLAG_RST` is set, and `flag_ |= flags`.
abbrev pub join : Flags → Flags → Flags
join old new = record { close = old.close || (new.close || new.rst); rst = old.rst || new.rst }

-- A connection. `O` names who reads: the object that `recvBuffer_` and `readEventHander_` belong to.
-- `watched` says that a handler for its end is set. `OnWriteEvent`, `OnErrorEvent` and the handlers
-- of the pool are set nowhere in the program.
pub record Connection (O : Type 0) : Type 0 where
  pub event : Event
  pub flag : Flags
  pub connected : Bool
  pub reader : Option O
  pub send_buffer : Bytes
  pub place : Place
  pub watched : Bool

-- `Connection( opt, pool )`, and what `new` makes of it.
abbrev pub create : {O : Type 0} → Connection O
create = record {
  event = Event.fresh;
  flag = no_flags;
  connected = false;
  reader = none;
  send_buffer = [];
  place = record { offset = 0; capacity = 0; overlapped = false };
  watched = false;
}

-- The system's epoll set, the list of events to write, the connections that are not deleted, and
-- what else the program keeps.
pub record Net (K O S : Type 0) : Type 0 where
  pub kernel : K
  pub writes : Writes
  pub conns : Ptr → Option (Connection O)
  pub outer : S

-- What `write` answers: a number of bytes, or -1 with an `errno`.
pub data Answer : Type 0 where
  moved failed : ℕ → Answer

-- `EAGAIN` of the system.
abbrev pub eagain : ℕ
eagain = 11

-- `Event::Write( buffer )`: the status, the event, the list, and what the buffer shows.
unfoldable pub write_out :
    Ptr → Answer → Event → Writes → Bytes → Option (Error × Event × Writes × Bytes)
unfolding View.offset
write_out self (failed n) e w buffer =
    if n == eagain then some (try_again, e, w, buffer) else elim (set_writable self false e w) [
      | none ↦ none
      | some (_, e', w') ↦ some (of_code (pos n), e', w', buffer)
    ]
write_out self (moved zero) e w buffer = some (try_again, e, w, buffer)
write_out self (moved (suc n)) e w buffer =
    if ltb (suc n) (length buffer)
    then some (try_again, e, w, View.offset buffer (suc n) (pos 0))
    else some (ok, e, w, buffer)

-- A computation on the program; `none` is a fault, such as the use of a deleted connection.
abbrev pub M : Type 0 → Type 0 → Type 0 → Type 0 → Type 0
M K O S R = Net K O S → Option (R × Net K O S)

infixl 5 ◌>>=◌
abbrev pub ◌>>=◌ : {K O S R T : Type 0} → M K O S R → (R → M K O S T) → M K O S T
◌>>=◌ act next net = elim (act net) [ some (x, net') ↦ next x net' | none ↦ none ]

infixl 5 ◌>>◌
abbrev pub ◌>>◌ : {K O S T : Type 0} → M K O S (Unit {0}) → M K O S T → M K O S T
act >> next = act >>= λ _. next

abbrev pub pure : {K O S R : Type 0} → R → M K O S R
pure x net = some (x, net)

abbrev pub at :
    {O : Type 0}
    → (Ptr → Option (Connection O))
    → Ptr
    → Option (Connection O)
    → Ptr
    → Option (Connection O)
at conns p c q = if p == q then c else conns q

module _ {K O S : Type 0} where
  abbrev pub load : Ptr → M K O S (Connection O)
  load p net = elim (net.conns p) [ none ↦ none | some c ↦ some (c, net) ]

  abbrev pub store : Ptr → Option (Connection O) → M K O S (Unit {0})
  store p c net = some (tt, record net { conns = at net.conns p c })

  -- `SetWritable( flag )` of a connection.
  unfoldable pub conn_writable : Ptr → Bool → M K O S Error
  conn_writable p flag net = elim (net.conns p) [
    | none ↦ none
    | some c ↦ elim (set_writable p flag c.event net.writes) [
      | none ↦ none
      | some (err, e, w) ↦
          some
            (err, record net { writes = w; conns = at net.conns p (some (record c { event = e })) })
    ]
  ]

  unfoldable pub write_to_buffer : Ptr → Bytes → Flags → M K O S Error
  write_to_buffer p bytes flags = do
    err ← conn_writable p true
    if is_none err
        then (do
          c ← load p
          store p (
              some (record c {
                send_buffer = c.send_buffer ++ bytes;
                place = append_place c.place (length c.send_buffer) (length bytes);
                flag = join c.flag flags;
              }))
          pure ok)
        else pure err

module _ (E : Epoll) {O S : Type 0} where
  -- `RemoveNotify` of a connection.
  unfoldable pub conn_remove_notify : Ptr → M E.State O S Error
  conn_remove_notify p net = elim (net.conns p) [
    | none ↦ none
    | some c ↦
        let (err, e, s) = Event.remove_notify E c.event net.kernel in
        some
          (err, record net { kernel = s; conns = at net.conns p (some (record c { event = e })) })
  ]

  -- `SetReadable( flag )` of a connection.
  unfoldable pub conn_readable : Ptr → Bool → M E.State O S Error
  conn_readable p flag net = elim (net.conns p) [
    | none ↦ none
    | some c ↦
        let (err, e, s) = Event.set_readable E flag c.event net.kernel in
        some
          (err, record net { kernel = s; conns = at net.conns p (some (record c { event = e })) })
  ]

  -- `delete conn`, with the destructor of `Event`.
  unfoldable pub delete : Ptr → M E.State O S (Unit {0})
  delete p = do
    c ← load p
    elim c.event.fd [ none ↦ pure tt | some fd ↦ conn_remove_notify p >>= λ _. pure tt ]
    store p none

  -- `close( fd )`
  abbrev pub close_fd : Option ℕ → M E.State O S (Unit {0})
  close_fd none net = some (tt, net)
  close_fd (some fd) net = some (tt, record net { kernel = E.close_fd net.kernel fd })

  module _ (on_end : Ptr → M E.State O S Error) where
    -- `Connection::OnClosed`, with `ConnectionPool::RemoveConnection`.
    unfoldable pub on_closed : Ptr → M E.State O S (Unit {0})
    on_closed p = do
      c ← load p
      store p (some (record c { connected = false }))
      if c.watched then (on_end p >>= λ _. pure tt) else pure tt
      delete p

    -- `Event::Close( flags )`. `SetCloseNoWait` only changes how the system closes the socket.
    unfoldable pub close_event : Ptr → M E.State O S Error
    close_event p = do
      err ← conn_remove_notify p
      c ← load p
      close_fd c.event.fd
      on_closed p
      pure err

    -- `OnWritable` behind the call of `Write`, where that did not fail.
    unfoldable pub after_write : Ptr → Bool → M E.State O S Error
    after_write p sent_out = do
      c ← load p
      if c.flag.close
          then (close_event p >>= λ _. pure closed)
          else if sent_out
          then (conn_writable p false >>= λ _. pure ok)
          else pure ok

    -- `Write( &sendBuffer_ )` of a connection.
    unfoldable pub conn_write : Ptr → Answer → M E.State O S Error
    unfolding write_out
    conn_write p answer net = elim (net.conns p) [
      | none ↦ none
      | some c ↦ elim (write_out p answer c.event net.writes c.send_buffer) [
        | none ↦ none
        | some (err, e, w, buffer) ↦ some (
          err,
          record net {
            writes = w;
            conns = at net.conns p (
                some (record c {
                  event = e;
                  send_buffer = buffer;
                  place = past (length c.send_buffer - length buffer) c.place;
                }));
          },
        )
      ]
    ]

    -- `Connection::OnWritable`
    unfoldable pub on_writable : Ptr → Answer → M E.State O S Error
    on_writable p answer = do
      c ← load p
      if length c.send_buffer == 0 then (conn_writable p false >>= λ _. pure ok) else (do
        err ← conn_write p answer
        if is_none err
            then (do
              c' ← load p
              store p (some (record c' { send_buffer = []; place = cleared c'.place }))
              after_write p true)
            else if equal err try_again
            then after_write p false
            else pure err)
