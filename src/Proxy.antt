-- ===== src/Proxy.antt =====
-- How the parts of the program call each other: what sessions and upstreams ask of their surroundings,
-- done by the connections of src/connections.cpp, the sessions of src/session.cpp and the pool of
-- src/upstream.cpp.
pub mod Forward
pub mod Deliver
pub mod Accepting
pub mod Welcome
pub mod Answer
pub mod Reading
pub mod Sound
pub mod Pushing
pub mod Popping
pub mod Handled
pub mod Serving
pub mod Looping
pub mod Turn
pub mod Joining
pub mod History
pub mod Starting
pub mod Alone
pub mod Handlers
pub mod Started
mod Tests
mod Examples
use redisproxy.Base.{ℕ, Bool, true, false, Option, none, some, Bytes}
use redisproxy.Base.Int.{ℤ}
use redisproxy.Error.{Error, ok}
use redisproxy.Mem.{Ptr}
use redisproxy.Event.{Epoll}
use redisproxy.Socket.{Sockets, Options}
use redisproxy.Conn
use redisproxy.Conn.{Connection, Net, M, no_flags, load, store, pure, ◌>>=◌, ◌>>◌}
use redisproxy.Conn.Link.{reconnect}
use redisproxy.Cmd.{Cmd}
use redisproxy.Upstream
use redisproxy.Upstream.{Upstream, reader, pool_push_request}
use redisproxy.Session
use redisproxy.Session.{Session}

-- Who reads from a connection: a session, or the upstream.
pub data Owner : Type 0 where
  client : Ptr → Owner
  server : Owner

-- The sessions that are not deleted.
abbrev pub Sessions : Type 0
Sessions = Ptr → Option Session

module _ {E : Epoll} (K : Sockets E) (opt : Options) (resolved : Option ℤ) where
  abbrev pub State : Type 0
  State = Net E.State Owner Sessions

  -- `IsConnected()`
  abbrev pub is_connected : Ptr → State → Option Bool
  is_connected p net = elim (net.conns p) [ none ↦ none | some c ↦ some c.connected ]

  -- `OnReadEvent( handler, pb )`: the handler and the buffer are those of `owner`.
  unfoldable pub on_read_event : Owner → Ptr → M E.State Owner Sessions Error
  on_read_event owner p = do
    c ← load p
    store p (some (record c { reader = some owner }))
    Conn.conn_readable E p true

  -- `OnClosedEvent( handler )`
  unfoldable pub on_closed_event : Ptr → M E.State Owner Sessions Error
  on_closed_event p = do c ← load p; store p (some (record c { watched = true })); pure ok

  -- What `OnServerWrite` of the session `r` calls; it pushes no request.
  abbrev pub client_env : Ptr → Session.Env State
  client_env r = record {
    push_request = λ cmd net. none;
    is_connected = is_connected;
    set_readable = λ p flag net. Conn.conn_readable E p flag net;
    write_to_buffer = λ p bytes flags net. Conn.write_to_buffer p bytes flags net;
    on_read_event = λ p net. on_read_event (client r) p net;
  }

  -- `Session::OnServerWrite( buffer )` of the session `r`; the handler changes no session.
  abbrev pub session_write : Ptr → Bytes → State → Option State
  session_write r bytes net = elim (net.outer r) [
    | none ↦ none
    | some sess ↦ Session.on_server_write (client_env r) bytes sess net
  ]

  -- What the upstream calls. A reader is the address of a session.
  abbrev pub server_env : Upstream.Env Ptr State
  server_env = record {
    identity = λ r net. elim (net.outer r) [ none ↦ none | some sess ↦ some sess.id ];
    on_server_write = session_write;
    is_connected = is_connected;
    write_to_buffer = λ p bytes net. Conn.write_to_buffer p bytes no_flags net;
    on_read_event = λ p net. on_read_event server p net;
    on_closed_event = λ p net. on_closed_event p net;
    reconnect = λ p net. reconnect K opt resolved p net;
  }

  -- A call of `UpstreamPool::PushRequest( cmd, reader )` by the session `r`.
  abbrev pub pushed : Ptr → Cmd → Upstream Ptr × State → Option (Error × (Upstream Ptr × State))
  pushed r cmd s = elim (pool_push_request server_env false cmd (reader r) s.0 s.1) [
    | none ↦ none
    | some (err, u, net) ↦ some (err, (u, net))
  ]

  -- A call that does not concern the upstream.
  abbrev pub aside :
      {T : Type 0}
      → (State → Option (T × State))
      → Upstream Ptr × State
      → Option (T × (Upstream Ptr × State))
  aside act s = elim (act s.1) [ none ↦ none | some (x, net) ↦ some (x, (s.0, net)) ]

  -- What the session `r` calls, without the cluster mode.
  abbrev pub session_env : Ptr → Session.Env (Upstream Ptr × State)
  session_env r = record {
    push_request = pushed r;
    is_connected = λ p s. is_connected p s.1;
    set_readable = λ p flag. aside (Conn.conn_readable E p flag);
    write_to_buffer = λ p bytes flags. aside (Conn.write_to_buffer p bytes flags);
    on_read_event = λ p. aside (on_read_event (client r) p);
  }
