-- ===== src/Proxy/Starting.antt =====
-- `UpstreamPool::Init` of src/upstream.cpp and `Server::Init` of src/server.cpp, with `io::Init` of
-- src/epoll.cpp. Whether `epoll_create` gives a descriptor, and what `GetAddrInfo` makes of the address to
-- listen at, are arguments.
use redisproxy.Base.{ℕ, Bool, Option, none, some, [], Bytes, if◌then◌else◌}
use redisproxy.Base.Int.{ℤ}
use redisproxy.Error.{Error, init_failed, not_implemented, is_none}
use redisproxy.Mem.{Ptr}
use redisproxy.Event
use redisproxy.Event.{Epoll, Event}
use redisproxy.Socket
use redisproxy.Socket.{Sockets, Options}
use redisproxy.Conn.Link.{reconnect}
use redisproxy.Upstream
use redisproxy.Upstream.{Upstream}
use redisproxy.Proxy.{Sessions, State, server_env}
use redisproxy.Proxy.Accepting.{create_connection}

-- What the options say of the upstream.
pub record Setup : Type 0 where
  pub cluster_mode : Bool
  pub conn_send_buffer_count : ℕ
  pub read_buffer_init_size : ℕ
  pub password : Bytes

module _ {E : Epoll} (K : Sockets E) (opt : Options) (resolved : Option ℤ) where
  -- The pool: `singular_`, which may be the null pointer.
  abbrev pub Pool : Type 0
  Pool = Option (Upstream Ptr)

  abbrev pub no_sessions : Sessions
  no_sessions r = none

  -- The program before its start.
  abbrev pub at_rest : E.State → State K opt resolved
  at_rest s = record {
    kernel = s;
    writes = record { nodes = []; next_id = 0 };
    conns = λ q. none;
    outer = no_sessions;
  }

  -- `UpstreamPool::Init()`; `p` is the place of the new connection. `Connect` is `Reconnect` with the address
  -- set first.
  unfoldable pub pool_init :
      Setup → Option ℕ → Ptr → State K opt resolved → Option (Error × Pool × State K opt resolved)
  pool_init setup grown p net =
      if setup.cluster_mode
      then some (not_implemented, none, net)
      else elim (reconnect K opt resolved p (create_connection K opt resolved p net)) [
        | none ↦ none
        | some (err, net₁) ↦
            if is_none err
            then elim (Upstream.init (server_env K opt resolved) setup.read_buffer_init_size grown p
                setup.password (Upstream.create setup.conn_send_buffer_count) net₁) [
                  | none ↦ none
                  | some (err', u, net₂) ↦ some (err', some u, net₂)
                ]
            else some (err, none, net₁)
      ]

  -- `Server::Init()`: the status, the event to listen at, the pool and the program.
  unfoldable pub server_init :
      Bool
      → Option ℤ
      → Setup
      → Option ℕ
      → Ptr
      → E.State
      → Option (Error × Event × Pool × State K opt resolved)
  server_init created listen_resolved setup grown p s =
      if created
      then (let (err, listener, s') = Socket.listen K opt listen_resolved Event.fresh s in
          if is_none err
          then elim (pool_init setup grown p (at_rest s')) [
            | none ↦ none
            | some (err', pool, net) ↦ some (err', listener, pool, net)
          ]
          else some (err, listener, none, at_rest s'))
      else some (init_failed, Event.fresh, none, at_rest s)
