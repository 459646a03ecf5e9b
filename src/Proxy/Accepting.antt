-- ===== src/Proxy/Accepting.antt =====
-- `Accept` of src/netio.cpp, `Server::newClientConnection` of src/server.cpp, and `CreateConnection` of
-- src/connections.cpp: how a client comes in. What `accept` answers is an argument, and so are the
-- addresses of what is new.
use redisproxy.Base.{
  ℕ, zero, suc, true, Option, none, some, List, [], ◌∷◌, ◌++◌, ◌==◌, if◌then◌else◌,
}
use redisproxy.Base.Int.{ℤ, pos, negsuc}
use redisproxy.Error.{Error, of_code, ok, is_none}
use redisproxy.Mem.{Ptr}
use redisproxy.Event.{Epoll, attach}
use redisproxy.Socket.{
  Call, no_delay, nonblock_calls, keep_alive_calls, Handle, opened, refused, Sockets, Options,
  run_calls,
}
use redisproxy.Conn
use redisproxy.Conn.{Connection, Net, at, pure, close_event}
use redisproxy.Session.{Session, create_session, on_new_client_connection}
use redisproxy.Proxy.{Sessions, State, client_env}

-- `EINTR` of the system.
abbrev pub eintr : ℕ
eintr = 4

-- The loop around `accept`: the answer that ends it, if one of these does.
unfoldable pub accepted : List Handle → Option Handle
accepted [] = none
accepted (opened fd ∷ answers) = some (opened fd)
accepted (refused n ∷ answers) =
    let rest = accepted answers in if n == eintr then rest else some (refused n)

-- The calls on the new socket.
unfoldable pub accept_calls : Options → List Call
accept_calls opt =
    (if opt.socket_no_delay then no_delay ∷ [] else [])
    ++ (if opt.socket_non_block then nonblock_calls else [])
    ++ elim opt.socket_keep_alive [
      | pos zero ↦ []
      | pos (suc n) ↦ keep_alive_calls (suc n)
      | negsuc n ↦ []
    ]

abbrev pub put : Sessions → Ptr → Session → Sessions
put sessions r sess q = if r == q then some sess else sessions q

module _ {E : Epoll} (K : Sockets E) (opt : Options) (resolved : Option ℤ) where
  -- `CreateConnection`; no handler of the pool is set.
  abbrev pub create_connection : Ptr → State K opt resolved → State K opt resolved
  create_connection p net = record net { conns = at net.conns p (some Conn.create) }

  -- `newClientConnection`: the status, the counter of sessions, and the program. `init_size` and `grown` are
  -- those of `OnNewClientConnection`; `p` and `r` are the new connection and session.
  unfoldable pub new_client_connection :
      ℕ
      → Option ℕ
      → Ptr
      → Ptr
      → ℕ
      → State K opt resolved
      → Option (Error × ℕ × State K opt resolved)
  unfolding create_session
  new_client_connection init_size grown p r counter net =
      let (sess, counter') = create_session counter in
      elim (on_new_client_connection (client_env K opt resolved r) init_size grown p sess
        (create_connection p net)) [
          | none ↦ none
          | some (err, sess', net') ↦
              some (err, counter', record net' { outer = put net'.outer r sess' })
        ]

  -- `Accept` from `conn->fd = s` on. No handler of its end is set for the connection of a client.
  unfoldable pub attach_client :
      Ptr → ℕ → State K opt resolved → Option (Error × State K opt resolved)
  attach_client p fd net = elim (net.conns p) [
    | none ↦ none
    | some c ↦
        let (err, e, s) = attach E (record c.event { fd = some fd }) net.kernel in
        let net' : State K opt resolved = record net {
          kernel = s;
          conns = at net.conns p (some (record c { connected = true; event = e }));
        } in
        if is_none err then some (ok, net') else elim (close_event E (λ q. pure ok) p net') [
          | none ↦ none
          | some (_, net'') ↦ some (err, net'')
        ]
  ]

  -- `Accept( listenEvt, opt )`
  unfoldable pub accept :
      List Handle
      → ℕ
      → Option ℕ
      → Ptr
      → Ptr
      → ℕ
      → State K opt resolved
      → Option (Error × ℕ × State K opt resolved)
  unfolding accepted accept_calls new_client_connection attach_client
  accept answers init_size grown p r counter net = elim (accepted answers) [
    | none ↦ none
    | some (refused n) ↦ some (of_code (pos n), counter, net)
    | some (opened fd) ↦
        let (err, s) = run_calls K (accept_calls opt) fd net.kernel in
        if is_none err
        then elim (new_client_connection init_size grown p r counter (record net { kernel = s })) [
          | none ↦ none
          | some (err', counter', net') ↦
              if is_none err'
              then elim (attach_client p fd net') [
                | none ↦ none
                | some (err'', net'') ↦ some (err'', counter', net'')
              ]
              else some (err', counter', record net' { kernel = E.close_fd net'.kernel fd })
        ]
        else some (err, counter, record net { kernel = E.close_fd s fd })
  ]
