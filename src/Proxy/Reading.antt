-- ===== src/Proxy/Reading.antt =====
-- `Event::Read` of src/netio.cpp, `Connection::OnReadable` of src/connections.cpp, and the handlers behind
-- it: what the system has for a connection goes to its owner.
use redisproxy.Base.{
  ℕ, ◌-◌, false, ◌||◌, Option, none, some, ◌++◌, Bytes, length, take, ◌==◌, if◌then◌else◌,
}
use redisproxy.Base.Int.{ℤ, pos}
use redisproxy.Error.{Error, of_code, ok, full, eof, try_again, is_none, equal}
use redisproxy.Mem.{Ptr}
use redisproxy.Event.{Epoll}
use redisproxy.Socket.{Sockets, Options}
use redisproxy.Conn
use redisproxy.Conn.{Connection, Net, M, eagain, close_event}
use redisproxy.Cmd.Parser.{Parser}
use redisproxy.Upstream.{Upstream, on_server_closed, on_server_read}
use redisproxy.Session.{on_client_read}
use redisproxy.Proxy.{Owner, client, server, Sessions, State, session_env, server_env, aside}
use redisproxy.Proxy.Accepting.{eintr, put}

-- What `read` finds: the bytes that have come, none at the end of the stream, or a failure with its
-- `errno`. It gives at most as many bytes as it is asked for.
pub data Input : Type 0 where
  received : Bytes → Input
  failed : ℕ → Input

-- The options `ReadBufferMinSize` of both sides, and what the allocator has for a buffer that grows.
pub record Room : Type 0 where
  pub client_min : ℕ
  pub server_min : ℕ
  pub grown : Option ℕ

-- A buffer that takes bytes that `read` has put behind its content.
abbrev pub filled : Bytes → Parser → Parser
filled bs p = record p { input = p.input ++ bs }

module _ {E : Epoll} (K : Sockets E) (opt : Options) (resolved : Option ℤ) (sizes : Room) where
  abbrev pub World : Type 0
  World = Upstream Ptr × State K opt resolved

  -- The free size of the buffer of `owner`; `none` for a deleted session.
  unfoldable pub free_size : Owner → World → Option ℕ
  free_size (client r) (u, net) = elim (net.outer r) [ none ↦ none | some sess ↦ some sess.room ]
  free_size server (u, net) = some u.room

  -- `AppendSize` behind `read`: the bytes are in the buffer of `owner`.
  unfoldable pub append_size : Owner → Bytes → World → World
  append_size (client r) bs (u, net) = elim (net.outer r) [
    | none ↦ (u, net)
    | some sess ↦ (
      u,
      record net {
        outer =
            put net.outer r
              (record sess { parser = filled bs sess.parser; room = sess.room - length bs });
      },
    )
  ]
  append_size server bs (u, net) =
      (record u { parser = filled bs u.parser; room = u.room - length bs }, net)

  -- The program with the upstream among what is outside of the connections, as their handlers see it.
  abbrev pub Whole : Type 0
  Whole = Net E.State Owner (Upstream Ptr × Sessions)

  abbrev pub joined : World → Whole
  joined (u, net) = record {
    kernel = net.kernel;
    writes = net.writes;
    conns = net.conns;
    outer = (u, net.outer);
  }

  abbrev pub parted : Whole → World
  parted whole = (
    whole.outer.0,
    record {
      kernel = whole.kernel;
      writes = whole.writes;
      conns = whole.conns;
      outer = whole.outer.1;
    },
  )

  -- The handler of the end of the connection to the server: `OnServerClosed`.
  unfoldable pub server_end : Ptr → M E.State Owner (Upstream Ptr × Sessions) Error
  server_end q whole =
      let (u, net) = parted whole in
      elim (on_server_closed (server_env K opt resolved) u net) [
        | none ↦ none
        | some (err, u', net') ↦ some (err, joined (u', net'))
      ]

  -- A call of a connection whose handlers may change the upstream.
  abbrev pub within :
      {T : Type 0} → M E.State Owner (Upstream Ptr × Sessions) T → World → Option (T × World)
  within act w = elim (act (joined w)) [ none ↦ none | some (x, whole) ↦ some (x, parted whole) ]

  -- `Close()` of a connection.
  abbrev pub close : Ptr → World → Option (Error × World)
  close p = within (close_event E server_end p)

  -- `Event::Read( buffer )` with the buffer of `owner`
  unfoldable pub event_read : Ptr → Owner → Input → World → Option (Error × World)
  event_read p owner input w = elim (free_size owner w) [
    | none ↦ none
    | some room ↦
        if room == 0
        then elim (aside K opt resolved (Conn.conn_readable E p false) w) [
          | none ↦ none
          | some (_, w') ↦ some (full, w')
        ]
        else elim input [
          | failed n ↦
              if n == eagain || n == eintr
              then some (try_again, w)
              else elim (close p w) [ none ↦ none | some (_, w') ↦ some (of_code (pos n), w') ]
          | received bs ↦
              if length (take room bs) == 0
              then elim (close p w) [ none ↦ none | some (_, w') ↦ some (eof, w') ]
              else some (ok, append_size owner (take room bs) w)
        ]
  ]

  -- The handler of `owner`: `OnClientRead` of its session, or `OnServerRead`. Its result is not looked
  -- at.
  unfoldable pub read_event : Ptr → Owner → World → Option World
  read_event p (client r) (u, net) = elim (net.outer r) [
    | none ↦ none
    | some sess ↦
        elim (on_client_read (session_env K opt resolved r) sizes.client_min sizes.grown p sess
          (u, net)) [
            | none ↦ none
            | some (_, sess', (u', net')) ↦
                some (u', record net' { outer = put net'.outer r sess' })
          ]
  ]
  read_event p server (u, net) =
      elim (on_server_read (server_env K opt resolved) sizes.server_min sizes.grown u net) [
        | none ↦ none
        | some (_, u', net') ↦ some (u', net')
      ]

  -- `Connection::OnReadable`
  unfoldable pub on_readable : Ptr → Input → World → Option (Error × World)
  on_readable p input w = elim (w.1.conns p) [
    | none ↦ none
    | some c ↦ elim c.reader [
      | none ↦ elim (aside K opt resolved (Conn.conn_readable E p false) w) [
        | none ↦ none
        | some (_, w') ↦ some (ok, w')
      ]
      | some owner ↦ elim (event_read p owner input w) [
        | none ↦ none
        | some (err, w') ↦
            if is_none err || equal err full
            then elim (read_event p owner w') [ none ↦ none | some w'' ↦ some (ok, w'') ]
            else some (err, w')
      ]
    ]
  ]
