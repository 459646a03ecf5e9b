-- ===== src/Proxy/Forward.antt =====
-- The way of requests through the program, from the input of a client to the connection to the server.
use redisproxy.Base.{
  ℕ, ◌+◌, ◌-◌, ◌≤◌, ◌<◌, ◌≡◌, ◌∙◌, ap, refl, sym, true, false, Option, some, List, [], ◌∷◌, ◌++◌,
  append-nil, append_assoc, Bytes, length, length-append, arith, ◌==◌,
}
use redisproxy.Base.Int.{ℤ}
use redisproxy.Error.{Error, ok}
use redisproxy.Mem.{Ptr}
use redisproxy.Event.{Epoll}
use redisproxy.Socket.{Sockets, Options}
use redisproxy.Recycle.Valid.{IsValid}
use redisproxy.Recycle.Fifo.{contents}
use redisproxy.Cmd.{Cmd}
use redisproxy.Cmd.Multibulk.RoundTrip.{text, format_resp2-text}
use redisproxy.Conn.{Connection, no_flags, join}
use redisproxy.Conn.Window.{append_place}
use redisproxy.Conn.Laws.{InOrder, moved_to, at_self, write_to_buffer_total}
use redisproxy.Upstream.{
  Upstream, Pair, reader, no_pair, identity_of, is_acceptable, push_request, pool_push_request,
}
use redisproxy.Upstream.Push.{push_request-Queues}
use redisproxy.Session.{Session, stop, make_room, finish, on_client_read}
use redisproxy.Session.Serve.{stream, ArePrintable, ready, serve, on_client_read-serves}
use redisproxy.Proxy.{Owner, State, server_env, session_env, pushed, is_connected}

-- What waits for a session: a reply for each of its requests.
abbrev pub waits : Ptr → ℕ → List Cmd → List (Pair Ptr)
waits r id [] = []
waits r id (c ∷ cs) = record { identity = id; target = reader r } ∷ waits r id cs

module _ {E : Epoll} (K : Sockets E) (opt : Options) (resolved : Option ℤ) (r p : Ptr) where
  -- The upstream takes requests of the session `r`: its connection, at `p`, is live, connected and
  -- authorized, and the session is not deleted.
  pub record IsOpen (u : Upstream Ptr) (net : State K opt resolved) (c : Connection Owner)
      (own : Session) : Type 0 where
    pub linked : u.server_conn ≡ some p
    pub authorized : u.auth ≡ true
    pub valid : IsValid u.cmd_queue
    pub in_order : InOrder net
    pub live : net.conns p ≡ some c
    pub connected : c.connected ≡ true
    pub known : net.outer r ≡ some own

  connected_at :
      (u : Upstream Ptr) (net : State K opt resolved) (c : Connection Owner) (own : Session)
      → IsOpen u net c own
      → is_connected K opt resolved p net ≡ some true
  connected_at u net c own v = rw (v.live, is_connected) (ap (λ b. some b) v.connected)

  taken_at :
      (u : Upstream Ptr) (net : State K opt resolved) (c : Connection Owner) (own : Session)
      → IsOpen u net c own
      → is_acceptable (server_env K opt resolved) u net ≡ some true
  unfolding is_acceptable
  taken_at u net c own v =
      simp (v.linked, connected_at u net c own v, v.authorized, is_acceptable) refl

  -- No session and no connection but the one at `p` has changed.
  abbrev pub IsApart : State K opt resolved → State K opt resolved → Type 0
  IsApart net net' =
      (net'.outer ≡ net.outer) × ((q : Ptr) → (p == q) ≡ false → net'.conns q ≡ net.conns q)

  pushed_taken :
      (cmd : Cmd) (u : Upstream Ptr) (net : State K opt resolved) (u' : Upstream Ptr)
      (net' : State K opt resolved) (err : Error)
      → is_acceptable (server_env K opt resolved) u net ≡ some true
      → push_request (server_env K opt resolved) cmd (reader r) u net ≡ some (err, u', net')
      → pushed K opt resolved r cmd (u, net) ≡ some (err, (u', net'))
  unfolding pool_push_request
  pushed_taken cmd u net u' net' err taken sent =
      let t : pool_push_request (server_env K opt resolved) false cmd (reader r) u net
          ≡ some (err, u', net') =
        rw (taken, pool_push_request) sent in
      rw (t, pushed) refl

  pushed-IsOpen :
      (cmd : Cmd) (u : Upstream Ptr) (net : State K opt resolved) (c : Connection Owner)
      (own : Session)
      → IsOpen u net c own
      → length (contents no_pair u.cmd_queue) < length u.cmd_queue.holder - 1
      → (u' : Upstream Ptr) × (net' : State K opt resolved) × (c' : Connection Owner) × (pushed K
            opt resolved r cmd
            (u, net)
          ≡ some (ok, (u', net')))
        × IsOpen u' net' c' own
        × (length u'.cmd_queue.holder ≡ length u.cmd_queue.holder)
        × (contents no_pair u'.cmd_queue
            ≡ contents no_pair u.cmd_queue ++ record { identity = own.id; target = reader r } ∷ [])
        × (c'.send_buffer ≡ c.send_buffer ++ text cmd)
        × IsApart net net'
  unfolding identity_of
  pushed-IsOpen cmd u net c own v l =
      let env = server_env K opt resolved in
      let (e, w, (wr, ord), _) =
        write_to_buffer_total net p c (text cmd) no_flags v.in_order v.live in
      let c' : Connection Owner = record c {
        event = e;
        send_buffer = c.send_buffer ++ text cmd;
        place = append_place c.place (length c.send_buffer) (length (text cmd));
        flag = join c.flag no_flags;
      } in
      let net' = moved_to net p c' w in
      let on : is_connected K opt resolved p net ≡ some true = connected_at u net c own v in
      let id : identity_of env (reader r) u net ≡ some own.id = rw (v.known) refl in
      let (q, sent, vq, places, queued) =
        (push_request-Queues env cmd (reader r) u net p own.id v.linked id v.valid).2 on l in
      let sent' : push_request env cmd (reader r) u net
          ≡ some (ok, record u { cmd_queue = q }, net') =
        sent ∙ rw (wr) refl in
      let taken : is_acceptable env u net ≡ some true = taken_at u net c own v in
      (
        record u { cmd_queue = q },
        net',
        c',
        pushed_taken cmd u net (record u { cmd_queue = q }) net' ok taken sent',
        record {
          linked = v.linked;
          authorized = v.authorized;
          valid = vq;
          in_order = ord;
          live = at_self net.conns p (some c');
          connected = v.connected;
          known = v.known;
        },
        places,
        queued,
        refl,
        (refl, λ q n. rw n refl),
      )

  -- The program after requests of the session `r`: the same upstream and connection, with the text of
  -- the requests behind what was to be sent, and a reply for each of them behind those waited for.
  abbrev pub Sent :
      List Cmd
      → Upstream Ptr
      → State K opt resolved
      → Connection Owner
      → Session
      → Upstream Ptr
      → State K opt resolved
      → Connection Owner
      → Type 0
  Sent cs u net c own u' net' c' =
      IsOpen u' net' c' own
      × (contents no_pair u'.cmd_queue ≡ contents no_pair u.cmd_queue ++ waits r own.id cs)
      × (c'.send_buffer ≡ c.send_buffer ++ stream cs)
      × IsApart net net'

  serve-Sent :
      (cs : List Cmd) (conn : Ptr) (sess own : Session) (u : Upstream Ptr)
      (net : State K opt resolved) (c : Connection Owner)
      → IsOpen u net c own
      → length (contents no_pair u.cmd_queue) + length cs ≤ length u.cmd_queue.holder - 1
      → (u' : Upstream Ptr) × (net' : State K opt resolved) × (c' : Connection Owner) × (serve
            (session_env K opt resolved r)
            conn
            cs
            sess
            (u, net)
          ≡ some (stop, ready sess [], (u', net')))
        × Sent cs u net c own u' net' c'
  unfolding serve
  serve-Sent [] conn sess own u net c v l = (
    u,
    net,
    c,
    refl,
    (v, sym (append-nil _), sym (append-nil c.send_buffer), (refl, λ q n. refl)),
  )
  serve-Sent (cmd ∷ cs) conn sess own u net c v l =
      let (u₁, net₁, c₁, r₁, v₁, places, queued, sent, apart) =
        pushed-IsOpen cmd u net c own v (omega arith) in
      let x : Pair Ptr = record { identity = own.id; target = reader r } in
      let one =
        ap (λ (xs : List (Pair Ptr)). length xs) queued
        ∙ length-append (contents no_pair u.cmd_queue) (x ∷ []) in
      let (u', net', c', r', (v', queued', sent', apart')) =
        serve-Sent cs conn sess own u₁ net₁ c₁ v₁ (omega (arith, one, places)) in
      (
        u',
        net',
        c',
        rw (r₁, serve) r',
        (
          v',
          queued'
              ∙ ap (λ xs. xs ++ waits r own.id cs) queued
              ∙ append_assoc (contents no_pair u.cmd_queue) (x ∷ []) (waits r own.id cs),
          sent'
              ∙ ap (λ xs. xs ++ stream cs) sent
              ∙ append_assoc c.send_buffer (text cmd) (stream cs)
              ∙ ap (λ (t : Error × Bytes). c.send_buffer ++ (t.1 ++ stream cs))
                  (sym (format_resp2-text cmd [])),
          (apart'.0 ∙ apart.0, λ q n. apart'.1 q n ∙ apart.1 q n),
        ),
      )

  -- The whole way of requests as `FormatRESP2` prints them, with sizes that fit an `int32_t`
  -- with their end (`Printable`), through the session, the pool and the connection to the
  -- server: while the server is connected and authorized and the queue has places for them,
  -- `OnClientRead` with such requests as its whole input, and nothing left from an earlier
  -- call, puts the bytes of its input behind those to be sent to the server, and the session
  -- waits, once for each request, behind the readers that waited before. No session and no
  -- other connection has changed. Where the send buffer is moved over itself, `memcpy` is taken to move
  -- it.
  pub on_client_read-Sent :
      (cs : List Cmd) (conn : Ptr) (sess own : Session) (u : Upstream Ptr)
      (net : State K opt resolved) (c : Connection Owner) (min_size : ℕ) (grown : Option ℕ)
      → ArePrintable cs
      → IsOpen u net c own
      → length (contents no_pair u.cmd_queue) + length cs ≤ length u.cmd_queue.holder - 1
      → (u' : Upstream Ptr) × (net' : State K opt resolved) × (c' : Connection Owner)
        × (on_client_read
              (session_env K opt resolved r)
              min_size
              grown
              conn
              (ready sess (stream cs))
              (u, net)
            ≡ some (
              (make_room (session_env K opt resolved r) min_size grown (ready sess [])).0,
              (make_room (session_env K opt resolved r) min_size grown (ready sess [])).1,
              (u', net'),
            ))
        × Sent cs u net c own u' net' c'
  unfolding finish
  on_client_read-Sent cs conn sess own u net c min_size grown h v l =
      let env = session_env K opt resolved r in
      let (u', net', c', r', s) = serve-Sent cs conn sess own u net c v l in
      (
        u',
        net',
        c',
        on_client_read-serves env conn cs sess (u, net) min_size grown h
            ∙ ap (finish env min_size grown) r',
        s,
      )
