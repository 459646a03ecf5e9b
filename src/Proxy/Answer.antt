-- ===== src/Proxy/Answer.antt =====
-- Requests of a client and the replies of the server to them, from end to end.
use redisproxy.Base.{
  ℕ, ◌-◌, ◌≤◌, ◌≡◌, ◌∙◌, ap, refl, sym, false, Option, some, List, [], ◌∷◌, ◌++◌, append-nil,
  length, ◌==◌, arith, Bool-cases, inl, inr, ltb,
}
use redisproxy.Base.Int.{ℤ}
use redisproxy.Error.{Error}
use redisproxy.Mem.{Ptr}
use redisproxy.Event.{Epoll}
use redisproxy.Socket.{Sockets, Options}
use redisproxy.Recycle.Fifo.{contents}
use redisproxy.Cmd.{Cmd}
use redisproxy.Cmd.Parser.Response.{Reply}
use redisproxy.Conn.{Connection}
use redisproxy.Upstream
use redisproxy.Upstream.{Upstream, Pair, no_pair, on_server_read, make_room}
use redisproxy.Upstream.Route
use redisproxy.Upstream.Route.{pairs, AreReplies}
use redisproxy.Session.{Session, on_client_read}
use redisproxy.Session.Serve
use redisproxy.Session.Serve.{ArePrintable}
use redisproxy.Proxy.{Owner, Sessions, State, session_env, server_env}
use redisproxy.Proxy.Forward.{IsOpen, waits, on_client_read-Sent}
use redisproxy.Proxy.Deliver.{IsServed, asks, on_server_read-IsServed}

waits-asks :
    (r : Ptr) (id : ℕ) (cs : List Cmd) (rs : List Reply)
    → length rs ≡ length cs
    → waits r id cs ≡ pairs (asks r id (length rs))
waits-asks r id [] [] h = refl
waits-asks r id [] (x ∷ rs) h = absurd (omega arith)
waits-asks r id (c ∷ cs) [] h = absurd (omega arith)
waits-asks r id (c ∷ cs) (x ∷ rs) h =
    ap (λ ps. record { identity = id; target = Upstream.reader r } ∷ ps)
      (waits-asks r id cs rs (omega arith))

make_room-queue :
    {R S : Type 0} (env : Upstream.Env R S) (min_size : ℕ) (grown : Option ℕ) (u : Upstream R)
    → (make_room env min_size grown u).1.cmd_queue ≡ u.cmd_queue
unfolding make_room
make_room-queue env min_size grown u = elim (Bool-cases (ltb u.room min_size)) [
  | inl y ↦ simp y refl
  | inr n ↦ simp n refl
]

module _ {E : Epoll} (K : Sockets E) (opt : Options) (resolved : Option ℤ) (r p q : Ptr) where
  -- For requests as `FormatRESP2` prints them, with sizes that fit an `int32_t` with their end
  -- (`Printable`), and replies of the shapes of `IsReply`, which are a line that starts with
  -- `+`, `-` or `:`, a bulk of at least a byte, and an array of such bulks, with sizes below 2
  -- ^ 31: while the server is connected and authorized, a connected client has a connection of
  -- its own, and the queue is empty with places for the requests, `OnClientRead` with such
  -- requests as its whole input and nothing left from an earlier call puts their bytes behind
  -- what is to be sent to the server, and if the server then sends one such reply for each,
  -- `OnServerRead`, with a parser at the start of a reply, puts the bytes of these, in order,
  -- behind what is to be sent to the client. Then nobody waits any more. Where a send
  -- buffer is moved over itself, `memcpy` is taken to move it.
  pub on_client_read-on_server_read :
      (cs : List Cmd) (rs : List Reply) (sess own : Session) (u : Upstream Ptr)
      (net : State K opt resolved) (c d : Connection Owner) (min_size : ℕ) (grown : Option ℕ)
      → ArePrintable cs
      → AreReplies rs
      → length rs ≡ length cs
      → (p == q) ≡ false
      → IsOpen K opt resolved r p u net c own
      → IsServed K opt resolved r q net d own
      → contents no_pair u.cmd_queue ≡ []
      → length cs ≤ length u.cmd_queue.holder - 1
      → (u₁ u₂ : Upstream Ptr) × (net₁ net₂ : State K opt resolved) × (c' d' : Connection Owner)
        × (err err' : Error) × (sess' : Session) × (on_client_read
              (session_env K opt resolved r)
              min_size
              grown
              q
              (Serve.ready sess (Serve.stream cs))
              (u, net)
            ≡ some (err, sess', (u₁, net₁)))
        × (net₁.conns p ≡ some c')
        × (c'.send_buffer ≡ c.send_buffer ++ Serve.stream cs)
        × (on_server_read
              (server_env K opt resolved)
              min_size
              grown
              (Route.ready u₁ (Route.stream rs) u₁.cmd_queue)
              net₁
            ≡ some (err', u₂, net₂))
        × (net₂.conns q ≡ some d')
        × (d'.send_buffer ≡ d.send_buffer ++ Route.stream rs)
        × (contents no_pair u₂.cmd_queue ≡ [])
  on_client_read-on_server_read cs rs sess own u net c d min_size grown h k l ne v w none_waits
        room =
      let senv = server_env K opt resolved in
      let fits = ap (λ (xs : List (Pair Ptr)). length xs) none_waits in
      let (u₁, net₁, c', sent, (v', queued, forwarded, (same, apart))) =
        on_client_read-Sent K opt resolved r p cs q sess own u net c min_size grown h v
          (omega (arith, fits, room)) in
      let w' : IsServed K opt resolved r q net₁ d own = record {
        in_order = v'.in_order;
        live = apart q ne ∙ w.live;
        connected = w.connected;
        known = ap (λ (o : Sessions). o r) same ∙ w.known;
        linked = w.linked;
      } in
      let waiting =
        queued
        ∙ ap (λ xs. xs ++ waits r own.id cs) none_waits
        ∙ waits-asks r own.id cs rs l
        ∙ sym (append-nil (pairs (asks r own.id (length rs)))) in
      let (q', net₂, d', answered, left, w'', delivered) =
        on_server_read-IsServed K opt resolved r q rs [] u₁ u₁.cmd_queue net₁ d own min_size grown
          v'.valid waiting k w' in
      (
        u₁,
        (make_room senv min_size grown (Route.ready u₁ [] q')).1,
        net₁,
        net₂,
        c',
        d',
        _,
        _,
        _,
        sent,
        v'.live,
        forwarded,
        answered,
        w''.live,
        delivered,
        ap (contents no_pair) (make_room-queue senv min_size grown (Route.ready u₁ [] q')) ∙ left,
      )
