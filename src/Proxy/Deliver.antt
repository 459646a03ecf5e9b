-- ===== src/Proxy/Deliver.antt =====
-- The way of replies through the program, from the input of the server to the connection of a client.
use redisproxy.Base.{
  ℕ, zero, suc, ◌≡◌, ◌∙◌, ap, refl, sym, true, Option, some, List, [], ◌∷◌, ◌++◌, append-nil,
  append_assoc, Bytes, length, ==_refl,
}
use redisproxy.Base.Int.{ℤ}
use redisproxy.Error.{Error, ok}
use redisproxy.Mem.{Ptr}
use redisproxy.Event.{Epoll}
use redisproxy.Socket.{Sockets, Options}
use redisproxy.Recycle.{Recycle}
use redisproxy.Recycle.Valid.{IsValid}
use redisproxy.Recycle.Fifo.{contents}
use redisproxy.Cmd.Parser.Response.{Reply, reply_text}
use redisproxy.Conn
use redisproxy.Conn.{Connection, Net, no_flags, join, at}
use redisproxy.Conn.Window.{append_place}
use redisproxy.Conn.Laws.{InOrder, moved_to, at_self, write_to_buffer_total}
use redisproxy.Conn.Reading.{conn_readable_total}
use redisproxy.Upstream.{Upstream, Pair, no_pair, make_room, on_server_read}
use redisproxy.Upstream.Route.{
  Waiting, pairs, stream, AreReplies, ready, handed, serve, on_server_read-routes,
}
use redisproxy.Session
use redisproxy.Session.{Session}
use redisproxy.Proxy.{Owner, State, server_env, client_env, session_write, is_connected}

-- A session that waits for `n` replies.
abbrev pub asks : Ptr → ℕ → ℕ → List (Waiting Ptr)
asks r id zero = []
asks r id (suc n) = (r, id) ∷ asks r id n

pub length-asks : (r : Ptr) (id n : ℕ) → length (asks r id n) ≡ n
length-asks r id zero = refl
length-asks r id (suc n) = ap suc (length-asks r id n)

module _ {E : Epoll} (K : Sockets E) (opt : Options) (resolved : Option ℤ) (r p : Ptr) where
  -- The session `r` is not deleted, and its connection, at `p`, is live and connected.
  pub record IsServed (net : State K opt resolved) (c : Connection Owner) (own : Session)
      : Type 0 where
    pub in_order : InOrder net
    pub live : net.conns p ≡ some c
    pub connected : c.connected ≡ true
    pub known : net.outer r ≡ some own
    pub linked : own.client_conn ≡ some p

  connected_at :
      (net : State K opt resolved) (c : Connection Owner) (own : Session)
      → IsServed net c own
      → is_connected K opt resolved p net ≡ some true
  connected_at net c own v = rw (v.live, is_connected) (ap (λ b. some b) v.connected)

  written :
      (bytes : Bytes) (net net₁ net₂ : State K opt resolved) (own : Session) (err err' : Error)
      → net.outer r ≡ some own
      → own.client_conn ≡ some p
      → is_connected K opt resolved p net ≡ some true
      → Conn.write_to_buffer p bytes no_flags net ≡ some (err, net₁)
      → Conn.conn_readable E p true net₁ ≡ some (err', net₂)
      → session_write K opt resolved r bytes net ≡ some net₂
  unfolding Session.on_server_write
  written bytes net net₁ net₂ own err err' known linked on wr rd =
      let t : Session.on_server_write (client_env K opt resolved r) bytes own net ≡ some net₂ =
        simp (linked, on, wr, rd, Session.on_server_write) refl in
      rw (known, session_write) t

  session_write-IsServed :
      (bytes : Bytes) (net : State K opt resolved) (c : Connection Owner) (own : Session)
      → IsServed net c own
      → (net' : State K opt resolved) × (c' : Connection Owner) × (session_write K opt resolved r
            bytes net
          ≡ some net')
        × IsServed net' c' own
        × (c'.send_buffer ≡ c.send_buffer ++ bytes)
        × (c'.event.events.in_bit ≡ true)
  session_write-IsServed bytes net c own v =
      let (e, w, (wr, ord), _) = write_to_buffer_total net p c bytes no_flags v.in_order v.live in
      let c₁ : Connection Owner = record c {
        event = e;
        send_buffer = c.send_buffer ++ bytes;
        place = append_place c.place (length c.send_buffer) (length bytes);
        flag = join c.flag no_flags;
      } in
      let net₁ = moved_to net p c₁ w in
      let (err, d, s, (rd, ord'), bit) =
        conn_readable_total E net₁ p c₁ true ord (at_self net.conns p (some c₁)) in
      let c₂ : Connection Owner = record c₁ { event = d } in
      let net₂ : State K opt resolved = record net₁ {
        kernel = s;
        conns = at net₁.conns p (some c₂);
      } in
      let on = connected_at net c own v in
      (
        net₂,
        c₂,
        written bytes net net₁ net₂ own ok err v.known v.linked on wr rd,
        record {
          in_order = ord';
          live = at_self net₁.conns p (some c₂);
          connected = v.connected;
          known = v.known;
          linked = v.linked;
        },
        refl,
        bit,
      )

  -- The client after replies: its connection has them, in order, behind what was to be sent.
  serve-IsServed :
      (rs : List Reply) (net : State K opt resolved) (c : Connection Owner) (own : Session)
      → IsServed net c own
      → (net' : State K opt resolved) × (c' : Connection Owner) × (serve
            (server_env K opt resolved)
            (asks r own.id (length rs))
            rs
            net
          ≡ some net')
        × IsServed net' c' own
        × (c'.send_buffer ≡ c.send_buffer ++ stream rs)
  unfolding serve handed
  serve-IsServed [] net c own v = (net, c, refl, v, sym (append-nil c.send_buffer))
  serve-IsServed (x ∷ rs) net c own v =
      let env = server_env K opt resolved in
      let (net₁, c₁, r₁, v₁, sent, _) = session_write-IsServed (reply_text x) net c own v in
      let (net', c', r', v', sent') = serve-IsServed rs net₁ c₁ own v₁ in
      let given : handed env (r, own.id) (reply_text x) net ≡ some net₁ =
        simp (v.known, ==_refl own.id, handed) r₁ in
      (
        net',
        c',
        rw (given, serve) r',
        v',
        sent'
            ∙ ap (λ xs. xs ++ stream rs) sent
            ∙ append_assoc c.send_buffer (reply_text x) (stream rs),
      )

  -- The whole way of replies of the shapes of `IsReply`, which are a line that starts with `+`,
  -- `-` or `:`, a bulk of at least a byte, and an array of such bulks, with sizes below 2 ^ 31,
  -- through the upstream, the session and the connection to the client: where the session waits
  -- for as many replies before all others, `OnServerRead` with such replies as its whole input,
  -- and a parser at the start of a reply, puts the bytes of the replies behind those to be sent
  -- to the client, the readers behind the session still wait, and the session can be served as
  -- before. It uses no session and no connection that is deleted, whatever the system answers.
  -- Where the send buffer is moved over itself, `memcpy` is taken to move it.
  pub on_server_read-IsServed :
      (rs : List Reply) (rest : List (Pair Ptr)) (u : Upstream Ptr) (q : Recycle (Pair Ptr))
      (net : State K opt resolved) (c : Connection Owner) (own : Session) (min_size : ℕ)
      (grown : Option ℕ)
      → IsValid q
      → contents no_pair q ≡ pairs (asks r own.id (length rs)) ++ rest
      → AreReplies rs
      → IsServed net c own
      → (q' : Recycle (Pair Ptr)) × (net' : State K opt resolved) × (c' : Connection Owner)
        × (on_server_read (server_env K opt resolved) min_size grown (ready u (stream rs) q) net
            ≡ some (
              (make_room (server_env K opt resolved) min_size grown (ready u [] q')).0,
              (make_room (server_env K opt resolved) min_size grown (ready u [] q')).1,
              net',
            ))
        × (contents no_pair q' ≡ rest)
        × IsServed net' c' own
        × (c'.send_buffer ≡ c.send_buffer ++ stream rs)
  on_server_read-IsServed rs rest u q net c own min_size grown vq e h v =
      let env = server_env K opt resolved in
      let (q', r', _, left) =
        on_server_read-routes env rs (asks r own.id (length rs)) rest u q net min_size grown
          (length-asks r own.id (length rs)) vq e h in
      let (net', c', served, v', sent) = serve-IsServed rs net c own v in
      (q', net', c', r' ∙ rw served refl, left, v', sent)
