-- ===== src/Proxy/Sound.antt =====
-- What holds of the program between two events of its connections: everybody who is waited for is
-- there.
use redisproxy.Base.{
  ◌≡◌, ◌∙◌, ◌⊎◌, ap, refl, sym, Bool, Option, some, List, [], ◌∷◌, ◌++◌, Bytes, Option-cases, inl,
  inr,
}
use mathlib.Core.Option.{some-ne-none}
use redisproxy.Base.Int.{ℤ}
use redisproxy.Error.{Error}
use redisproxy.Mem.{Ptr}
use redisproxy.Event.{Epoll}
use redisproxy.Socket.{Sockets, Options}
use redisproxy.Recycle.Valid.{IsValid}
use redisproxy.Recycle.Fifo.{contents}
use redisproxy.Cmd.{Cmd}
use redisproxy.Conn
use redisproxy.Conn.{Connection, Net, Flags, at}
use redisproxy.Conn.Laws.{InOrder, held, held-at, write_to_buffer_total}
use redisproxy.Conn.Reading.{conn_readable_total}
use redisproxy.Upstream.{Upstream, Pair, Target, nobody, auth_reader, reader, no_pair}
use redisproxy.Upstream.Auth.{auth_pair}
use redisproxy.Session.{Session}
use redisproxy.Proxy.{Owner, client, Sessions, State}

-- The session is not deleted.
abbrev pub Known : Sessions → Ptr → Type 0
Known sessions r = (sess : Session) × (sessions r ≡ some sess)

-- A session waits.
abbrev pub Asks : Sessions → Target Ptr → Type 0
Asks sessions nobody = ⊥
Asks sessions auth_reader = ⊥
Asks sessions (reader r) = Known sessions r

abbrev pub AllAsk : Sessions → List (Pair Ptr) → Type 0
AllAsk sessions [] = Unit {0}
AllAsk sessions (x ∷ xs) = Asks sessions x.target × AllAsk sessions xs

abbrev pub IsOwn : Option Cmd → Pair Ptr → Type 0
IsOwn cmd x = (c : Cmd) × (cmd ≡ some c) × (x ≡ auth_pair)

-- Sessions wait. In front of them may be the upstream itself, with the command of its `auth`.
abbrev pub Awaited : Option Cmd → Sessions → List (Pair Ptr) → Type 0
Awaited cmd sessions [] = Unit {0}
Awaited cmd sessions (x ∷ xs) = (Asks sessions x.target ⊎ IsOwn cmd x) × AllAsk sessions xs

AllAsk-behind :
    (sessions : Sessions) (xs : List (Pair Ptr)) (y : Pair Ptr)
    → AllAsk sessions xs
    → Asks sessions y.target
    → AllAsk sessions (xs ++ y ∷ [])
AllAsk-behind sessions [] y a b = (b, tt)
AllAsk-behind sessions (x ∷ xs) y (a, bs) b = (a, AllAsk-behind sessions xs y bs b)

pub Awaited-behind :
    (cmd : Option Cmd) (sessions : Sessions) (xs : List (Pair Ptr)) (y : Pair Ptr)
    → Awaited cmd sessions xs
    → Asks sessions y.target
    → Awaited cmd sessions (xs ++ y ∷ [])
Awaited-behind cmd sessions [] y a b = (inl b, tt)
Awaited-behind cmd sessions (x ∷ xs) y (a, bs) b = (a, AllAsk-behind sessions xs y bs b)

pub AllAsk-Awaited :
    (cmd : Option Cmd) (sessions : Sessions) (xs : List (Pair Ptr))
    → AllAsk sessions xs
    → Awaited cmd sessions xs
AllAsk-Awaited cmd sessions [] a = tt
AllAsk-Awaited cmd sessions (x ∷ xs) (a, bs) = (inl a, bs)

-- No session is deleted between the two.
abbrev pub Stay : Sessions → Sessions → Type 0
Stay sessions sessions' = (r : Ptr) → Known sessions r → Known sessions' r

Asks-Stay :
    (sessions sessions' : Sessions) (t : Target Ptr)
    → Stay sessions sessions'
    → Asks sessions t
    → Asks sessions' t
Asks-Stay sessions sessions' nobody s a = a
Asks-Stay sessions sessions' auth_reader s a = a
Asks-Stay sessions sessions' (reader r) s a = s r a

AllAsk-Stay :
    (sessions sessions' : Sessions) (xs : List (Pair Ptr))
    → Stay sessions sessions'
    → AllAsk sessions xs
    → AllAsk sessions' xs
AllAsk-Stay sessions sessions' [] s a = tt
AllAsk-Stay sessions sessions' (x ∷ xs) s (a, bs) =
    (Asks-Stay sessions sessions' x.target s a, AllAsk-Stay sessions sessions' xs s bs)

pub Awaited-Stay :
    (cmd : Option Cmd) (sessions sessions' : Sessions) (xs : List (Pair Ptr))
    → Stay sessions sessions'
    → Awaited cmd sessions xs
    → Awaited cmd sessions' xs
Awaited-Stay cmd sessions sessions' [] s a = tt
Awaited-Stay cmd sessions sessions' (x ∷ xs) s (inl a, bs) =
    (inl (Asks-Stay sessions sessions' x.target s a), AllAsk-Stay sessions sessions' xs s bs)
Awaited-Stay cmd sessions sessions' (x ∷ xs) s (inr a, bs) =
    (inr a, AllAsk-Stay sessions sessions' xs s bs)

module _ {E : Epoll} (K : Sockets E) (opt : Options) (resolved : Option ℤ) where
  -- The connection is not deleted.
  abbrev pub Live : State K opt resolved → Ptr → Type 0
  Live net p = (o : Option Owner) × (held net.conns p ≡ some o)

  -- The reader of a session is at the start of its input, and its connection is not deleted.
  abbrev pub IsFine : State K opt resolved → Session → Type 0
  IsFine net sess = (sess.parser.offset ≡ 0) × (q : Ptr) × (sess.client_conn ≡ some q) × Live net q

  pub record IsSound (u : Upstream Ptr) (net : State K opt resolved) : Type 0 where
    pub in_order : InOrder net
    pub valid : IsValid u.cmd_queue
    pub server_live : (p : Ptr) × (u.server_conn ≡ some p) × Live net p
    pub fine : (r : Ptr) (sess : Session) → net.outer r ≡ some sess → IsFine net sess
    pub owned : (p r : Ptr) → held net.conns p ≡ some (some (client r)) → Known net.outer r
    pub awaited : Awaited u.auth_cmd net.outer (contents no_pair u.cmd_queue)

  -- Sessions and who reads from which connection are the same.
  abbrev pub Steady : State K opt resolved → State K opt resolved → Type 0
  Steady net net' =
      (net'.outer ≡ net.outer) × ((q : Ptr) → held net'.conns q ≡ held net.conns q) × InOrder net'

  pub Live-Steady :
      (net net' : State K opt resolved) (p : Ptr) → Steady net net' → Live net p → Live net' p
  Live-Steady net net' p (_, h, _) (o, l) = (o, h p ∙ l)

  pub Known-Steady : (net net' : State K opt resolved) → Steady net net' → Stay net.outer net'.outer
  Known-Steady net net' (e, _, _) r (sess, k) = (sess, ap (λ (f : Sessions). f r) e ∙ k)

  pub Steady-trans : (a b c : State K opt resolved) → Steady a b → Steady b c → Steady a c
  Steady-trans a b c t t' = (t'.0 ∙ t.0, λ q. t'.1 q ∙ t.1 q, t'.2)

  pub IsSound-Steady :
      (u : Upstream Ptr) (net net' : State K opt resolved)
      → Steady net net'
      → IsSound u net
      → IsSound u net'
  IsSound-Steady u net net' t v =
      let (e, h, ord) = t in
      let (p, l, on) = v.server_live in
      record {
        in_order = ord;
        valid = v.valid;
        server_live = (p, l, Live-Steady net net' p t on);
        fine = λ r sess k.
            let (o, q, at_q, on_q) = v.fine r sess (sym (ap (λ (f : Sessions). f r) e) ∙ k) in
            (o, q, at_q, Live-Steady net net' q t on_q);
        owned = λ p r k. Known-Steady net net' t r (v.owned p r (sym (h p) ∙ k));
        awaited =
            Awaited-Stay u.auth_cmd net.outer net'.outer (contents no_pair u.cmd_queue)
              (Known-Steady net net' t) v.awaited;
      }

  pub conn_of :
      (net : State K opt resolved) (p : Ptr)
      → Live net p
      → (c : Connection Owner) × (net.conns p ≡ some c)
  conn_of net p (o, l) = elim (Option-cases (net.conns p)) [
    | inl n ↦ absurd (some-ne-none o (sym (rw (n, held) at l)))
    | inr (c, e) ↦ (c, e)
  ]

  pub write_to_buffer-Steady :
      (net : State K opt resolved) (p : Ptr) (bytes : Bytes) (flags : Flags)
      → InOrder net
      → Live net p
      → (err : Error) × (net' : State K opt resolved) × (Conn.write_to_buffer p bytes flags net
          ≡ some (err, net'))
        × Steady net net'
  write_to_buffer-Steady net p bytes flags v l =
      let (c, h) = conn_of net p l in
      let (e, w, (r, ord), _) = write_to_buffer_total net p c bytes flags v h in
      (_, _, r, (refl, held-at net.conns p c _ h refl, ord))

  pub conn_readable-Steady :
      (net : State K opt resolved) (p : Ptr) (flag : Bool)
      → InOrder net
      → Live net p
      → (err : Error) × (net' : State K opt resolved) × (Conn.conn_readable E p flag net
          ≡ some (err, net'))
        × Steady net net'
  conn_readable-Steady net p flag v l =
      let (c, h) = conn_of net p l in
      let (err, e, s, (r, ord), _) = conn_readable_total E net p c flag v h in
      (err, _, r, (refl, held-at net.conns p c _ h refl, ord))
