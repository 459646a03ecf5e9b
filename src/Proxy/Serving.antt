-- ===== src/Proxy/Serving.antt =====
-- `OnReadable` of connections.cpp, for all that clients and the server may send.
use redisproxy.Base.{
  ℕ, ◌<◌, ◌≡◌, ◌∙◌, ◌⊎◌, ap, refl, false, ◌||◌, Option, some, List, [], ◌∷◌, length, take,
  length-take, arith, ◌==◌, Bool-cases, Option-cases, inl, inr,
}
use redisproxy.Base.Int.{ℤ}
use redisproxy.Error.{Error, ok, full, try_again, is_none, equal}
use redisproxy.Mem.{Ptr}
use redisproxy.Event.{Epoll}
use redisproxy.Socket.{Sockets, Options}
use redisproxy.Conn.{Connection, eagain}
use redisproxy.Conn.Laws.{held}
use redisproxy.Proxy.{Owner, client, server, State}
use redisproxy.Proxy.Accepting.{eintr}
use redisproxy.Proxy.Reading.{
  Input, received, failed, Room, World, free_size, append_size, event_read, on_readable,
}
use redisproxy.Proxy.Sound.{Live, conn_of}
use redisproxy.Proxy.Handled.{
  IsReady, Serves, read_event-Serves, append_size-Serves, readable-Serves,
}

-- The other side is still there: it has sent something, or has nothing to read yet.
abbrev pub IsData : Input → Type 0
IsData (received bs) = 0 < length bs
IsData (failed n) = (n ≡ eagain) ⊎ (n ≡ eintr)

module _ {E : Epoll} (K : Sockets E) (opt : Options) (resolved : Option ℤ) (sizes : Room) where
  -- What a step comes back with.
  abbrev Steps : World K opt resolved sizes → Option (Error × World K opt resolved sizes) → Type 0
  Steps w out =
      (err : Error) × (w' : World K opt resolved sizes) × (out ≡ some (err, w'))
      × Serves K opt resolved sizes w w'

  free_size-known :
      (p : Ptr) (owner : Owner) (w : World K opt resolved sizes)
      → IsReady K opt resolved sizes w
      → held w.1.conns p ≡ some (some owner)
      → (room : ℕ) × (free_size K opt resolved sizes owner w ≡ some room)
  unfolding free_size
  free_size-known p (client r) (u, net) (v, o) h =
      let (sess, k) = v.owned p r h in (sess.room, rw (k, free_size) refl)
  free_size-known p server (u, net) (v, o) h = (u.room, refl)

  -- `Read` of what the other side sends, into a buffer with a place left.
  given-Serves :
      (p : Ptr) (owner : Owner) (input : Input) (w : World K opt resolved sizes) (room : ℕ)
      → IsReady K opt resolved sizes w
      → IsData input
      → held w.1.conns p ≡ some (some owner)
      → free_size K opt resolved sizes owner w ≡ some room
      → (room == 0) ≡ false
      → Steps w (event_read K opt resolved sizes p owner input w)
  unfolding event_read
  given-Serves p owner (received bs) w room v d h f n =
      let t : (length (take room bs) == 0) ≡ false = ground (arith, length-take room bs, d, n) in
      (
        ok,
        append_size K opt resolved sizes owner (take room bs) w,
        rw (f, n, t, event_read) refl,
        append_size-Serves K opt resolved sizes p owner (take room bs) w v h,
      )
  given-Serves p owner (failed e) w room v (inl d) h f n =
      (try_again, w, rw (f, n, d, event_read) refl, (v, λ q. refl))
  given-Serves p owner (failed e) w room v (inr d) h f n =
      (try_again, w, rw (f, n, d, event_read) refl, (v, λ q. refl))

  event_read-Serves :
      (p : Ptr) (owner : Owner) (input : Input) (w : World K opt resolved sizes)
      → IsReady K opt resolved sizes w
      → IsData input
      → held w.1.conns p ≡ some (some owner)
      → Steps w (event_read K opt resolved sizes p owner input w)
  unfolding event_read
  event_read-Serves p owner input w v d h =
      let (room, f) = free_size-known p owner w v h in
      elim (Bool-cases (room == 0)) [
        | inl y ↦
            let (_, w', e, s) = readable-Serves K opt resolved sizes p false w v (some owner, h) in
            (full, w', rw (f, y, e, event_read) refl, s)
        | inr n ↦ given-Serves p owner input w room v d h f n
      ]

  owner_of :
      (c : Connection Owner) (net : State K opt resolved) (p : Ptr) (o : Option Owner)
      → net.conns p ≡ some c
      → c.reader ≡ o
      → held net.conns p ≡ some o
  owner_of c net p o h r = rw (h, held) (ap (λ x. some x) r)

  -- `OnReadable` of a connection that is not deleted, whoever owns it, when the other side is still
  -- there: it comes back, whatever bytes have come and wherever they are cut. The program is as
  -- sound as before and ready for the next event, and no connection is deleted or has changed its
  -- owner.
  pub on_readable-Serves :
      (p : Ptr) (input : Input) (w : World K opt resolved sizes)
      → IsReady K opt resolved sizes w
      → IsData input
      → Live K opt resolved w.1 p
      → (err : Error) × (w' : World K opt resolved sizes) × (on_readable K opt resolved sizes p
            input w
          ≡ some (err, w'))
        × Serves K opt resolved sizes w w'
  unfolding on_readable
  on_readable-Serves p input w v d l =
      let (c, h) = conn_of K opt resolved w.1 p l in
      elim (Option-cases c.reader) [
        | inl r ↦
            let (_, w', e, s) = readable-Serves K opt resolved sizes p false w v l in
            (ok, w', rw (h, r, e, on_readable) refl, s)
        | inr (owner, r) ↦
            let o = owner_of c w.1 p (some owner) h r in
            let (err, w₁, e, (v₁, s₁)) = event_read-Serves p owner input w v d o in
            elim (Bool-cases (is_none err || equal err full)) [
              | inl y ↦
                  let (w', e', (v', s')) =
                    read_event-Serves K opt resolved sizes p owner w₁ v₁ (s₁ p ∙ o) in
                  (ok, w', rw (h, r, e, y, e', on_readable) refl, (v', λ q. s' q ∙ s₁ q))
              | inr n ↦ (err, w₁, rw (h, r, e, n, on_readable) refl, (v₁, s₁))
            ]
      ]

  -- Each event is one of a connection that is not deleted, whose other side is still there.
  abbrev pub AllData : State K opt resolved → List (Ptr × Input) → Type 0
  AllData net [] = Unit {0}
  AllData net ((p, input) ∷ events) =
      (Live K opt resolved net p × IsData input) × AllData net events

  pub AllData-moved :
      (net net' : State K opt resolved) (events : List (Ptr × Input))
      → ((q : Ptr) → held net'.conns q ≡ held net.conns q)
      → AllData net events
      → AllData net' events
  AllData-moved net net' [] h a = tt
  AllData-moved net net' ((p, input) ∷ events) h (((o, l), d), a) =
      (((o, h p ∙ l), d), AllData-moved net net' events h a)
