-- ===== src/Proxy/Turn.antt =====
-- epoll.cpp: a turn of the loop, while nobody goes away.
use redisproxy.Base.{ℕ, ◌≡◌, ap, refl, sym, true, false, Option, some, List, [], ◌∷◌}
use mathlib.Core.Path.{subst}
use redisproxy.Base.Int.{ℤ}
use redisproxy.Error.{Error, ok}
use redisproxy.Mem.{Ptr}
use redisproxy.Event.{Epoll}
use redisproxy.Socket.{Sockets, Options}
use redisproxy.Conn.{Connection, Answer, moved}
use redisproxy.Conn.Order.{IsAnswer}
use redisproxy.Conn.Polling.{handle_write_events}
use redisproxy.Conn.Round.{handle_write_events-Kept}
use redisproxy.Upstream.{Upstream}
use redisproxy.Proxy.{Owner}
use redisproxy.Proxy.Reading.{Input, Room, World, joined, parted, within, server_end}
use redisproxy.Proxy.Looping.{Ready, ready_event}
use redisproxy.Proxy.Sound.{IsSound-Steady}
use redisproxy.Proxy.Handled.{IsReady, Serves}

-- What `epoll_wait` reports of connections that the system watches for reading, with nothing wrong.
abbrev pub readable : List (Ptr × Input) → List Ready
readable [] = []
readable ((p, input) ∷ events) = ready_event p false true false input (moved 0) ∷ readable events

module _ {E : Epoll} (K : Sockets E) (opt : Options) (resolved : Option ℤ) (sizes : Room)
    (init_size : ℕ) where
  -- A round of writing in which no connection is to be closed leaves all as sound as before.
  pub written-Serves :
      (answers : Ptr → Answer) (w : World K opt resolved sizes)
      → ((q : Ptr) → IsAnswer (answers q))
      → IsReady K opt resolved sizes w
      → ((q : Ptr) (c : Connection Owner) → w.1.conns q ≡ some c → c.flag.close ≡ false)
      → (w' : World K opt resolved sizes) × (within K opt resolved sizes
            (handle_write_events E (server_end K opt resolved sizes) answers)
            w
          ≡ some (ok, w'))
        × Serves K opt resolved sizes w w'
  written-Serves answers (u, net) are (v, o) open_ =
      let (whole, e, ord, (out, h)) =
        handle_write_events-Kept E (server_end K opt resolved sizes) answers are
          (joined K opt resolved sizes (u, net)) v.in_order open_ in
      let (u', net') = parted K opt resolved sizes whole in
      let same : u' ≡ u = ap (λ x. x.0) out in
      (
        (u', net'),
        rw (e, within) refl,
        (
          subst (λ (x : Upstream Ptr). IsReady K opt resolved sizes (x, net')) (sym same)
              (IsSound-Steady K opt resolved u net net' (ap (λ x. x.1) out, h, ord) v, o),
          h,
        ),
      )
