-- ===== src/Proxy/Joining.antt =====
-- netio.cpp and server.cpp: the clients that come in, among the events of those that are there.
use redisproxy.Base.{
  ℕ, ◌+◌, ◌%◌, ◌^◌, ◌≡◌, ap, refl, sym, true, Option, none, some, List, ◌==◌, ==_refl, Bool-cases,
  inl, inr,
}
use mathlib.Core.Option.{some-injective}
use mathlib.Core.Path.{subst}
use redisproxy.Base.Int.{ℤ}
use redisproxy.Error.{ok, is_none}
use redisproxy.Mem.{Ptr}
use redisproxy.Event.{Epoll, ctl_add}
use redisproxy.Event.Interest.{reading}
use redisproxy.Socket.{Handle, opened, Sockets, Options, run_calls}
use redisproxy.Buffer.View
use redisproxy.Conn.{at}
use redisproxy.Conn.Laws.{held}
use redisproxy.Upstream.{Upstream}
use redisproxy.Session.{Session}
use redisproxy.Proxy.{client, State}
use redisproxy.Proxy.Accepting.{accepted, accept_calls, accept, put}
use redisproxy.Proxy.Welcome.{newcomer, hosted, newcomer-InOrder, new_at, attached_at}
use redisproxy.Proxy.Sound.{Known, Awaited-Stay, Live, IsSound}

module _ {E : Epoll} (K : Sockets E) (opt : Options) (resolved : Option ℤ) where
  -- The program with a new client, at `p`, and its session, at `r`.
  abbrev pub with_client :
      State K opt resolved → Ptr → Ptr → ℕ → ℕ → ℕ → E.State → State K opt resolved
  with_client net p r fd id room s = record net {
    kernel = s;
    conns = at net.conns p (some (newcomer r (some fd) true));
    outer = put net.outer r (hosted K opt resolved r p id room);
  }

  Live-joined :
      (net : State K opt resolved) (p r fd id room : ℕ) (s : E.State) (q : Ptr)
      → Live K opt resolved net q
      → Live K opt resolved (with_client net p r fd id room s) q
  Live-joined net p r fd id room s q (o, l) = elim (Bool-cases (p == q)) [
    | inl y ↦ (some (client r), rw (y, held) refl)
    | inr n ↦ (o, rw (n, held) l)
  ]

  same_client : (r r' : Ptr) → some (client r) ≡ some (client r') → r ≡ r'
  same_client r r' h = cc (h)

  pub with_client-IsSound :
      (u : Upstream Ptr) (net : State K opt resolved) (p r fd id room : ℕ) (s : E.State)
      → IsSound K opt resolved u net
      → net.conns p ≡ none
      → IsSound K opt resolved u (with_client net p r fd id room s)
  with_client-IsSound u net p r fd id room s v new =
      let own = hosted K opt resolved r p id room in
      let net' = with_client net p r fd id room s in
      let (p₀, linked, l) = v.server_live in
      record {
        in_order = newcomer-InOrder K opt resolved r p net fd v.in_order new;
        valid = v.valid;
        server_live = (p₀, linked, Live-joined net p r fd id room s p₀ l);
        fine = λ r' sess k. elim (Bool-cases (r == r')) [
          | inl y ↦
              let same : own ≡ sess = some-injective own sess (rw (y, put) at k) in
              (
                ap (λ (x : Session). x.parser.offset) (sym same),
                p,
                ap (λ (x : Session). x.client_conn) (sym same),
                (some (client r), rw (==_refl p, held) refl),
              )
          | inr n ↦
              let (o, q, at_q, on_q) = v.fine r' sess (rw (n, put) at k) in
              (o, q, at_q, Live-joined net p r fd id room s q on_q)
        ];
        owned = λ q r' h. elim (Bool-cases (p == q)) [
          | inl y ↦
              let mine : some (some (client r)) ≡ some (some (client r')) = rw (y, held) at h in
              subst (Known net'.outer) (same_client r r' (some-injective _ _ mine))
                (own, rw (==_refl r, put) refl)
          | inr n ↦ stay r' (v.owned q r' (rw (n, held) at h))
        ];
        awaited = Awaited-Stay u.auth_cmd net.outer net'.outer _ stay v.awaited;
      }
    where
      stay :
          (r' : Ptr)
          → Known net.outer r'
          → Known (put net.outer r (hosted K opt resolved r p id room)) r'
      stay r' (x, h) = elim (Bool-cases (r == r')) [
        | inl y ↦ (hosted K opt resolved r p id room, rw (y, put) refl)
        | inr n ↦ (x, rw (n, put) h)
      ]

  -- `Accept` of a client, where the system takes the calls: what it makes of the program.
  pub joined_as :
      (answers : List Handle) (init_size counter fd p r : ℕ) (grown : Option ℕ)
      (net : State K opt resolved)
      → accepted answers ≡ some (opened fd)
      → is_none (run_calls K (accept_calls opt) fd net.kernel).0 ≡ true
      → (View.append_capacity grown 0 init_size).0 ≡ ok
      → (E.epoll_ctl
          (run_calls K (accept_calls opt) fd net.kernel).1
          ctl_add
          fd
          (reading fd 0).events).0
        ≡ none
      → (s : E.State) × (accept K opt resolved answers init_size grown p r counter net
          ≡ some (
            ok,
            (counter + 1) % 2 ^ 64,
            with_client net p r fd
                ((counter + 1) % 2 ^ 64)
                (View.append_capacity grown 0 init_size).1
                s,
          ))
  unfolding accept
  joined_as answers init_size counter fd p r grown net got calls room taken =
      let s = (run_calls K (accept_calls opt) fd net.kernel).1 in
      let net₁ : State K opt resolved = record net { kernel = s } in
      let own =
        hosted K opt resolved r p ((counter + 1) % 2 ^ 64)
          (View.append_capacity grown 0 init_size).1 in
      (
        (E.epoll_ctl s ctl_add fd (reading fd 0).events).1,
        rw
            (
              got,
              calls,
              new_at K opt resolved r p net₁ init_size counter grown room,
              attached_at K opt resolved r p net₁ fd (put net.outer r own) taken,
              accept,
            )
            refl,
      )
