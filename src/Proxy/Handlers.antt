-- ===== src/Proxy/Handlers.antt =====
-- upstream.cpp: what `Upstream::Init` comes to.
use redisproxy.Base.{
  ℕ, ◌%◌, ◌^◌, ◌<◌, ◌≡◌, ◌∙◌, ap, refl, sym, Bool, true, false, Option, none, some, [], ◌∷◌, ◌++◌,
  Bytes, length, ◌==◌, Bool-cases, inl, inr, if◌then◌else◌,
}
use mathlib.Core.Bool.{false≢true}
use mathlib.Core.Path.{subst}
use mathlib.Core.Option.{some-injective}
use redisproxy.Base.Int.{ℤ}
use redisproxy.Error.{Error, ok, full, try_again, is_none, equal}
use redisproxy.Mem.{Ptr}
use redisproxy.Buffer.View
use redisproxy.Event.{Epoll}
use redisproxy.Socket.{Sockets, Options}
use redisproxy.Recycle
use redisproxy.Recycle.{Recycle}
use redisproxy.Recycle.Valid.{push-IsValid}
use redisproxy.Recycle.Fifo.{contents}
use redisproxy.Cmd.{Cmd, format_resp2}
use redisproxy.Conn.{Connection, no_flags, at}
use redisproxy.Conn.Laws.{InOrder, held, at_self, at-at}
use redisproxy.Upstream
use redisproxy.Upstream.{
  Upstream, Pair, auth_reader, no_pair, auth_command, identity_of, enqueue, push_request,
  init_handlers,
}
use redisproxy.Upstream.Auth.{auth_pair}
use redisproxy.Proxy.{Owner, server, State, server_env, is_connected}
use redisproxy.Proxy.Starting.{Setup}
use redisproxy.Proxy.Sound.{
  Awaited, Live, IsSound, Steady-trans, IsSound-Steady, Live-Steady, write_to_buffer-Steady,
  conn_readable-Steady,
}
use redisproxy.Proxy.Pushing.{push_last, is_connected-Live}
use redisproxy.Proxy.Alone.{
  alone, alone-InOrder, NoClient, no_contents, unasked-IsSound, watched-Steady, reader_set,
  alone-NoClient,
}

module _ {E : Epoll} (K : Sockets E) (opt : Options) (resolved : Option ℤ) where
  -- What `Init` comes back with.
  abbrev pub Inits : Ptr → Option (Error × Upstream Ptr × State K opt resolved) → Type 0
  Inits p out =
      (err : Error) × (u : Upstream Ptr) × (net : State K opt resolved) × (out ≡ some (err, u, net))
      × (is_none err ≡ true
          → IsSound K opt resolved u net
            × (u.parser.offset ≡ 0)
            × (held net.conns p ≡ some (some server)))

  -- The `auth` command is what is sent first, and the upstream waits for its reply.
  asks_itself :
      (p : Ptr) (cmd : Cmd) (u : Upstream Ptr) (net : State K opt resolved)
      → u.server_conn ≡ some p
      → u.auth_cmd ≡ some cmd
      → u.parser.offset ≡ 0
      → contents no_pair u.cmd_queue ≡ []
      → held net.conns p ≡ some (some server)
      → IsSound K opt resolved u net
      → Inits p (push_request (server_env K opt resolved) cmd auth_reader u net)
  unfolding push_request identity_of enqueue
  asks_itself p cmd u net linked c o nobody_asks mine v =
      let env = server_env K opt resolved in
      let l : Live K opt resolved net p =
        let (p', linked', l') = v.server_live in
        subst (Live K opt resolved net) (some-injective p' p (sym linked' ∙ linked)) l' in
      let (b, on) = is_connected-Live K opt resolved net p l in
      let id : identity_of env auth_reader u net ≡ some 0 = simp (c, identity_of) refl in
      let (err, q) = Recycle.push u.cmd_queue auth_pair in
      elim (Bool-cases b) [
        | inr n ↦
            let off : is_connected K opt resolved p net ≡ some false = rw n at on in
            (try_again, u, net, simp (linked, off, push_request) refl, λ z. absurd (false≢true z))
        | inl y ↦
            let on' : is_connected K opt resolved p net ≡ some true = rw y at on in
            elim (Bool-cases (is_none err)) [
              | inl z ↦
                  let (err', net', w, t) =
                    write_to_buffer-Steady K opt resolved net p (format_resp2 cmd []).1 no_flags
                      v.in_order l in
                  let u' : Upstream Ptr = record u { cmd_queue = q } in
                  let one : contents no_pair q ≡ auth_pair ∷ [] =
                    push_last u.cmd_queue auth_pair v.valid z
                    ∙ ap (λ xs. xs ++ auth_pair ∷ []) nobody_asks in
                  let v' : IsSound K opt resolved u' net = record {
                    in_order = v.in_order;
                    valid = push-IsValid auth_pair v.valid;
                    server_live = v.server_live;
                    fine = v.fine;
                    owned = v.owned;
                    awaited =
                        subst (Awaited u.auth_cmd net.outer) (sym one) (inr (cmd, c, refl), tt);
                  } in
                  (
                    err',
                    u',
                    net',
                    simp (linked, on', id, z, w, push_request, enqueue) refl,
                    λ _. (IsSound-Steady K opt resolved u' net net' t v', o, t.1 p ∙ mine),
                  )
              | inr n ↦ (
                if equal err full then try_again else err,
                u,
                net,
                simp (linked, on', id, n, push_request, enqueue) refl,
                λ z. absurd (false≢true (sym (still_wrong err n) ∙ z)),
              )
            ]
      ]
    where
      still_wrong :
          (err : Error)
          → is_none err ≡ false
          → is_none (if equal err full then try_again else err) ≡ false
      still_wrong err n = elim (Bool-cases (equal err full)) [ inl y ↦ rw y refl | inr m ↦ rw m n ]

  -- `Init` of the upstream, once its connection is connected.
  handlers-Inits :
      (n : ℕ) (p : Ptr) (password : Bytes) (u : Upstream Ptr) (c : Connection Owner) (s : E.State)
      → 0 < n
      → n < 2 ^ 64
      → c.event.events.out_bit ≡ false
      → u.server_conn ≡ some p
      → u.cmd_queue ≡ Recycle.create no_pair n
      → u.parser.offset ≡ 0
      → Inits p
          (init_handlers (server_env K opt resolved) p password u (alone K opt resolved p c s))
  unfolding init_handlers
  handlers-Inits n p password u c s pos_n small off linked fresh o =
      let c₁ : Connection Owner = record c { reader = some server } in
      let net₀ = alone K opt resolved p c s in
      let net₁ : State K opt resolved = record net₀ { conns = at net₀.conns p (some c₁) } in
      let same : net₁ ≡ alone K opt resolved p c₁ s =
        ap (λ conns. record net₀ { conns = conns }) (at-at (λ q. none) p (some c) (some c₁)) in
      let ord : InOrder net₁ =
        subst (λ x. InOrder x) (sym same) (alone-InOrder K opt resolved p c₁ s off) in
      let apart : NoClient K opt resolved net₁ =
        subst (NoClient K opt resolved) (sym same) (alone-NoClient K opt resolved p c₁ s refl) in
      let live : Live K opt resolved net₁ p =
        (some server, rw (at_self net₀.conns p (some c₁), held) refl) in
      let (err, net₂, e₂, t₂) = conn_readable-Steady K opt resolved net₁ p true ord live in
      let r₂ = reader_set K opt resolved net₀ p c (at_self (λ q. none) p (some c)) ∙ e₂ in
      elim (Bool-cases (is_none err)) [
        | inr bad ↦
            (err, u, net₂, rw (r₂, bad, init_handlers) refl, λ z. absurd (false≢true (sym bad ∙ z)))
        | inl good ↦
            let (net₃, e₃, t₃) =
              watched-Steady K opt resolved net₂ p t₂.2
                (Live-Steady K opt resolved net₁ net₂ p t₂ live) in
            let t = Steady-trans K opt resolved net₁ net₂ net₃ t₂ t₃ in
            let mine : held net₃.conns p ≡ some (some server) = t.1 p ∙ live.1 in
            let sound : (b : Bool) (cmd : Option Cmd)
                → IsSound K opt resolved (record u { auth = b; auth_cmd = cmd }) net₃ =
              λ b cmd.
                unasked-IsSound K opt resolved n p (record u { auth = b; auth_cmd = cmd }) net₃
                  pos_n small linked fresh t.2 t.0 (λ q r h. apart q r (sym (t.1 q) ∙ h))
                  (Live-Steady K opt resolved net₁ net₃ p t live) in
            elim (Bool-cases (length password == 0)) [
              | inl y ↦ (
                ok,
                record u { auth = true },
                net₃,
                rw (r₂, good, e₃, y, init_handlers) refl,
                λ _. (sound true u.auth_cmd, o, mine),
              )
              | inr m ↦
                  let cmd = auth_command password in
                  let (err', u', net', e', v') =
                    asks_itself p cmd (record u { auth_cmd = some cmd }) net₃ linked refl o
                      (no_contents K opt resolved n u.cmd_queue pos_n small fresh) mine
                      (sound u.auth (some cmd)) in
                  (err', u', net', rw (r₂, good, e₃, m, init_handlers) e', v')
            ]
      ]

  pub init-Inits :
      (setup : Setup) (grown : Option ℕ) (p : Ptr) (c : Connection Owner) (s : E.State)
      → 0 < setup.conn_send_buffer_count
      → setup.conn_send_buffer_count < 2 ^ 64
      → c.event.events.out_bit ≡ false
      → Inits p (
          Upstream.init
            (server_env K opt resolved)
            setup.read_buffer_init_size
            grown
            p
            setup.password
            (Upstream.create setup.conn_send_buffer_count)
            (alone K opt resolved p c s))
  unfolding Upstream.init
  init-Inits setup grown p c s pos_n small off =
      let (err, room) = View.append_capacity grown 0 setup.read_buffer_init_size in
      let u : Upstream Ptr = record (Upstream.create {R = Ptr} setup.conn_send_buffer_count) {
        server_conn = some p;
        connect_times = 1 % 2 ^ 32;
        room = room;
      } in
      elim (Bool-cases (is_none err)) [
        | inl y ↦
            let (err', u', net', e, v) =
              handlers-Inits setup.conn_send_buffer_count p setup.password u c s pos_n small off
                refl refl refl in
            (err', u', net', rw (y, Upstream.init) e, v)
        | inr n ↦ (
          err,
          u,
          alone K opt resolved p c s,
          rw (n, Upstream.init) refl,
          λ z. absurd (false≢true (sym n ∙ z)),
        )
      ]
