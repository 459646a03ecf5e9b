-- ===== src/Proxy/Examples.antt =====
-- Events of one client and the server, on a small system.
use redisproxy.Base.{
  ℕ, zero, suc, ap, ◌≡◌, refl, sym, true, false, none, some, List, [], ◌∷◌, arith, ◌==◌, Bool-cases,
  inl, inr,
}
use mathlib.Core.Option.{some-injective, some-ne-none}
use mathlib.Core.Path.{subst}
use redisproxy.Error.{Error, ok, is_none}
use redisproxy.Mem.{Ptr}
use redisproxy.Event.{Event}
use redisproxy.Event.Sample.{table, no_table, Table, reply}
use redisproxy.Conn.{Connection, Answer, moved}
use redisproxy.Conn.Order.{IsAnswer}
use redisproxy.Conn.Laws.{held}
use redisproxy.Upstream.{Upstream, on_server_read}
use redisproxy.Upstream.Total.{on_server_read_total}
use redisproxy.Session.{Session, on_client_read}
use redisproxy.Session.Total.{Returns, on_client_read_total}
use redisproxy.Proxy.{Owner, server, client, State, session_env, server_env}
use redisproxy.Proxy.Reading.{on_readable, Input, received, failed, Room, World}
use redisproxy.Proxy.Sound.{Live, Known, IsSound}
use redisproxy.Proxy.Pushing.{Client, session_env-Keeps}
use redisproxy.Proxy.Popping.{Server, server_env-Keeps, IsSound-parsed}
use redisproxy.Proxy.Handled.{IsReady, Serves}
use redisproxy.Proxy.Serving.{IsData}
use redisproxy.Proxy.Turn.{written-Serves}
use redisproxy.Proxy.Starting.{Setup, Pool, server_init}
use redisproxy.Proxy.Started.{server_init_total}
use redisproxy.Event.{ctl_add}
use redisproxy.Event.Interest.{reading}
use redisproxy.Buffer.View
use redisproxy.Socket.{run_calls}
use redisproxy.Socket.Sample.{with_files}
use redisproxy.Proxy.Accepting.{accept_calls}
use redisproxy.Proxy.Joining.{with_client, joined_as, with_client-IsSound}
use redisproxy.Proxy.History.{History, still, joins, writes, NoneToClose, writing, history-Serves}
use redisproxy.Proxy.Tests.{
  answers, got, settled, room, options, system, links, own, net, up, asked, net-InOrder,
  asked-IsValid,
}

abbrev sizes : Room
sizes = record { client_min = 1024; server_min = 1024; grown = none }

-- The client waits for a reply.
abbrev asking : Upstream Ptr
asking = record up { cmd_queue = asked }

known_at : (r : Ptr) → (r == 6) ≡ true → net.outer r ≡ some own
known_at r y = rw y refl

owned_at : (p r : Ptr) → held links p ≡ some (some (client r)) → Known net.outer r
owned_at zero r h = absurd (cc (h))
owned_at (suc zero) r h =
    let e : 6 ≡ r = cc (h) in (own, subst (λ q. net.outer q ≡ some own) e refl)
owned_at (suc (suc p)) r h = absurd (some-ne-none _ (sym h))

asking-IsSound : IsSound system options none asking net
asking-IsSound = record {
  in_order = net-InOrder;
  valid = asked-IsValid;
  server_live = (0, refl, (some server, refl));
  fine = λ r sess k. elim (Bool-cases (r == 6)) [
    | inl y ↦
        let e : own ≡ sess = some-injective own sess (rw y at k) in
        (
          ap (λ (s : Session). s.parser.offset) (sym e),
          1,
          ap (λ (s : Session). s.client_conn) (sym e),
          (some (client 6), refl),
        )
    | inr n ↦ absurd (some-ne-none sess (sym (rw n at k)))
  ];
  owned = owned_at;
  awaited = (inl (own, refl), tt);
}

-- A part of a request, a reply, and nothing.
abbrev events : List (Ptr × Input)
events =
    (1, received (b'*' ∷ b'1' ∷ b'\r' ∷ []))
    ∷ (0, received (b'+' ∷ b'O' ∷ b'K' ∷ b'\r' ∷ b'\n' ∷ []))
    ∷ (1, failed 11)
    ∷ []

abbrev takes_three : Ptr → Answer
takes_three q = moved 3

-- Half of a request, and then something that is none.
abbrev typing : Session
typing = record own {
  parser = record own.parser { input = b'*' ∷ b'x' ∷ b'\r' ∷ b'\n' ∷ b'$' ∷ [] };
}

on_client_read_total_example :
    Returns
      (session_env system options none 6)
      1
      (Client system options none net)
      typing
      (on_client_read (session_env system options none 6) 1024 none 1 typing (asking, net))
on_client_read_total_example =
    on_client_read_total (session_env system options none 6) 1 (Client system options none net)
      typing (asking, net) 1024 none
      (session_env-Keeps system options none net 6 1 (own, refl) (some (client 6), refl))
      (asking-IsSound, refl, (refl, λ q. refl, net-InOrder)) refl

abbrev answered : Upstream Ptr
answered = record asking {
  parser = record up.parser { input = b'+' ∷ b'O' ∷ b'K' ∷ b'\r' ∷ b'\n' ∷ b'$' ∷ [] };
}

on_server_read_total_example :
    (err : Error) × (u' : Upstream Ptr) × (net' : State system options none) × (on_server_read
        (server_env system options none)
        1024
        none
        answered
        net
      ≡ some (err, u', net'))
    × Server system options none net u' net'
    × (u'.parser.offset ≡ 0)
on_server_read_total_example =
    on_server_read_total (server_env system options none) (Server system options none net) answered
      net 1024 none (server_env-Keeps system options none net)
      (λ u s room g. (IsSound-parsed system options none u s u.parser u.resp_buffer room g.0, g.1))
      (
        IsSound-parsed system options none asking net answered.parser [] 2000 asking-IsSound,
        (refl, λ q. refl, net-InOrder),
      )
      refl

abbrev setup : Setup
setup = record {
  cluster_mode = false;
  conn_send_buffer_count = 4;
  read_buffer_init_size = 16384;
  password = b's' ∷ b'e' ∷ b's' ∷ [];
}

server_init_total_example :
    (err : Error) × (listener : Event) × (pool : Pool system options none) × (net' : State system
      options none)
    × (server_init system options none true none setup (some 16384) 0 (no_table, [])
        ≡ some (err, listener, pool, net'))
    × (is_none err ≡ true
        → (u : Upstream Ptr) × (pool ≡ some u)
          × IsSound system options none u net'
          × (u.parser.offset ≡ 0)
          × (held net'.conns 0 ≡ some (some server)))
server_init_total_example =
    server_init_total system options none true none setup (some 16384) 0 (no_table, [])
      (omega arith) (omega arith)

abbrev roomy : Room
roomy = record { client_min = 1024; server_min = 1024; grown = some 16384 }

calls_taken : is_none (run_calls system (accept_calls options) 9 net.kernel).0 ≡ true
calls_taken = ap (λ (t : Error × (Table × List ℕ)). is_none t.0) settled

watch_taken :
    ((with_files table).epoll_ctl
      (run_calls system (accept_calls options) 9 net.kernel).1
      ctl_add
      9
      (reading 9 0).events).0
    ≡ none
watch_taken = ap (λ (t : Error × (Table × List ℕ)). reply (t.1.0 9) ctl_add) settled

-- A second client comes in, at 2, with the session 7.
abbrev joined_net : State system options none
joined_net =
    with_client system options none net 2 7 9 4 (View.append_capacity (some 16384) 0 16384).1
      (joined_as system options none answers 16384 3 9 2 7 (some 16384) net got calls_taken room
        watch_taken).0

no_flag : NoneToClose system options none roomy 16384 (asking, joined_net)
no_flag zero c h = sym (ap (λ (x : Connection Owner). x.flag.close) (some-injective _ _ h))
no_flag (suc zero) c h = sym (ap (λ (x : Connection Owner). x.flag.close) (some-injective _ _ h))
no_flag (suc (suc zero)) c h =
    sym (ap (λ (x : Connection Owner). x.flag.close) (some-injective _ _ h))
no_flag (suc (suc (suc q))) c h =
    let e : (2 == suc (suc (suc q))) ≡ false = ground arith in
    absurd (some-ne-none c (sym (rw e at h)))

joined-IsReady : IsReady system options none roomy (asking, joined_net)
joined-IsReady = (
  with_client-IsSound system options none asking net 2 7 9 4
      (View.append_capacity (some 16384) 0 16384).1 _ asking-IsSound refl,
  refl,
)

-- Then what waits is written, three bytes at most.
abbrev written :
    (w : World system options none roomy) × (writing system options none roomy 16384 takes_three
        (asking, joined_net)
      ≡ some (ok, w))
    × Serves system options none roomy (asking, joined_net) w
written =
    written-Serves system options none roomy 16384 takes_three (asking, joined_net) (λ q. tt)
      joined-IsReady no_flag

joined : History system options none roomy 16384 (3, (asking, net)) (4, written.0)
joined =
    joins 3 4 answers 9 2 7 asking net joined_net (4, written.0) refl got calls_taken room
      watch_taken
      (joined_as system options none answers 16384 3 9 2 7 (some 16384) net got calls_taken room
        watch_taken).1
      (writes 4 takes_three ok (asking, joined_net) written.0 (4, written.0) (λ q. tt) no_flag
        written.1 (still (4, written.0)))

history-Serves_example :
    IsReady system options none roomy written.0
    × ((p : Ptr) (input : Input)
        → Live system options none written.0.1 p
        → IsData input
        → (err : Error) × (w : World system options none roomy) × (on_readable system options none
              roomy p input written.0
            ≡ some (err, w))
          × Serves system options none roomy written.0 w)
    × ((answers : Ptr → Answer)
        → ((q : Ptr) → IsAnswer (answers q))
        → NoneToClose system options none roomy 16384 written.0
        → (w : World system options none roomy) × (writing system options none roomy 16384 answers
              written.0
            ≡ some (ok, w))
          × Serves system options none roomy written.0 w)
history-Serves_example =
    history-Serves system options none roomy 16384 (3, (asking, net)) (4, written.0) joined
      (asking-IsSound, refl)
