-- ===== src/Proxy/Tests.antt =====
-- One client and the server, on a small system.
use redisproxy.Base.{
  List, ap, ℕ, zero, suc, ap, ◌≡◌, refl, true, false, Option, none, some, [], ◌∷◌, arith, ◌==◌,
  if◌then◌else◌, inl, inr,
}
use redisproxy.Base.Int.{pos}
use redisproxy.Mem.{Ptr}
use redisproxy.Event.Sample.{table, no_table, Table, reply}
use redisproxy.Event.{ctl_add}
use redisproxy.Event.Interest.{reading}
use redisproxy.Buffer.View
use redisproxy.Error.{Error, ok, is_none}
use redisproxy.Socket.{Options, Sockets, Handle, opened, refused, run_calls}
use redisproxy.Socket.Sample.{files, with_files}
use redisproxy.Recycle.Valid.{IsValid}
use redisproxy.Recycle.Fifo.{contents}
use redisproxy.Cmd.Parser.Response.{Reply, line}
use redisproxy.Base.Memchr.{Lacks, memchr}
use redisproxy.Recycle.{Recycle}
use redisproxy.Cmd.{Cmd}
use redisproxy.Conn
use redisproxy.Conn.{Connection, Net}
use redisproxy.Conn.Laws.{InOrder, events_of}
use redisproxy.Upstream
use redisproxy.Upstream.Route
use redisproxy.Upstream.{Upstream, Pair, reader, no_pair, on_server_read}
use redisproxy.Session
use redisproxy.Session.{Session, make_room, on_client_read}
use redisproxy.Session.Serve.{stream, ArePrintable, ready}
use redisproxy.Proxy.{Owner, server, client, State, session_env, server_env}
use redisproxy.Proxy.Forward.{IsOpen, Sent, on_client_read-Sent}
use redisproxy.Proxy.Deliver.{IsServed, on_server_read-IsServed}
use redisproxy.Proxy.Accepting.{accepted, accept_calls, accept}
use redisproxy.Proxy.Answer.{on_client_read-on_server_read}
use redisproxy.Proxy.Welcome.{newcomer, accept-IsServed}

abbrev pub options : Options
options = record {
  backlog = 128;
  socket_no_delay = true;
  socket_non_block = true;
  socket_keep_alive = pos 60;
}

abbrev pub system : Sockets (with_files table)
system = files table none

abbrev pub link : ℕ → Owner → Connection Owner
link fd owner = record (Conn.create {O = Owner}) {
  event = record {
    fd = some fd;
    events = record { in_bit = true; out_bit = false };
    write_list_pos = 0;
  };
  connected = true;
  reader = some owner;
}

-- The connection to the server is at 0, the one to the client at 1, and the session at 6.
abbrev pub links : Ptr → Option (Connection Owner)
links zero = some (link 4 server)
links (suc zero) = some (link 5 (client 6))
links (suc (suc p)) = none

abbrev pub own : Session
own = record (Session.create 3) { client_conn = some 1; room = 2000 }

abbrev pub net : State system options none
net = record {
  kernel = (no_table, 4 ∷ 5 ∷ []);
  writes = record { nodes = []; next_id = 0 };
  conns = links;
  outer = λ r. if r == 6 then some own else none;
}

no_out : (p : Ptr) → (events_of links p).events.out_bit ≡ false
no_out zero = refl
no_out (suc zero) = refl
no_out (suc (suc p)) = refl

pub net-InOrder : InOrder net
net-InOrder = record {
  below = tt;
  once = λ p. rw (no_out p) refl;
  at = λ p h. absurd (cc (no_out p));
}

abbrev pub up : Upstream Ptr
up = record {
  server_conn = some 0;
  connect_times = 1;
  resp_buffer = [];
  parser = redisproxy.Cmd.Parser.fresh;
  room = 2000;
  auth = true;
  auth_cmd = none;
  cmd_queue = record { holder = no_pair ∷ no_pair ∷ no_pair ∷ []; start = 0; end = 0 };
}

abbrev ping : Cmd
ping = (b'P' ∷ b'I' ∷ b'N' ∷ b'G' ∷ []) ∷ []

pings-ArePrintable : ArePrintable (ping ∷ ping ∷ [])
pings-ArePrintable = omega arith

pub up-IsValid : IsValid up.cmd_queue
up-IsValid = omega arith

up-IsOpen : IsOpen system options none 6 0 up net (link 4 server) own
up-IsOpen = record {
  linked = refl;
  authorized = refl;
  valid = up-IsValid;
  in_order = net-InOrder;
  live = refl;
  connected = refl;
  known = refl;
}

on_client_read-Sent_example :
    (u' : Upstream Ptr) × (net' : State system options none) × (c' : Connection Owner)
    × (on_client_read
          (session_env system options none 6)
          1024
          none
          1
          (ready own (stream (ping ∷ ping ∷ [])))
          (up, net)
        ≡ some (
          (make_room (session_env system options none 6) 1024 none (ready own [])).0,
          (make_room (session_env system options none 6) 1024 none (ready own [])).1,
          (u', net'),
        ))
    × Sent system options none 6 0 (ping ∷ ping ∷ []) up net (link 4 server) own u' net' c'
on_client_read-Sent_example =
    on_client_read-Sent system options none 6 0 (ping ∷ ping ∷ []) 1 own own up net (link 4 server)
      1024 none pings-ArePrintable up-IsOpen (omega arith)

served : IsServed system options none 6 1 net (link 5 (client 6)) own
served = record {
  in_order = net-InOrder;
  live = refl;
  connected = refl;
  known = refl;
  linked = refl;
}

abbrev pub asked : Recycle (Pair Ptr)
asked = record {
  holder = record { identity = 3; target = reader 6 } ∷ no_pair ∷ no_pair ∷ [];
  start = 0;
  end = 1;
}

pub asked-IsValid : IsValid asked
asked-IsValid = omega arith

abbrev fine : Reply
fine = line b'+' (b'O' ∷ b'K' ∷ b'\r' ∷ [])

Lacks-fine : Lacks b'\n' (b'O' ∷ b'K' ∷ b'\r' ∷ [])
unfolding memchr
Lacks-fine = refl

fine-AreReplies : Route.AreReplies (fine ∷ [])
fine-AreReplies = ((inr (inl refl), Lacks-fine), tt)

on_server_read-IsServed_example :
    (q' : Recycle (Pair Ptr)) × (net' : State system options none) × (c' : Connection Owner)
    × (on_server_read
          (server_env system options none)
          1024
          none
          (Route.ready up (Route.stream (fine ∷ [])) asked)
          net
        ≡ some (
          (Upstream.make_room (server_env system options none) 1024 none (Route.ready up [] q')).0,
          (Upstream.make_room (server_env system options none) 1024 none (Route.ready up [] q')).1,
          net',
        ))
    × (contents no_pair q' ≡ [])
    × IsServed system options none 6 1 net' c' own
    × (c'.send_buffer ≡ Route.stream (fine ∷ []))
on_server_read-IsServed_example =
    on_server_read-IsServed system options none 6 1 (fine ∷ []) [] up asked net (link 5 (client 6))
      own 1024 none asked-IsValid refl fine-AreReplies served

-- `accept` is interrupted once, and then gives the descriptor 9.
abbrev pub answers : List Handle
answers = refused 4 ∷ opened 9 ∷ []

pub got : accepted answers ≡ some (opened 9)
unfolding accepted
got = refl

pub settled :
    run_calls system (accept_calls options) 9 (no_table, 4 ∷ 5 ∷ []) ≡ (ok, (no_table, 4 ∷ 5 ∷ []))
unfolding run_calls accept_calls redisproxy.Socket.call_status
settled = refl

pub room : (View.append_capacity (some 16384) 0 16384).0 ≡ ok
unfolding View.append_capacity
room = refl

accept-IsServed_example :
    (net' : State system options none) × (own' : Session) × (accept system options none answers
        16384
        (some 16384)
        2
        7
        3
        net
      ≡ some (ok, 4, net'))
    × IsServed system options none 7 2 net' (newcomer 7 (some 9) true) own'
    × (own'.id ≡ 4)
    × ((with_files table).interest net'.kernel 9 ≡ some (reading 9 0).events)
accept-IsServed_example =
    accept-IsServed system options none 7 2 answers 16384 3 9 (some 16384) net net-InOrder refl got
      (ap (λ (t : Error × (Table × List ℕ)). is_none t.0) settled) room
      (ap (λ (t : Error × (Table × List ℕ)). reply (t.1.0 9) ctl_add) settled)

ping-ArePrintable : ArePrintable (ping ∷ [])
ping-ArePrintable = omega arith

on_client_read-on_server_read_example :
    (u₁ u₂ : Upstream Ptr) × (net₁ net₂ : State system options none) × (c' d' : Connection Owner)
    × (err err' : Error) × (sess' : Session) × (on_client_read
          (session_env system options none 6)
          1024
          none
          1
          (ready own (stream (ping ∷ [])))
          (up, net)
        ≡ some (err, sess', (u₁, net₁)))
    × (net₁.conns 0 ≡ some c')
    × (c'.send_buffer ≡ stream (ping ∷ []))
    × (on_server_read
          (server_env system options none)
          1024
          none
          (Route.ready u₁ (Route.stream (fine ∷ [])) u₁.cmd_queue)
          net₁
        ≡ some (err', u₂, net₂))
    × (net₂.conns 1 ≡ some d')
    × (d'.send_buffer ≡ Route.stream (fine ∷ []))
    × (contents no_pair u₂.cmd_queue ≡ [])
on_client_read-on_server_read_example =
    on_client_read-on_server_read system options none 6 0 1 (ping ∷ []) (fine ∷ []) own own up net
      (link 4 server) (link 5 (client 6)) 1024 none ping-ArePrintable fine-AreReplies refl refl
      up-IsOpen served refl (omega arith)
