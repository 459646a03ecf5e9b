-- ===== src/Conn/Tests.antt =====
-- Connections of connections.cpp on a small system.
use redisproxy.Base.{
  ap, sym, length, ℕ, zero, suc, ◌≡◌, refl, Bool, true, false, Option, none, some, List, [], ◌∷◌,
  ◌++◌, Bytes, arith, if◌then◌else◌, ◌==◌, ◌≢◌,
}
use redisproxy.Error.{Error, ok, closed, is_none}
use redisproxy.Mem.{Ptr}
use redisproxy.Event.Sample.{table, no_table, Table}
use redisproxy.Event.Listed.{listed, find}
use redisproxy.Conn.{
  Answer, Connection, Net, M, create, moved, failed, pure, on_writable, on_closed,
}
use redisproxy.Conn.Laws.{events_of, InOrder}
use redisproxy.Conn.Order.{IsAnswer}
use redisproxy.Conn.Polling.{handle_write_events}
use redisproxy.Conn.Round.{AllOpen, Rounded, handle_write_events-Rounded}
use redisproxy.Conn.Drain.{TakesAll, handle_write_events-drains}
use mathlib.Core.Option.{some-injective}
use redisproxy.Conn.Trace.{Action, gives, polls, IsArmed, run, run-conserves}
use redisproxy.Conn.Overlap.{run-overlaps}
use redisproxy.Conn.Stale.{handle_write_events-stale}
use redisproxy.Conn.Shut.{on_writable-cuts}
use redisproxy.Conn.Link.{reconnect, on_closed-leaks}
use redisproxy.Socket
use redisproxy.Event
use redisproxy.Socket.{Options}
use redisproxy.Socket.Sample.{files, with_files}
use redisproxy.Base.Int.{ℤ, pos}

-- A connection with the descriptor 5 and three bytes to write, that is to be closed after them or not.
abbrev busy : Bool → Connection ℕ
busy close = record (create {O = ℕ}) {
  event = record {
    fd = some 5;
    events = record { in_bit = false; out_bit = true };
    write_list_pos = 0;
  };
  flag = record { close = close; rst = false };
  connected = true;
  send_buffer = 1 ∷ 2 ∷ 3 ∷ [];
  place = record { offset = 0; capacity = 3; overlapped = false };
}

abbrev only : Bool → Ptr → Option (Connection ℕ)
only close p = elim p [ zero ↦ some (busy close) | suc q ↦ none ]

abbrev net : Bool → Net Table ℕ (Unit {0})
net close = record {
  kernel = no_table;
  writes = record { nodes = record { id = 0; event = 0 } ∷ []; next_id = 1 };
  conns = only close;
  outer = tt;
}

abbrev on_end : Ptr → M Table ℕ (Unit {0}) Error
on_end p = pure ok

once_at :
    (close : Bool) (p : Ptr)
    → listed p (net close).writes.nodes
      ≡ (if (events_of (only close) p).events.out_bit then 1 else 0)
once_at close zero = refl
once_at close (suc p) = ground arith

at_node :
    (close : Bool) (p : Ptr)
    → (events_of (only close) p).events.out_bit ≡ true
    → find (events_of (only close) p).write_list_pos (net close).writes.nodes ≡ some p
at_node close zero h = refl
at_node close (suc p) h = absurd (cc)

net-InOrder : (close : Bool) → InOrder (net close)
net-InOrder close = record { below = (omega arith, tt); once = once_at close; at = at_node close }

abbrev script : List Action
script = polls (moved 2) ∷ gives (4 ∷ 5 ∷ []) ∷ polls (failed 11) ∷ polls (moved 3) ∷ []

run-conserves_example :
    (sent : Bytes) × (good : Bool) × (net' : Net Table ℕ (Unit {0})) × (c' : Connection ℕ) × (run
        table on_end 0 script
        (net false)
      ≡ some (sent, good, net'))
    × (net'.conns 0 ≡ some c')
    × (c'.place.overlapped ≡ false → sent ++ c'.send_buffer ≡ 1 ∷ 2 ∷ 3 ∷ 4 ∷ 5 ∷ [])
    × (false ≡ true → c'.place.overlapped ≡ true)
    × (good ≡ true → IsArmed (busy false) → IsArmed c')
run-conserves_example =
    run-conserves table on_end 0 script (net false) (busy false) (net-InOrder false) refl refl
      (tt, (omega arith, (tt, tt)))

run-overlaps_example :
    (sent : Bytes) × (net' : Net Table ℕ (Unit {0})) × (c' : Connection ℕ) × (run table on_end 0
        (polls (moved 1) ∷ gives (4 ∷ []) ∷ [])
        (net false)
      ≡ some (sent, true, net'))
    × (net'.conns 0 ≡ some c')
    × (c'.place.overlapped ≡ true)
run-overlaps_example =
    run-overlaps table on_end 0 0 (4 ∷ []) (net false) (busy false) (net-InOrder false) refl refl
      refl refl (omega arith) (omega arith) (omega arith)

abbrev takes_two : Ptr → Answer
takes_two q = moved 2

handle_write_events-stale_example :
    (net' : Net Table ℕ (Unit {0})) × (handle_write_events table on_end takes_two (net true)
      ≡ some (ok, net'))
    × (net'.conns 0 ≡ none)
    × ((next : Ptr → Answer) → handle_write_events table on_end next net' ≡ none)
handle_write_events-stale_example =
    handle_write_events-stale table on_end takes_two (net true) 0 (busy true) 0 2 refl refl refl
      refl (omega arith) refl

on_writable-cuts_example :
    (net' : Net Table ℕ (Unit {0})) × (on_writable table on_end 0 (moved 2) (net true)
      ≡ some (closed, net'))
    × (net'.conns 0 ≡ none)
    × (listed 0 net'.writes.nodes ≡ 1)
on_writable-cuts_example =
    on_writable-cuts table on_end (net true) 0 (busy true) 1 (net-InOrder true) refl refl refl refl
      (omega arith)

-- A connection to a server, watched by its reconnection, that has the descriptor 7.
abbrev to_server : Connection ℕ
to_server = record (create {O = ℕ}) {
  event = record {
    fd = some 7;
    events = record { in_bit = true; out_bit = false };
    write_list_pos = 0;
  };
  connected = true;
  watched = true;
}

abbrev options : Options
options = record {
  backlog = 128;
  socket_no_delay = true;
  socket_non_block = true;
  socket_keep_alive = pos 60;
}

found : ◌≢◌ {A = Option ℤ} none (some (pos 0))
found h = absurd (cc)

abbrev linked : Net (Table × List ℕ) ℕ (Unit {0})
linked = record {
  kernel = (no_table, 7 ∷ []);
  writes = record { nodes = []; next_id = 0 };
  conns = λ p. if p == 1 then some to_server else none;
  outer = tt;
}

-- The system takes the descriptor as new, so that `Attach` of it succeeds.
connected :
    is_none (Socket.connect (files table none) options none to_server.event linked.kernel).0 ≡ true
unfolding Socket.connect Socket.open_socket Socket.run_calls Socket.connect_calls Socket.call_status
    Event.attach
connected = refl

on_closed-leaks_example :
    (fd : ℕ) × (net' : Net (Table × List ℕ) ℕ (Unit {0})) × (on_closed
        (with_files table)
        (reconnect (files table none) options none)
        1
        linked
      ≡ some (tt, net'))
    × (net'.conns 1 ≡ none)
    × ((files table none).is_open linked.kernel fd ≡ false)
    × ((files table none).is_open net'.kernel fd ≡ true)
on_closed-leaks_example =
    on_closed-leaks (files table none) options none linked 1 to_server refl refl found connected

-- The system takes three bytes of every connection.
abbrev takes : Ptr → Answer
takes p = moved 3

takes-IsAnswer : (p : Ptr) → IsAnswer (takes p)
takes-IsAnswer p = tt

net-AllOpen : AllOpen table on_end takes takes-IsAnswer (net false)
net-AllOpen zero c h = ap (λ (x : Connection ℕ). x.flag.close) (sym (some-injective _ _ h))
net-AllOpen (suc q) c h = absurd (cc)

handle_write_events-Rounded_example :
    (net' : Net Table ℕ (Unit {0})) × (handle_write_events table on_end takes (net false)
      ≡ some (ok, net'))
    × InOrder net'
    × Rounded table on_end takes takes-IsAnswer (net false).writes.nodes (net false) net'
handle_write_events-Rounded_example =
    handle_write_events-Rounded table on_end takes takes-IsAnswer (net false) (net-InOrder false)
      net-AllOpen

net-IsArmed : (q : Ptr) (c : Connection ℕ) → (net false).conns q ≡ some c → IsArmed c
net-IsArmed zero c h w =
    ap (λ (x : Connection ℕ). x.event.events.out_bit) (sym (some-injective _ _ h))
net-IsArmed (suc q) c h w = absurd (cc)

net-TakesAll : TakesAll table on_end takes takes-IsAnswer (net false)
net-TakesAll zero c h =
    (3, refl, omega (arith, ap (λ (x : Connection ℕ). length x.send_buffer) (some-injective _ _ h)))
net-TakesAll (suc q) c h = absurd (cc)

handle_write_events-drains_example :
    (net' : Net Table ℕ (Unit {0})) × (handle_write_events table on_end takes (net false)
      ≡ some (ok, net'))
    × (net'.writes.nodes ≡ [])
    × ((q : Ptr) (c : Connection ℕ)
        → (net false).conns q ≡ some c
        → (c' : Connection ℕ) × (net'.conns q ≡ some c') × (length c'.send_buffer ≡ 0))
handle_write_events-drains_example =
    handle_write_events-drains table on_end takes takes-IsAnswer (net false) (net-InOrder false)
      net-AllOpen net-IsArmed net-TakesAll
