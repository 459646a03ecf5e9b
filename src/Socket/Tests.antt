-- ===== src/Socket/Tests.antt =====
-- Connect and Listen of netio.cpp on a small system.
use redisproxy.Base.{◌≢◌, true, Option, none, some, [], ◌∷◌}
use redisproxy.Base.Int.{ℤ, pos}
use redisproxy.Event
use redisproxy.Event.{Event}
use redisproxy.Event.Sample.{table, no_table}
use redisproxy.Socket.{Options, connect}
use redisproxy.Socket.Sample.{files}
use redisproxy.Socket.Opening.{Opens, connect-Opens}

abbrev options : Options
options = record {
  backlog = 128;
  socket_no_delay = true;
  socket_non_block = true;
  socket_keep_alive = pos 60;
}

found : ◌≢◌ {A = Option ℤ} none (some (pos 0))
found h = absurd (cc)

-- `ECONNREFUSED` is 111 on Linux: the socket 4 is closed again.
connect-Opens_example :
    Opens
      (files table (some 111))
      (λ fd e'. record e' { fd = some fd })
      Event.fresh
      (no_table, 7 ∷ [])
      (connect (files table (some 111)) options none Event.fresh (no_table, 7 ∷ []))
connect-Opens_example =
    connect-Opens (files table (some 111)) options none Event.fresh (no_table, 7 ∷ []) found
