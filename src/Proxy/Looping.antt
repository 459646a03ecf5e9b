-- ===== src/Proxy/Looping.antt =====
-- `PollOnce` of src/epoll.cpp and `RunOnce` of src/server.cpp: a turn of the loop. What `epoll_wait` reports,
-- what the system has for each event, and the addresses of what is new are arguments.
use redisproxy.Base.{ℕ, Bool, true, false, Option, none, some, List, [], ◌∷◌, if◌then◌else◌}
use redisproxy.Base.Int.{ℤ}
use redisproxy.Error.{Error, ok, is_none}
use redisproxy.Mem.{Ptr}
use redisproxy.Event.{Epoll}
use redisproxy.Socket.{Handle, Sockets, Options}
use redisproxy.Conn.{Answer, on_writable}
use redisproxy.Conn.Polling.{handle_write_events}
use redisproxy.Proxy.Accepting.{accept}
use redisproxy.Proxy.Reading.{Input, Room, World, server_end, within, close, on_readable}

-- What `epoll_wait` reports: the listening socket, with the answers of `accept` and the places of the new
-- connection and session; or an event, with its bits `EPOLLHUP` or `EPOLLERR`, `EPOLLIN` and `EPOLLOUT`, and
-- what `read` and `write` find.
pub data Ready : Type 0 where
  incoming : List Handle → Ptr → Ptr → Ready
  ready_event : Ptr → Bool → Bool → Bool → Input → Answer → Ready

module _ {E : Epoll} (K : Sockets E) (opt : Options) (resolved : Option ℤ) (sizes : Room)
    (init_size : ℕ) where
  -- The program, with the counter of the identities of sessions.
  abbrev pub Loop : Type 0
  Loop = ℕ × World K opt resolved sizes

  -- The calls for an event: `OnWritable` is called only behind an `OnReadable` that returned OK.
  unfoldable pub poll_event :
      Ptr
      → Bool
      → Bool
      → Bool
      → Input
      → Answer
      → World K opt resolved sizes
      → Option (Error × World K opt resolved sizes)
  poll_event p true in_bit out_bit input answer w = close K opt resolved sizes p w
  poll_event p false true out_bit input answer w =
      elim (on_readable K opt resolved sizes p input w) [
        | none ↦ none
        | some (err, w') ↦
            if is_none err
            then (if out_bit
                then within K opt resolved sizes
                    (on_writable E (server_end K opt resolved sizes) p answer) w'
                else some (err, w'))
            else some (err, w')
      ]
  poll_event p false false true input answer w =
      within K opt resolved sizes (on_writable E (server_end K opt resolved sizes) p answer) w
  poll_event p false false false input answer w = some (ok, w)

  -- One of the things reported. What it returns is only logged.
  unfoldable pub poll_ready : Ready → Loop → Option Loop
  poll_ready (incoming answers p r) (counter, (u, net)) =
      elim (accept K opt resolved answers init_size sizes.grown p r counter net) [
        | none ↦ none
        | some (err, counter', net') ↦ some (counter', (u, net'))
      ]
  poll_ready (ready_event p hup in_bit out_bit input answer) (counter, w) =
      elim (poll_event p hup in_bit out_bit input answer w) [
        | none ↦ none
        | some (err, w') ↦ some (counter, w')
      ]

  unfoldable pub poll_all : List Ready → Loop → Option Loop
  poll_all [] l = some l
  poll_all (x ∷ xs) l = elim (poll_ready x l) [ none ↦ none | some l' ↦ poll_all xs l' ]

  -- `PollOnce( context, listenEvt, opt )`: it writes first.
  unfoldable pub poll_once : (Ptr → Answer) → List Ready → Loop → Option (Error × Loop)
  poll_once answers ready (counter, w) =
      elim (within K opt resolved sizes
        (handle_write_events E (server_end K opt resolved sizes) answers) w) [
          | none ↦ none
          | some (_, w') ↦ elim (poll_all ready (counter, w')) [
            | none ↦ none
            | some l ↦ some (ok, l)
          ]
        ]

  -- `RunOnce()`; the metrics are only updated with the time.
  unfoldable pub run_once : (Ptr → Answer) → List Ready → Loop → Option (Error × Loop)
  run_once answers ready l = elim (poll_once answers ready l) [
    | none ↦ none
    | some (err, l') ↦ if is_none err then some (ok, l') else some (err, l')
  ]
