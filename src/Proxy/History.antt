-- ===== src/Proxy/History.antt =====
-- The histories of the program while nobody goes away or is to be closed: clients come in, clients and the
-- server send, and what waits is written.
use redisproxy.Base.{ℕ, ◌≡◌, ◌∙◌, ap, sym, true, false, Option, none, some, List}
use mathlib.Core.Option.{some-injective}
use mathlib.Core.Path.{subst}
use redisproxy.Base.Int.{ℤ}
use redisproxy.Error.{Error, ok, is_none}
use redisproxy.Mem.{Ptr}
use redisproxy.Event.{Epoll, ctl_add}
use redisproxy.Event.Interest.{reading}
use redisproxy.Socket.{Handle, opened, Sockets, Options, run_calls}
use redisproxy.Buffer.View
use redisproxy.Conn.{Connection, Answer}
use redisproxy.Conn.Order.{IsAnswer}
use redisproxy.Conn.Polling.{handle_write_events}
use redisproxy.Upstream.{Upstream}
use redisproxy.Proxy.{Owner, State}
use redisproxy.Proxy.Accepting.{accepted, accept_calls, accept}
use redisproxy.Proxy.Reading.{Input, Room, World, within, server_end, on_readable}
use redisproxy.Proxy.Looping.{Loop}
use redisproxy.Proxy.Sound.{Live, IsSound}
use redisproxy.Proxy.Handled.{IsReady, Serves}
use redisproxy.Proxy.Serving.{IsData, on_readable-Serves}
use redisproxy.Proxy.Turn.{written-Serves}
use redisproxy.Proxy.Joining.{joined_as, with_client-IsSound}

module _ {E : Epoll} (K : Sockets E) (opt : Options) (resolved : Option ℤ) (sizes : Room)
    (init_size : ℕ) where
  abbrev At : Type 0
  At = Loop K opt resolved sizes init_size

  -- No connection has the close flag.
  abbrev pub NoneToClose : World K opt resolved sizes → Type 0
  NoneToClose w = (q : Ptr) (c : Connection Owner) → w.1.conns q ≡ some c → c.flag.close ≡ false

  -- A round of `HandleWriteEvents` in the program.
  abbrev pub writing :
      (Ptr → Answer) → World K opt resolved sizes → Option (Error × World K opt resolved sizes)
  writing answers =
      within K opt resolved sizes (handle_write_events E (server_end K opt resolved sizes) answers)

  -- What may have happened between two states of the program: a connection was readable, and something
  -- had come or nothing yet; a client came in, the system took the calls, and the connection is new; or
  -- what waits was written, when no connection had the close flag, and `write` failed only with an
  -- `errno`.
  pub data History : At → At → Type 0 where
    still : (l : At) → History l l
    reads :
        (counter : ℕ) (p : Ptr) (input : Input) (err : Error) (w w' : World K opt resolved sizes)
        (l : At)
        → Live K opt resolved w.1 p
        → IsData input
        → on_readable K opt resolved sizes p input w ≡ some (err, w')
        → History (counter, w') l
        → History (counter, w) l
    joins :
        (counter counter' : ℕ) (answers : List Handle) (fd : ℕ) (p r : Ptr) (u : Upstream Ptr)
        (net net' : State K opt resolved) (l : At)
        → net.conns p ≡ none
        → accepted answers ≡ some (opened fd)
        → is_none (run_calls K (accept_calls opt) fd net.kernel).0 ≡ true
        → (View.append_capacity sizes.grown 0 init_size).0 ≡ ok
        → (E.epoll_ctl
            (run_calls K (accept_calls opt) fd net.kernel).1
            ctl_add
            fd
            (reading fd 0).events).0
          ≡ none
        → accept K opt resolved answers init_size sizes.grown p r counter net
          ≡ some (ok, counter', net')
        → History (counter', (u, net')) l
        → History (counter, (u, net)) l
    writes :
        (counter : ℕ) (answers : Ptr → Answer) (err : Error) (w w' : World K opt resolved sizes)
        (l : At)
        → ((q : Ptr) → IsAnswer (answers q))
        → NoneToClose w
        → writing answers w ≡ some (err, w')
        → History (counter, w') l
        → History (counter, w) l

  same_world :
      (err err' : Error) (w w' : World K opt resolved sizes)
      (out : Option (Error × World K opt resolved sizes))
      → out ≡ some (err, w)
      → out ≡ some (err', w')
      → w ≡ w'
  same_world err err' w w' out e f = ap (λ x. x.1) (some-injective (err, w) (err', w') (sym e ∙ f))

  same_net :
      (n m : ℕ) (net net' : State K opt resolved) (out : Option (Error × ℕ × State K opt resolved))
      → out ≡ some (ok, n, net)
      → out ≡ some (ok, m, net')
      → net ≡ net'
  same_net n m net net' out e f =
      ap (λ x. x.2) (some-injective (ok, n, net) (ok, m, net') (sym e ∙ f))

  -- The invariant, by induction on the history.
  kept :
      (l l' : At)
      → History l l'
      → IsReady K opt resolved sizes l.1
      → IsReady K opt resolved sizes l'.1
  kept l l' (still l'') v = v
  kept l l' (reads counter p input err w w' l'' live d e h) v =
      let (_, w'', e', (v', _)) = on_readable-Serves K opt resolved sizes p input w v d live in
      kept (counter, w') l'' h
        (subst (IsReady K opt resolved sizes) (same_world _ err w'' w' _ e' e) v')
  kept l l' (joins counter counter' answers fd p r u net net' l'' new got calls room taken e h)
        (v, o) =
      let (s, e') =
        joined_as K opt resolved answers init_size counter fd p r sizes.grown net got calls room
          taken in
      kept (counter', (u, net')) l'' h
        (
          subst (IsSound K opt resolved u) (same_net _ counter' _ net' _ e' e)
              (with_client-IsSound K opt resolved u net p r fd _ _ s v new),
          o,
        )
  kept l l' (writes counter answers err w w' l'' are open_ e h) v =
      let (w'', e', (v', _)) =
        written-Serves K opt resolved sizes init_size answers w are v open_ in
      kept (counter, w') l'' h
        (subst (IsReady K opt resolved sizes) (same_world ok err w'' w' _ e' e) v')

  -- After any history from a program in which `IsReady` holds, in which clients come in, the data that
  -- clients and the server send are read, in any order and cut anywhere, and what waits is written by
  -- rounds of `HandleWriteEvents` that each find no connection with the close flag, while no other side goes
  -- away: `IsReady` holds; whatever data come next through a connection that is not deleted, `OnReadable`
  -- comes back; and where no connection has the close flag, the next round of writing comes back with OK.
  -- Both leave `IsReady` and the owners as they are. Where a
  -- buffer is moved over itself, `memcpy` is taken to move it.
  pub history-Serves :
      (l l' : At)
      → History l l'
      → IsReady K opt resolved sizes l.1
      → IsReady K opt resolved sizes l'.1
        × ((p : Ptr) (input : Input)
            → Live K opt resolved l'.1.1 p
            → IsData input
            → (err : Error) × (w : World K opt resolved sizes) × (on_readable K opt resolved sizes p
                  input l'.1
                ≡ some (err, w))
              × Serves K opt resolved sizes l'.1 w)
        × ((answers : Ptr → Answer)
            → ((q : Ptr) → IsAnswer (answers q))
            → NoneToClose l'.1
            → (w : World K opt resolved sizes) × (writing answers l'.1 ≡ some (ok, w))
              × Serves K opt resolved sizes l'.1 w)
  history-Serves l l' h v =
      let v' = kept l l' h v in
      (
        v',
        λ p input live d. on_readable-Serves K opt resolved sizes p input l'.1 v' d live,
        λ answers are open_.
            written-Serves K opt resolved sizes init_size answers l'.1 are v' open_,
      )
