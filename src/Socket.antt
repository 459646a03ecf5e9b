-- ===== src/Socket.antt =====
-- src/netio.cpp: `Listen` and `Connect`, and the options of sockets. The calls of the system are
-- parameters, with what they do to the descriptors that are open as laws; address resolution and
-- `struct Addr` are glue, of which only the status of `GetAddrInfo` is kept.
pub mod Opening
pub mod Sample
mod Tests
use redisproxy.Base.{
  ℕ, zero, suc, ◌<◌, ◌≡◌, ◌/◌, Bool, true, false, not, ◌||◌, ◌&&◌, Option, none, some, List, [],
  ◌∷◌, ◌++◌, ◌==◌, if◌then◌else◌,
}
use redisproxy.Base.Int.{ℤ, pos, negsuc}
use redisproxy.Error.{Error, of_code, ok, is_none}
use redisproxy.Event.{Epoll, Event, Op, Mask, attach}

-- The calls of `fcntl`, `setsockopt`, `bind`, `listen` and `connect` that the program makes.
pub data Call : Type 0 where
  get_flags set_nonblock reuse_addr no_delay keep_alive bind_addr connect_addr : Call
  keep_idle keep_interval keep_count listen_backlog : ℕ → Call

-- What `socket` answers: a descriptor, or -1 with an `errno`.
pub data Handle : Type 0 where
  opened refused : ℕ → Handle

-- The sockets of the system whose epoll is `E`.
pub record Sockets (E : Epoll) : Type 0 where
  pub is_open : E.State → ℕ → Bool
  pub socket : E.State → Handle × E.State
  -- `none` on success, and `some errno` otherwise
  pub call : E.State → Call → ℕ → Option ℕ × E.State
  pub einprogress : ℕ
  -- an `errno` that is set is positive
  pub errno_pos : (s : E.State) (n : ℕ) → (socket s).0 ≡ refused n → 0 < n
  -- `socket` gives a descriptor that was not open, and opens it
  pub socket_new :
      (s : E.State) (fd : ℕ)
      → (socket s).0 ≡ opened fd
      → (is_open s fd ≡ false) × ((q : ℕ) → is_open (socket s).1 q ≡ is_open s q || q == fd)
  pub socket_refused :
      (s : E.State) (n q : ℕ) → (socket s).0 ≡ refused n → is_open (socket s).1 q ≡ is_open s q
  -- the other calls open and close nothing
  pub call_open : (s : E.State) (c : Call) (fd q : ℕ) → is_open (call s c fd).1 q ≡ is_open s q
  pub ctl_open :
      (s : E.State) (op : Op) (fd q : ℕ) (m : Mask)
      → is_open (E.epoll_ctl s op fd m).1 q ≡ is_open s q
  pub close_open :
      (s : E.State) (fd q : ℕ) → is_open (E.close_fd s fd) q ≡ is_open s q && not (q == fd)

-- `NetIoOptions`, what `Listen` and `Connect` read of it.
pub record Options : Type 0 where
  pub backlog : ℕ
  pub socket_no_delay : Bool
  pub socket_non_block : Bool
  pub socket_keep_alive : ℤ

-- `SetNonblock`, `SetReuseAddr`, `SetNoDelay` and `SetKeepAlive`: the calls, in order. The first that
-- fails ends the function.
abbrev pub nonblock_calls : List Call
nonblock_calls = get_flags ∷ set_nonblock ∷ []

abbrev pub keep_alive_calls : ℕ → List Call
keep_alive_calls interval =
    keep_alive
    ∷ keep_idle interval
    ∷ keep_interval (if interval / 3 == 0 then 1 else interval / 3)
    ∷ keep_count 3
    ∷ []

-- What `Connect` does with a new socket, and what `Listen` does.
unfoldable pub connect_calls : Options → List Call
connect_calls opt =
    (if opt.socket_no_delay then no_delay ∷ [] else [])
    ++ (if opt.socket_non_block then nonblock_calls else [])
    ++ elim opt.socket_keep_alive [
      | pos zero ↦ []
      | pos (suc n) ↦ keep_alive_calls (suc n)
      | negsuc n ↦ []
    ]
    ++ connect_addr ∷ []

unfoldable pub listen_calls : Options → List Call
listen_calls opt = nonblock_calls ++ reuse_addr ∷ bind_addr ∷ listen_backlog opt.backlog ∷ []

module _ {E : Epoll} (K : Sockets E) where
  -- The status of a call. A `connect` that is in progress is not a failure.
  unfoldable pub call_status : Call → Option ℕ → Error
  call_status c none = ok
  call_status connect_addr (some n) = if n == K.einprogress then ok else of_code (pos n)
  call_status c (some n) = of_code (pos n)

  unfoldable pub run_calls : List Call → ℕ → E.State → Error × E.State
  run_calls [] fd s = (ok, s)
  run_calls (c ∷ calls) fd s =
      let (errno, s') = K.call s c fd in
      let err = call_status c errno in
      let rest = run_calls calls fd s' in if is_none err then rest else (err, s')

  -- A new socket, the calls on it, and `Attach` of the event, which has become what `setup` makes of
  -- it. Where a call fails the socket is closed.
  unfoldable pub open_socket :
      List Call → (ℕ → Event → Event) → Event → E.State → Error × Event × E.State
  open_socket calls setup e s =
      let (handle, s₁) = K.socket s in
      elim handle [
        | refused n ↦ (of_code (pos n), e, s₁)
        | opened fd ↦
            let (err, s₂) = run_calls calls fd s₁ in
            if is_none err then attach E (setup fd e) s₂ else (err, e, E.close_fd s₂ fd)
      ]

  -- `Connect( evt, addr, opt )`. `resolved` is `none` where `GetAddrInfo` succeeds.
  unfoldable pub connect : Options → Option ℤ → Event → E.State → Error × Event × E.State
  connect opt (some rv) e s = (of_code rv, e, s)
  connect opt none e s = open_socket (connect_calls opt) (λ fd e'. record e' { fd = some fd }) e s

  -- `Listen( evt, addr, opt )`
  unfoldable pub listen : Options → Option ℤ → Event → E.State → Error × Event × E.State
  listen opt (some rv) e s = (of_code rv, e, s)
  listen opt none e s =
      open_socket (listen_calls opt)
        (λ fd e'. record e' { fd = some fd; events = record { in_bit = true; out_bit = false } }) e
        s
