-- ===== src/Socket/Opening.antt =====
-- netio.cpp: no path through `Connect` and `Listen` loses a socket.
use redisproxy.Base.{
  ℕ, ◌≡◌, ◌∙◌, ap, refl, sym, Bool, true, false, not, ◌||◌, ◌&&◌, Option, none, some, List, [], ◌∷◌,
  arith, ◌==◌, ==_iff, Bool-cases, Option-cases, ◌⊎◌, ◌≢◌, ◌<◌, inl, inr,
}
use redisproxy.Base.Int.{ℤ, pos, ◌==ℤ◌, ==ℤ_iff}
use redisproxy.Error.{Error, of_code, is_none}
use redisproxy.Event.{Epoll, Event, attach, ctl_add, is_zero}
use redisproxy.Socket.{
  Call, Handle, opened, refused, Sockets, Options, connect_calls, listen_calls, call_status,
  run_calls, open_socket, connect, listen,
}

module _ {E : Epoll} (K : Sockets E) where
  -- The descriptors that are open have not changed.
  abbrev pub AsBefore : E.State → E.State → Type 0
  AsBefore s s' = (q : ℕ) → K.is_open s' q ≡ K.is_open s q

  -- One descriptor more is open, which was not.
  abbrev pub OneMore : ℕ → E.State → E.State → Type 0
  OneMore fd s s' = (K.is_open s fd ≡ false) × ((q : ℕ) → K.is_open s' q ≡ K.is_open s q || q == fd)

  run_calls-AsBefore :
      (calls : List Call) (fd : ℕ) (s : E.State) → AsBefore s (run_calls K calls fd s).1
  unfolding run_calls
  run_calls-AsBefore [] fd s q = refl
  run_calls-AsBefore (c ∷ calls) fd s q =
      elim (Bool-cases (is_none (call_status K c (K.call s c fd).0))) [
        | inl o ↦ rw (o) (run_calls-AsBefore calls fd (K.call s c fd).1 q ∙ K.call_open s c fd q)
        | inr n ↦ rw (n) (K.call_open s c fd q)
      ]

  attach-AsBefore : (e : Event) (s : E.State) → AsBefore s (attach E e s).2
  unfolding attach
  attach-AsBefore e s q = elim (Option-cases e.fd) [
    | inl h ↦ rw (h) refl
    | inr (fd, h) ↦ elim (Bool-cases (is_zero e.events)) [
      | inl z ↦ rw (h, z) refl
      | inr n ↦ rw (h, n) (K.ctl_open s ctl_add fd q e.events)
    ]
  ]

  -- What `Connect` and `Listen` come to: the error `err` with everything as before, or a new socket
  -- that the event has got, of which only the status of `Attach` is not known.
  abbrev pub Opens : (ℕ → Event → Event) → Event → E.State → Error × Event × E.State → Type 0
  Opens setup e s out =
      ((is_none out.0 ≡ false) × (out.1 ≡ e) × AsBefore s out.2)
      ⊎ ((fd : ℕ) × (s₁ : E.State) × (out ≡ attach E (setup fd e) s₁) × OneMore fd s out.2)

  restored : (b t : Bool) → (t ≡ true → b ≡ false) → (b || t) && not t ≡ b
  restored true true h = sym (h refl)
  restored true false h = refl
  restored false true h = refl
  restored false false h = refl

  set_errno : (n : ℕ) → 0 < n → is_none (of_code (pos n)) ≡ false
  set_errno n h = ground arith

  wrong : (rv : ℤ) → some rv ≢ some (pos 0) → is_none (of_code rv) ≡ false
  wrong rv h = elim (Bool-cases (rv ==ℤ pos 0)) [
    | inl z ↦ absurd (h (ap some ((==ℤ_iff rv (pos 0)).0 z)))
    | inr n ↦ n
  ]

  -- A socket that is closed again leaves the open descriptors as they were.
  close-AsBefore :
      (s s₁ s₂ : E.State) (fd : ℕ)
      → OneMore fd s s₁
      → AsBefore s₁ s₂
      → AsBefore s (E.close_fd s₂ fd)
  close-AsBefore s s₁ s₂ fd (new, more) same q =
      K.close_open s₂ fd q
      ∙ ap (λ b. b && not (q == fd)) (same q ∙ more q)
      ∙ restored (K.is_open s q) (q == fd) (λ e. ap (K.is_open s) ((==_iff q fd).0 e) ∙ new)

  open_socket-Opens :
      (calls : List Call) (setup : ℕ → Event → Event) (e : Event) (s : E.State)
      → Opens setup e s (open_socket K calls setup e s)
  unfolding open_socket
  open_socket-Opens calls setup e s = by_handle (K.socket s).0 refl
    where
      by_handle :
          (handle : Handle)
          → (K.socket s).0 ≡ handle
          → Opens setup e s (open_socket K calls setup e s)
      by_handle (refused n) h =
          rw (h, open_socket)
            (inl (set_errno n (K.errno_pos s n h), refl, λ q. K.socket_refused s n q h))
      by_handle (opened fd) h =
          let s₁ = (K.socket s).1 in
          let more = K.socket_new s fd h in
          let same = run_calls-AsBefore calls fd s₁ in
          elim (Bool-cases (is_none (run_calls K calls fd s₁).0)) [
            | inl o ↦
                rw (h, o, open_socket)
                  (inr (
                    fd,
                    (run_calls K calls fd s₁).1,
                    refl,
                    (
                      more.0,
                      λ q.
                          attach-AsBefore (setup fd e) (run_calls K calls fd s₁).1 q
                          ∙ same q
                          ∙ more.1 q,
                    ),
                  ))
            | inr n ↦
                rw (h, n, open_socket)
                  (inl (n, refl, close-AsBefore s s₁ (run_calls K calls fd s₁).1 fd more same))
          ]

  -- `Connect`, whatever the system answers, if `GetAddrInfo` never fails with status 0: either it returns an error, the event is the same, and
  -- the same descriptors are open as before; or the event has a new descriptor, this is open in
  -- addition to those before, and the result is that of `Attach`.
  pub connect-Opens :
      (opt : Options) (resolved : Option ℤ) (e : Event) (s : E.State)
      → resolved ≢ some (pos 0)
      → Opens (λ fd e'. record e' { fd = some fd }) e s (connect K opt resolved e s)
  unfolding connect
  connect-Opens opt none e s h = open_socket-Opens (connect_calls opt) _ e s
  connect-Opens opt (some rv) e s h = inl (wrong rv h, refl, λ q. refl)

  -- `Listen`, whatever the system answers, if `GetAddrInfo` never fails with status 0: either it returns an
  -- error, the event is the same, and the same descriptors are open as before; or the event has a new
  -- descriptor, which is open in addition to those before, and asks to be watched for reading, and
  -- the result is that of `Attach`.
  pub listen-Opens :
      (opt : Options) (resolved : Option ℤ) (e : Event) (s : E.State)
      → resolved ≢ some (pos 0)
      → Opens
          (λ fd e'. record e' { fd = some fd; events = record { in_bit = true; out_bit = false } })
          e
          s
          (listen K opt resolved e s)
  unfolding listen
  listen-Opens opt none e s h = open_socket-Opens (listen_calls opt) _ e s
  listen-Opens opt (some rv) e s h = inl (wrong rv h, refl, λ q. refl)
