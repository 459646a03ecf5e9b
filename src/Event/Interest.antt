-- ===== src/Event/Interest.antt =====
-- epoll.cpp: what the system watches of a descriptor is what `events` says.
use redisproxy.Base.{
  ℕ, ◌<◌, ◌≡◌, ◌∙◌, ap, refl, Bool, true, false, Option, none, some, List, [], ◌∷◌, arith,
  if◌then◌else◌, Bool-cases, inl, inr,
}
use redisproxy.Mem.{Ptr}
use mathlib.Core.Path.{subst}
use mathlib.Core.Option.{some-injective}
use redisproxy.Base.Int.{pos}
use redisproxy.Error.{of_code, ok, is_none}
use redisproxy.Event.{
  Epoll, Event, Mask, Op, ctl_add, ctl_mod, ctl_del, Writes, entry, is_zero, no_events, status,
  notify, operate_notify, set_readable, set_writable, attach,
}

-- What a mask asks of the system: nothing, if it has no bit.
abbrev pub wanted : Mask → Option Mask
wanted m = if is_zero m then none else some m

-- An event at `fd` that is watched for reading only.
abbrev pub reading : ℕ → ℕ → Event
reading fd at = record {
  fd = some fd;
  events = record { in_bit = true; out_bit = false };
  write_list_pos = at;
}

-- The last of some flags; `b` if there are none.
abbrev pub last_of : Bool → List Bool → Bool
last_of b [] = b
last_of b (flag ∷ flags) = last_of flag flags

module _ (E : Epoll) where
  -- The system watches what `events` says; without a descriptor there is nothing to watch.
  abbrev pub IsSynced : Event → E.State → Type 0
  IsSynced e s = elim e.fd [ none ↦ Unit {0} | some fd ↦ E.interest s fd ≡ wanted e.events ]

  status-ok :
      (s : E.State) (op : Op) (fd : ℕ) (m : Mask)
      → is_none (status (E.epoll_ctl s op fd m).0) ≡ true
      → (E.epoll_ctl s op fd m).0 ≡ none
  status-ok s op fd m h = split _ (E.errno_pos s op fd m) h
    where
      split : (r : Option ℕ) → ((n : ℕ) → r ≡ some n → 0 < n) → is_none (status r) ≡ true → r ≡ none
      split none p q = refl
      split (some n) p q = ground (arith, p n refl)

  notify-entry :
      (op : Op) (m : Mask) (s : E.State) (fd at : ℕ)
      → entry op m ≡ some m
      → is_none (notify E op (record { fd = some fd; events = m; write_list_pos = at }) s).0 ≡ true
      → E.interest (notify E op (record { fd = some fd; events = m; write_list_pos = at }) s).2 fd
        ≡ wanted m
  unfolding notify
  notify-entry op m s fd at h r = elim (Bool-cases (is_zero m)) [
    | inl z ↦ let r' = rw z at r in rw z (E.succeeds s ctl_del fd m (status-ok s ctl_del fd m r'))
    | inr nz ↦ let r' = rw nz at r in rw nz (E.succeeds s op fd m (status-ok s op fd m r') ∙ h)
  ]

  -- Where `fd` is given, a call of `operateNotify` that changes `events` ends in `notify`.
  notify-IsSynced :
      (op : Op) (e : Event) (s : E.State)
      → entry op e.events ≡ some e.events
      → is_none (notify E op e s).0 ≡ true
      → IsSynced (notify E op e s).1 (notify E op e s).2
  unfolding notify
  notify-IsSynced op e s h r = by_fd e.fd r
    where
      at : Option ℕ → Event
      at fd = record e { fd = fd }

      by_fd :
          (fd : Option ℕ)
          → is_none (notify E op (at fd) s).0 ≡ true
          → IsSynced (notify E op (at fd) s).1 (notify E op (at fd) s).2
      by_fd none r' = tt
      by_fd (some fd) r' = notify-entry op e.events s fd e.write_list_pos h r'

  entry_first : (z : Bool) (m : Mask) → entry (if z then ctl_add else ctl_mod) m ≡ some m
  entry_first true m = refl
  entry_first false m = refl

  -- `SetReadable`, where it returns OK, keeps the two in step and sets the bit as asked.
  pub set_readable-IsSynced :
      (flag : Bool) (e : Event) (s : E.State)
      → IsSynced e s
      → is_none (set_readable E flag e s).0 ≡ true
      → IsSynced (set_readable E flag e s).1 (set_readable E flag e s).2
  unfolding set_readable operate_notify
  set_readable-IsSynced true e s v r = elim (Bool-cases e.events.in_bit) [
    | inl b ↦ simp b v
    | inr b ↦
        let r' = rw b at r in rw b (notify-IsSynced _ _ s (entry_first (is_zero e.events) _) r')
  ]
  set_readable-IsSynced false e s v r = elim (Bool-cases e.events.in_bit) [
    | inl b ↦
        let r' = rw b at r in rw b (notify-IsSynced _ _ s (entry_first (is_zero e.events) _) r')
    | inr b ↦ simp b v
  ]

  -- What `SetReadable` leaves of the event: the bit as asked, and all else as it was.
  pub set_readable_bits :
      (flag : Bool) (e : Event) (s : E.State)
      → ((set_readable E flag e s).1.events.in_bit ≡ flag)
        × ((set_readable E flag e s).1.events.out_bit ≡ e.events.out_bit)
        × ((set_readable E flag e s).1.fd ≡ e.fd)
  unfolding set_readable operate_notify notify
  set_readable_bits flag e s = ground arith

  attach-IsSynced :
      (e : Event) (s : E.State) (fd : ℕ)
      → e.fd ≡ some fd
      → E.interest s fd ≡ none
      → is_none (attach E e s).0 ≡ true
      → IsSynced (attach E e s).1 (attach E e s).2
  unfolding attach
  attach-IsSynced e s fd h new r = rw h (elim (Bool-cases (is_zero e.events)) [
    | inl z ↦ simp z new
    | inr nz ↦
        let r' = rw (h, nz) at r in
        simp nz (E.succeeds s ctl_add fd e.events (status-ok s ctl_add fd e.events r'))
  ])

  -- `Attach`, and calls of `SetReadable` behind it; `none` if one of them does not return OK.
  unfoldable pub set_readables : List Bool → Event → E.State → Option (Event × E.State)
  set_readables [] e s = some (e, s)
  set_readables (flag ∷ flags) e s =
      let (err, e', s') = set_readable E flag e s in
      let rest = set_readables flags e' s' in if is_none err then rest else none

  unfoldable pub attach_then : List Bool → Event → E.State → Option (Event × E.State)
  attach_then flags e s =
      let (err, e', s') = attach E e s in
      let rest = set_readables flags e' s' in if is_none err then rest else none

  set_readables-IsSynced :
      (flags : List Bool) (e e' : Event) (s s' : E.State)
      → IsSynced e s
      → set_readables flags e s ≡ some (e', s')
      → IsSynced e' s' × (e'.fd ≡ e.fd) × (e'.events.in_bit ≡ last_of e.events.in_bit flags)
  unfolding set_readables
  set_readables-IsSynced [] e e' s s' v r =
      subst
        (λ (x : Event × E.State).
          IsSynced x.0 x.1 × (x.0.fd ≡ e.fd) × (x.0.events.in_bit ≡ e.events.in_bit))
        (some-injective _ _ r) (v, refl, refl)
  set_readables-IsSynced (flag ∷ flags) e e' s s' v r =
      elim (Bool-cases (is_none (set_readable E flag e s).0)) [
        | inl o ↦
            let (b, _, f) = set_readable_bits flag e s in
            let (t, f', i) =
              set_readables-IsSynced flags (set_readable E flag e s).1 e'
                (set_readable E flag e s).2 s' (set_readable-IsSynced flag e s v o) (rw o at r) in
            (t, f' ∙ f, i ∙ ap (λ b. last_of b flags) b)
        | inr n ↦ let r' = rw n at r in cc
      ]

  attach_fields :
      (e : Event) (s : E.State)
      → ((attach E e s).1.fd ≡ e.fd) × ((attach E e s).1.events.in_bit ≡ e.events.in_bit)
  unfolding attach
  attach_fields e s = ground arith

  synced_at :
      (e : Event) (s : E.State) (fd : ℕ)
      → e.fd ≡ some fd
      → IsSynced e s
      → E.interest s fd ≡ wanted e.events
  synced_at e s fd h v = rw h at v

  -- `Attach` of a descriptor that the system does not watch yet, and then any calls of
  -- `SetReadable`, where all of them return OK: at the end the system watches exactly what `events`
  -- says, the descriptor is the same, and the readable bit is the last one asked for.
  pub attach_then-IsSynced :
      (flags : List Bool) (e e' : Event) (s s' : E.State) (fd : ℕ)
      → e.fd ≡ some fd
      → E.interest s fd ≡ none
      → attach_then flags e s ≡ some (e', s')
      → (e'.fd ≡ some fd)
        × (E.interest s' fd ≡ wanted e'.events)
        × (e'.events.in_bit ≡ last_of e.events.in_bit flags)
  unfolding attach_then
  attach_then-IsSynced flags e e' s s' fd h new r = elim (Bool-cases (is_none (attach E e s).0)) [
    | inl o ↦
        let v = attach-IsSynced e s fd h new o in
        let (f, i) = attach_fields e s in
        let (t, f', i') =
          set_readables-IsSynced flags (attach E e s).1 e' (attach E e s).2 s' v (rw o at r) in
        let at_fd : e'.fd ≡ some fd = f' ∙ f ∙ h in
        (at_fd, synced_at e' s' fd at_fd t, i' ∙ ap (λ b. last_of b flags) i)
    | inr n ↦ let r' = rw n at r in cc
  ]

  -- Where a connection that is only watched for reading stops reading, then gets something to write,
  -- and then wants to read again, the last call fails with `ENOENT`: `SetWritable` has set a bit that
  -- the system was not told of, so that the descriptor is modified and not added. The readable bit
  -- says otherwise, but the descriptor stays unwatched.
  pub set_readable-starved :
      (fd at : ℕ) (s : E.State) (self : Ptr) (w : Writes)
      → is_none (set_readable E false (reading fd at) s).0 ≡ true
      → let (_, e₁, s₁) = set_readable E false (reading fd at) s in
        (e₂ : Event) × (w₂ : Writes) × (set_writable self true e₁ w ≡ some (ok, e₂, w₂))
        × ((set_readable E true e₂ s₁).0 ≡ of_code (pos E.enoent))
        × ((set_readable E true e₂ s₁).1.events.in_bit ≡ true)
        × (E.interest (set_readable E true e₂ s₁).2 fd ≡ none)
  unfolding set_readable operate_notify notify set_writable
  set_readable-starved fd at s self w r =
      let s₁ = (E.epoll_ctl s ctl_del fd no_events).1 in
      let gone = E.succeeds s ctl_del fd no_events (status-ok s ctl_del fd no_events r) in
      let m : Mask = record { in_bit = true; out_bit = true } in
      let refused = E.mod_absent s₁ fd m gone in
      (_, _, refl, rw refused, refl, E.fails s₁ ctl_mod fd m E.enoent refused ∙ gone)
