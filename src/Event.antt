-- ===== src/Event.antt =====
-- src/io.h (`struct Event`) and src/epoll.cpp: which notifications an event asks for.
-- `epoll_ctl` of the system is a parameter, with its documented behaviour as laws.
pub mod Interest
pub mod Listed
pub mod Sample
mod Tests
use redisproxy.Base.{
  ℕ, suc, ◌+◌, ◌<◌, ◌≡◌, ◌≢◌, Bool, true, false, not, ◌||◌, Option, none, some, List, [], ◌∷◌, ◌++◌,
  ◌==◌, if◌then◌else◌,
}
use redisproxy.Base.Int.{pos}
use redisproxy.Error.{Error, of_code, ok, init_failed}
use redisproxy.Mem.{Ptr}

-- `EPOLLIN` and `EPOLLOUT`, the two bits of `events` that the program sets.
pub data Bit : Type 0 where
  epollin epollout : Bit

pub record Mask : Type 0 where
  pub in_bit : Bool
  pub out_bit : Bool

abbrev pub no_events : Mask
no_events = record { in_bit = false; out_bit = false }

-- `events & bit`, and `events` with the bit set or cleared.
abbrev pub has : Mask → Bit → Bool
has m epollin = m.in_bit
has m epollout = m.out_bit

abbrev pub put : Mask → Bit → Bool → Mask
put m epollin b = record m { in_bit = b }
put m epollout b = record m { out_bit = b }

-- `events == 0`
abbrev pub is_zero : Mask → Bool
is_zero m = not (m.in_bit || m.out_bit)

-- `EPOLL_CTL_ADD`, `EPOLL_CTL_MOD` and `EPOLL_CTL_DEL`
pub data Op : Type 0 where
  ctl_add ctl_mod ctl_del : Op

-- What `epoll_ctl` leaves the set with, where it succeeds.
abbrev pub entry : Op → Mask → Option Mask
entry ctl_add m = some m
entry ctl_mod m = some m
entry ctl_del m = none

-- The system's `epoll`: `epoll_ctl` answers `none` on success, and `some errno` otherwise.
pub record Epoll : Type 1 where
  pub State : Type 0
  pub epoll_ctl : State → Op → ℕ → Mask → Option ℕ × State
  -- what is watched of a descriptor; `none` where it is not in the set
  pub interest : State → ℕ → Option Mask
  pub eexist : ℕ
  pub enoent : ℕ
  pub ebadf : ℕ
  -- an `errno` that is set is positive
  pub errno_pos :
      (s : State) (op : Op) (fd : ℕ) (m : Mask) (n : ℕ) → (epoll_ctl s op fd m).0 ≡ some n → 0 < n
  pub succeeds :
      (s : State) (op : Op) (fd : ℕ) (m : Mask)
      → (epoll_ctl s op fd m).0 ≡ none
      → interest (epoll_ctl s op fd m).1 fd ≡ entry op m
  pub fails :
      (s : State) (op : Op) (fd : ℕ) (m : Mask) (n : ℕ)
      → (epoll_ctl s op fd m).0 ≡ some n
      → interest (epoll_ctl s op fd m).1 fd ≡ interest s fd
  pub others :
      (s : State) (op : Op) (fd other : ℕ) (m : Mask)
      → other ≢ fd
      → interest (epoll_ctl s op fd m).1 other ≡ interest s other
  -- "EEXIST: op was EPOLL_CTL_ADD, and the descriptor is already registered"
  pub add_present :
      (s : State) (fd : ℕ) (m m' : Mask)
      → interest s fd ≡ some m'
      → (epoll_ctl s ctl_add fd m).0 ≡ some eexist
  -- "ENOENT: op was EPOLL_CTL_MOD or EPOLL_CTL_DEL, and the descriptor is not registered"
  pub mod_absent :
      (s : State) (fd : ℕ) (m : Mask)
      → interest s fd ≡ none
      → (epoll_ctl s ctl_mod fd m).0 ≡ some enoent
  -- `close` of a descriptor, which also takes it out of the set
  pub close_fd : State → ℕ → State
  pub closed : (s : State) (fd : ℕ) → interest (close_fd s fd) fd ≡ none
  pub close_others :
      (s : State) (fd other : ℕ) → other ≢ fd → interest (close_fd s fd) other ≡ interest s other

-- A node of the list `writeEvents`: its address and the event that it holds.
pub record Node : Type 0 where
  pub id : ℕ
  pub event : Ptr

-- `Event::writeEvents`, and the address that the next node gets.
pub record Writes : Type 0 where
  pub nodes : List Node
  pub next_id : ℕ

-- `fd` is `none` for -1. `write_list_pos` means nothing before the first `SetWritable( true )`.
pub record Event : Type 0 where
  pub fd : Option ℕ
  pub events : Mask
  pub write_list_pos : ℕ

-- `Event( ContextType )`
abbrev pub fresh : Event
fresh = record { fd = none; events = no_events; write_list_pos = 0 }

-- `writeEvents.erase( pos )`; a position that is not in the list is a fault.
unfoldable pub erase : ℕ → List Node → Option (List Node)
erase p [] = none
erase p (n ∷ ns) =
    if n.id == p then some ns else elim (erase p ns) [ none ↦ none | some rest ↦ some (n ∷ rest) ]

-- `SetWritable( flag )` of the event at `self`.
unfoldable pub set_writable : Ptr → Bool → Event → Writes → Option (Error × Event × Writes)
set_writable self true e w =
    if e.events.out_bit
    then some (ok, e, w)
    else some (
      ok,
      record e { events = put e.events epollout true; write_list_pos = w.next_id },
      record {
        nodes = w.nodes ++ record { id = w.next_id; event = self } ∷ [];
        next_id = suc w.next_id;
      },
    )
set_writable self false e w =
    if e.events.out_bit
    then elim (erase e.write_list_pos w.nodes) [
      | none ↦ none
      | some ns ↦
          some (ok, record e { events = put e.events epollout false }, record w { nodes = ns })
    ]
    else some (ok, e, w)

-- The status of a system call that answers with an `errno`.
abbrev pub status : Option ℕ → Error
status none = ok
status (some n) = of_code (pos n)

module _ (E : Epoll) where
  abbrev pub ctl : E.State → Op → ℕ → Event → Error × Event × E.State
  ctl s op fd e = let (errno, s') = E.epoll_ctl s op fd e.events in (status errno, e, s')

  -- The part of `operateNotify` from `fd == -1` on.
  unfoldable pub notify : Op → Event → E.State → Error × Event × E.State
  notify op e s = elim e.fd [
    | none ↦ (ok, e, s)
    | some fd ↦ ctl s (if is_zero e.events then ctl_del else op) fd e
  ]

  unfoldable pub operate_notify : Bit → Bool → Event → E.State → Error × Event × E.State
  unfolding notify
  operate_notify bit true e s =
      if has e.events bit
      then (ok, e, s)
      else notify (if is_zero e.events then ctl_add else ctl_mod)
          (record e { events = put e.events bit true }) s
  operate_notify bit false e s =
      if has e.events bit
      then notify (if is_zero e.events then ctl_add else ctl_mod)
          (record e { events = put e.events bit false }) s
      else (ok, e, s)

  -- `SetReadable( flag )`
  unfoldable pub set_readable : Bool → Event → E.State → Error × Event × E.State
  unfolding operate_notify
  set_readable flag e s = operate_notify epollin flag e s

  unfoldable pub attach : Event → E.State → Error × Event × E.State
  attach e s = elim e.fd [
    | none ↦ (init_failed, e, s)
    | some fd ↦ if is_zero e.events then (ok, e, s) else ctl s ctl_add fd e
  ]

  -- `RemoveNotify`. With -1 for the descriptor the system answers `EBADF`.
  unfoldable pub remove_notify : Event → E.State → Error × Event × E.State
  remove_notify e s = elim e.fd [
    | none ↦ (of_code (pos E.ebadf), e, s)
    | some fd ↦
        let (errno, s') = E.epoll_ctl s ctl_del fd no_events in
        elim errno [
          | none ↦ (ok, record e { events = no_events }, s')
          | some n ↦ (of_code (pos n), e, s')
        ]
  ]
