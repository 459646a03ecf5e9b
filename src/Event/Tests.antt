-- ===== src/Event/Tests.antt =====
-- Notifications of epoll.cpp on a small system.
use redisproxy.Base.{◌≡◌, refl, true, false, none, some, [], ◌∷◌}
use redisproxy.Base.Int.{pos}
use redisproxy.Mem.{Ptr}
use redisproxy.Error.{ok, of_code}
use redisproxy.Event.{Event, Writes, fresh, set_readable, set_writable, attach}
use redisproxy.Event.Sample.{table, no_table, Table, put_entry}
use redisproxy.Event.Interest.{
  wanted, reading, last_of, attach_then, attach_then-IsSynced, set_readables, set_readable-starved,
}
use redisproxy.Event.Listed.{Events, IsListed, run, asked, run-IsListed}

-- A socket that wants to be read, before `Attach`.
abbrev accepted : Event
accepted = reading 5 0

-- The same behind `Attach`, a stop and a start of reading.
abbrev last_table : Table
last_table =
    put_entry (put_entry (put_entry no_table 5 (some accepted.events)) 5 none) 5
      (some accepted.events)

attach_then-run :
    attach_then table (false ∷ true ∷ []) accepted no_table ≡ some (accepted, last_table)
unfolding attach_then attach set_readables set_readable
attach_then-run = refl

attach_then-IsSynced_example :
    (accepted.fd ≡ some 5)
    × (table.interest last_table 5 ≡ wanted accepted.events)
    × (accepted.events.in_bit ≡ last_of true (false ∷ true ∷ []))
attach_then-IsSynced_example =
    attach_then-IsSynced table (false ∷ true ∷ []) accepted accepted no_table last_table 5 refl refl
      attach_then-run

abbrev read_table : Table
read_table = put_entry no_table 5 (some accepted.events)

abbrev no_writes : Writes
no_writes = record { nodes = []; next_id = 0 }

stops : redisproxy.Error.is_none (set_readable table false (reading 5 0) read_table).0 ≡ true
unfolding set_readable
stops = refl

set_readable-starved_example :
    let (_, e₁, s₁) = set_readable table false (reading 5 0) read_table in
    (e₂ : Event) × (w₂ : Writes) × (set_writable 16 true e₁ no_writes ≡ some (ok, e₂, w₂))
    × ((set_readable table true e₂ s₁).0 ≡ of_code (pos 2))
    × ((set_readable table true e₂ s₁).1.events.in_bit ≡ true)
    × (table.interest (set_readable table true e₂ s₁).2 5 ≡ none)
set_readable-starved_example = set_readable-starved table 5 0 read_table 16 no_writes stops

abbrev all_fresh : Events
all_fresh p = fresh

all_fresh-IsListed : IsListed all_fresh no_writes
all_fresh-IsListed = record { below = tt; once = λ p. refl; at = λ p h. absurd (cc) }

run-IsListed_example :
    (es : Events) × (w : Writes) × (run
        ((1, true) ∷ (2, true) ∷ (1, false) ∷ [])
        all_fresh
        no_writes
      ≡ some (es, w))
    × IsListed es w
    × ((q : Ptr) → (es q).events.out_bit ≡ asked ((1, true) ∷ (2, true) ∷ (1, false) ∷ []) q false)
run-IsListed_example =
    run-IsListed ((1, true) ∷ (2, true) ∷ (1, false) ∷ []) all_fresh no_writes all_fresh-IsListed
