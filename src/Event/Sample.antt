-- ===== src/Event/Sample.antt =====
-- A system on which tests can run: its epoll set is a table.
use redisproxy.Base.{
  ℕ, ◌<◌, ◌≡◌, ◌≢◌, refl, false, Option, none, some, arith, ◌==◌, ==_refl, if◌then◌else◌,
}
use redisproxy.Event.{Mask, Op, ctl_add, ctl_mod, ctl_del, entry, Epoll}

abbrev pub Table : Type 0
Table = ℕ → Option Mask

abbrev pub put_entry : Table → ℕ → Option Mask → Table
put_entry t fd m q = if fd == q then m else t q

-- `EEXIST` and `ENOENT` are 17 and 2 on Linux.
abbrev pub reply : Option Mask → Op → Option ℕ
reply none ctl_add = none
reply none ctl_mod = some 2
reply none ctl_del = some 2
reply (some m) ctl_add = some 17
reply (some m) ctl_mod = none
reply (some m) ctl_del = none

abbrev pub changed : Option ℕ → Table → ℕ → Option Mask → Table
changed none t fd m = put_entry t fd m
changed (some errno) t fd m = t

abbrev table_ctl : Table → Op → ℕ → Mask → Option ℕ × Table
table_ctl t op fd m = (reply (t fd) op, changed (reply (t fd) op) t fd (entry op m))

pub reply_pos : (o : Option Mask) (op : Op) (n : ℕ) → reply o op ≡ some n → 0 < n
reply_pos none ctl_add n h = ground arith
reply_pos none ctl_mod n h = ground arith
reply_pos none ctl_del n h = ground arith
reply_pos (some m) ctl_add n h = ground arith
reply_pos (some m) ctl_mod n h = ground arith
reply_pos (some m) ctl_del n h = ground arith

pub put_self : (t : Table) (fd : ℕ) (m : Option Mask) → put_entry t fd m fd ≡ m
put_self t fd m = rw (==_refl fd)

pub put_other :
    (t : Table) (fd other : ℕ) (m : Option Mask) → other ≢ fd → put_entry t fd m other ≡ t other
put_other t fd other m ne = let n : (fd == other) ≡ false = ground arith in rw n

pub changed_other :
    (r : Option ℕ) (t : Table) (fd other : ℕ) (m : Option Mask)
    → other ≢ fd
    → changed r t fd m other ≡ t other
changed_other none t fd other m ne = put_other t fd other m ne
changed_other (some errno) t fd other m ne = refl

pub changed_self :
    (r : Option ℕ) (t : Table) (fd : ℕ) (m : Option Mask) → r ≡ none → changed r t fd m fd ≡ m
changed_self none t fd m e = put_self t fd m
changed_self (some errno) t fd m e = absurd (cc)

pub changed_not :
    (r : Option ℕ) (t : Table) (fd n : ℕ) (m : Option Mask)
    → r ≡ some n
    → changed r t fd m fd ≡ t fd
changed_not none t fd n m e = absurd (cc)
changed_not (some errno) t fd n m e = refl

pub add_present : (o : Option Mask) (m : Mask) → o ≡ some m → reply o ctl_add ≡ some 17
add_present none m e = absurd (cc)
add_present (some m') m e = refl

pub mod_absent : (o : Option Mask) → o ≡ none → reply o ctl_mod ≡ some 2
mod_absent none e = refl
mod_absent (some m) e = absurd (cc)

abbrev pub table : Epoll
table = record {
  State = Table;
  epoll_ctl = table_ctl;
  interest = λ t fd. t fd;
  eexist = 17;
  enoent = 2;
  ebadf = 9;
  errno_pos = λ t op fd m n h. reply_pos (t fd) op n h;
  succeeds = λ t op fd m h. changed_self (reply (t fd) op) t fd (entry op m) h;
  fails = λ t op fd m n h. changed_not (reply (t fd) op) t fd n (entry op m) h;
  others = λ t op fd other m ne. changed_other (reply (t fd) op) t fd other (entry op m) ne;
  add_present = λ t fd m m' h. add_present (t fd) m' h;
  mod_absent = λ t fd m h. mod_absent (t fd) h;
  close_fd = λ t fd. put_entry t fd none;
  closed = λ t fd. put_self t fd none;
  close_others = λ t fd other ne. put_other t fd other none ne;
}

abbrev pub no_table : Table
no_table fd = none
