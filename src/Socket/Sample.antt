-- ===== src/Socket/Sample.antt =====
-- A system with files on which tests can run: an epoll, the descriptors that are open, and the call
-- that fails, if any.
use redisproxy.Base.{
  ℕ, ◌+◌, ◌<◌, ◌≡◌, refl, Bool, false, not, ◌||◌, ◌&&◌, Option, none, List, [], ◌∷◌, length, arith,
  ◌==◌, if◌then◌else◌,
}
use redisproxy.Event.{Epoll}
use redisproxy.Socket.{Call, connect_addr, Handle, opened, refused, Sockets}

abbrev pub elem : List ℕ → ℕ → Bool
elem [] q = false
elem (x ∷ xs) q = elem xs q || q == x

abbrev pub without : List ℕ → ℕ → List ℕ
without [] fd = []
without (x ∷ xs) fd = let rest = without xs fd in if x == fd then rest else x ∷ rest

pub elem-without : (xs : List ℕ) (fd q : ℕ) → elem (without xs fd) q ≡ elem xs q && not (q == fd)
elem-without [] fd q = refl
elem-without (x ∷ xs) fd q = ground (arith, elem-without xs fd q)

-- An epoll together with a list of open descriptors.
abbrev pub with_files : Epoll → Epoll
with_files E = record {
  State = E.State × List ℕ;
  epoll_ctl = λ s op fd m. ((E.epoll_ctl s.0 op fd m).0, ((E.epoll_ctl s.0 op fd m).1, s.1));
  interest = λ s fd. E.interest s.0 fd;
  eexist = E.eexist;
  enoent = E.enoent;
  ebadf = E.ebadf;
  errno_pos = λ s op fd m n h. E.errno_pos s.0 op fd m n h;
  succeeds = λ s op fd m h. E.succeeds s.0 op fd m h;
  fails = λ s op fd m n h. E.fails s.0 op fd m n h;
  others = λ s op fd other m ne. E.others s.0 op fd other m ne;
  add_present = λ s fd m m' h. E.add_present s.0 fd m m' h;
  mod_absent = λ s fd m h. E.mod_absent s.0 fd m h;
  close_fd = λ s fd. (E.close_fd s.0 fd, without s.1 fd);
  closed = λ s fd. E.closed s.0 fd;
  close_others = λ s fd other ne. E.close_others s.0 fd other ne;
}

-- The next descriptor; `EMFILE` is 24 on Linux.
abbrev pub next_fd : List ℕ → ℕ
next_fd files = length files + 3

abbrev pub socket_of : List ℕ → Handle
socket_of files = if elem files (next_fd files) then refused 24 else opened (next_fd files)

abbrev pub files_after : List ℕ → List ℕ
files_after files = if elem files (next_fd files) then files else next_fd files ∷ files

pub socket_of-pos : (files : List ℕ) (n : ℕ) → socket_of files ≡ refused n → 0 < n
socket_of-pos files n h = ground arith

pub socket_of-new :
    (files : List ℕ) (fd : ℕ)
    → socket_of files ≡ opened fd
    → (elem files fd ≡ false) × ((q : ℕ) → elem (files_after files) q ≡ elem files q || q == fd)
socket_of-new files fd h = (ground arith, λ q. ground arith)

pub socket_of-refused :
    (files : List ℕ) (n q : ℕ)
    → socket_of files ≡ refused n
    → elem (files_after files) q ≡ elem files q
socket_of-refused files n q h = ground arith

-- `connect` gives `connecting`; the other calls succeed.
abbrev pub answer_of : Option ℕ → Call → Option ℕ
answer_of connecting connect_addr = connecting
answer_of connecting other = none

-- `EINPROGRESS` is 115 on Linux.
abbrev pub files : (E : Epoll) → Option ℕ → Sockets (with_files E)
files E connecting = record {
  is_open = λ s q. elem s.1 q;
  socket = λ s. (socket_of s.1, (s.0, files_after s.1));
  call = λ s c fd. (answer_of connecting c, s);
  einprogress = 115;
  errno_pos = λ s n h. socket_of-pos s.1 n h;
  socket_new = λ s fd h. socket_of-new s.1 fd h;
  socket_refused = λ s n q h. socket_of-refused s.1 n q h;
  call_open = λ s c fd q. refl;
  ctl_open = λ s op fd q m. refl;
  close_open = λ s fd q. elem-without s.1 fd q;
}
