-- ===== src/Upstream/Tests.antt =====
-- The upstream of upstream.cpp with two readers.
use redisproxy.Base.{
  ℕ, ◌<◌, ◌≡◌, refl, true, false, none, some, List, [], ◌∷◌, ◌++◌, Bytes, arith, inl, inr,
}
use redisproxy.Base.Memchr.{Lacks, memchr}
use redisproxy.Error.{Error, ok, try_again}
use redisproxy.Recycle.{Recycle}
use redisproxy.Recycle.Valid.{IsValid}
use redisproxy.Recycle.Fifo.{contents}
use redisproxy.Cmd.{Cmd}
use redisproxy.Cmd.Parser.Response.{Reply, line}
use redisproxy.Upstream.{
  Env, Upstream, Pair, Target, reader, no_pair, create, make_room, on_server_read, push_request,
  pool_push_request, identity_of,
}
use redisproxy.Upstream.Route.{
  Waiting, ready, stream, serve, handed, AreReplies, on_server_read-routes,
}
use redisproxy.Upstream.Auth.{auth_pair, on_server_read-auth}
use redisproxy.Upstream.Push.{Queues, push_request-Queues}

-- Who was given what.
abbrev Log : Type 0
Log = List (ℕ × Bytes)

-- The reader 9 has another identity than it had; the others have their numbers. 0 is the server.
abbrev world : Env ℕ Log
world = record {
  identity = λ r s. some r;
  on_server_write = λ r bytes s. some (s ++ (r, bytes) ∷ []);
  is_connected = λ p s. some true;
  write_to_buffer = λ p bytes s. some (ok, s ++ (0, bytes) ∷ []);
  on_read_event = λ p s. some (ok, s);
  on_closed_event = λ p s. some (ok, s);
  reconnect = λ p s. some (ok, s);
}

-- `"+OK\r\n"` and `":1\r\n"`
abbrev replies : List Reply
replies = line b'+' (b'O' ∷ b'K' ∷ b'\r' ∷ []) ∷ line b':' (b'1' ∷ b'\r' ∷ []) ∷ []

Lacks-ok : Lacks b'\n' (b'O' ∷ b'K' ∷ b'\r' ∷ [])
unfolding memchr
Lacks-ok = refl

Lacks-one : Lacks b'\n' (b'1' ∷ b'\r' ∷ [])
unfolding memchr
Lacks-one = refl

replies-AreReplies : AreReplies replies
replies-AreReplies = ((inr (inl refl), Lacks-ok), ((inr (inr refl), Lacks-one), tt))

abbrev waiting : List (Waiting ℕ)
waiting = (7, 7) ∷ (8, 8) ∷ []

abbrev queue : Recycle (Pair ℕ)
queue = record {
  holder =
      record { identity = 8; target = reader 8 }
      ∷ record { identity = 5; target = reader 5 }
      ∷ no_pair
      ∷ record { identity = 7; target = reader 7 }
      ∷ [];
  start = 3;
  end = 2;
}

queue-IsValid : IsValid queue
queue-IsValid = omega arith

abbrev idle : Upstream ℕ
idle = record (create {R = ℕ} 4) {
  server_conn = some 1;
  auth = true;
  room = 2000;
  cmd_queue = queue;
}

on_server_read-routes_example :
    (q' : Recycle (Pair ℕ)) × (on_server_read world 1024 none (ready idle (stream replies) queue) []
      ≡ elim (serve world waiting replies []) [
        | none ↦ none
        | some s' ↦ some (
          (make_room world 1024 none (ready idle [] q')).0,
          (make_room world 1024 none (ready idle [] q')).1,
          s',
        )
      ])
    × IsValid q'
    × (contents no_pair q' ≡ record { identity = 5; target = reader 5 } ∷ [])
on_server_read-routes_example =
    on_server_read-routes world replies waiting (record { identity = 5; target = reader 5 } ∷ [])
      idle queue [] 1024 none refl queue-IsValid refl replies-AreReplies

-- What the two readers are given.
served :
    serve world waiting replies []
    ≡ some
        ((7, b'+' ∷ b'O' ∷ b'K' ∷ b'\r' ∷ b'\n' ∷ []) ∷ (8, b':' ∷ b'1' ∷ b'\r' ∷ b'\n' ∷ []) ∷ [])
unfolding serve handed
served = refl

abbrev auth_queue : Recycle (Pair ℕ)
auth_queue = record { holder = auth_pair ∷ no_pair ∷ []; start = 0; end = 1 }

auth_queue-IsValid : IsValid auth_queue
auth_queue-IsValid = omega arith

abbrev asking : Upstream ℕ
asking = record idle { auth = false; auth_cmd = some [] }

on_server_read-auth_example :
    (err : Error) × (u' : Upstream ℕ) × (on_server_read world 1024 none
        (ready asking (b'+' ∷ b'O' ∷ b'K' ∷ b'\r' ∷ b'\n' ∷ []) auth_queue)
        []
      ≡ some (err, u', []))
    × (u'.auth_cmd ≡ none)
    × ((request : Cmd) (target : Target ℕ)
        → (pool_push_request world false request target
              (ready asking (b'+' ∷ b'O' ∷ b'K' ∷ b'\r' ∷ b'\n' ∷ []) auth_queue)
              []
            ≡ some
                (try_again, ready asking (b'+' ∷ b'O' ∷ b'K' ∷ b'\r' ∷ b'\n' ∷ []) auth_queue, []))
          × (pool_push_request world false request target u' []
              ≡ push_request world request target u' []))
on_server_read-auth_example =
    on_server_read-auth world asking auth_queue [] [] (line b'+' (b'O' ∷ b'K' ∷ b'\r' ∷ [])) [] 1
      1024 none auth_queue-IsValid refl (inr (inl refl), Lacks-ok) refl refl refl refl

abbrev ping : Cmd
ping = (b'P' ∷ b'I' ∷ b'N' ∷ b'G' ∷ []) ∷ []

push_request-Queues_example :
    (world.is_connected 1 [] ≡ some false
      → push_request world ping (reader 6) (ready idle [] auth_queue) []
        ≡ some (try_again, ready idle [] auth_queue, []))
    × (world.is_connected 1 [] ≡ some true
        → ◌≡◌ {A = ℕ} 1 1
        → push_request world ping (reader 6) (ready idle [] auth_queue) []
          ≡ some (try_again, ready idle [] auth_queue, []))
    × (world.is_connected 1 [] ≡ some true
        → 1 < 1
        → Queues world ping (reader 6) (ready idle [] auth_queue) [] 1 6)
unfolding identity_of
push_request-Queues_example =
    push_request-Queues world ping (reader 6) (ready idle [] auth_queue) [] 1 6 refl known
      auth_queue-IsValid
  where
    known : identity_of world (reader 6) (ready idle [] auth_queue) [] ≡ some 6
    known = refl
