-- ===== src/Session/Tests.antt =====
-- The session of session.cpp on small inputs.
use redisproxy.Base.{◌≡◌, refl, true, none, some, List, [], ◌∷◌, ◌++◌, Bytes, arith}
use redisproxy.Error.{ok, out_of_bound, to_text}
use redisproxy.Cmd.{Cmd, header}
use redisproxy.Cmd.Multibulk.RoundTrip.{bulks}
use redisproxy.Session.{Env, Session, create, read_loop, finish, net_flag_close, on_client_read}
use redisproxy.Session.Serve.{stream, ready, holding, serve, ArePrintable, on_client_read-serves}
use redisproxy.Session.Retry.{on_client_read-retry, on_client_read-boundary}

-- What the pool was given, and what was written to the client.
abbrev Log : Type 0
Log = List Cmd × Bytes

abbrev world : Env Log
world = record {
  push_request = λ c s. some (ok, (s.0 ++ c ∷ [], s.1));
  is_connected = λ p s. some true;
  set_readable = λ p flag s. some (ok, s);
  write_to_buffer = λ p bytes flags s. some (ok, (s.0, s.1 ++ bytes));
  on_read_event = λ p s. some (ok, s);
}

abbrev ping : Cmd
ping = (b'P' ∷ b'I' ∷ b'N' ∷ b'G' ∷ []) ∷ []

abbrev get_k : Cmd
get_k = (b'G' ∷ b'E' ∷ b'T' ∷ []) ∷ (b'k' ∷ []) ∷ []

abbrev sess : Session
sess = record (create 3) { client_conn = some 1; room = 2000 }

both-ArePrintable : ArePrintable (ping ∷ get_k ∷ [])
both-ArePrintable = omega arith

on_client_read-serves_example :
    on_client_read world 1024 none 1 (ready sess (stream (ping ∷ get_k ∷ []))) ([], [])
    ≡ finish world 1024 none (serve world 1 (ping ∷ get_k ∷ []) sess ([], []))
on_client_read-serves_example =
    on_client_read-serves world 1 (ping ∷ get_k ∷ []) sess ([], []) 1024 none both-ArePrintable

served :
    serve world 1 (ping ∷ get_k ∷ []) sess ([], [])
    ≡ some (redisproxy.Session.stop, ready sess [], (ping ∷ get_k ∷ [], []))
unfolding serve
served = refl

on_client_read-retry_example :
    on_client_read world 1024 none 1 (holding sess ping (b'*' ∷ [])) ([], [])
    ≡ finish world 1024 none (read_loop world 2 1 (ready sess (b'*' ∷ [])) (ping ∷ [] ∷ [], []))
on_client_read-retry_example =
    on_client_read-retry world 1 [] (b'P' ∷ b'I' ∷ b'N' ∷ b'G' ∷ []) b'*' [] sess ([], [])
      (ping ∷ [], []) (ping ∷ [] ∷ [], []) 1024 none refl refl

on_client_read-boundary_example :
    (sess' : Session) × (on_client_read world 1024 none 1
        (ready sess (header b'*' 2 ++ bulks ((b'G' ∷ b'E' ∷ b'T' ∷ []) ∷ [])))
        ([], [])
      ≡ some (out_of_bound, sess', ([], to_text out_of_bound)))
on_client_read-boundary_example =
    on_client_read-boundary world 1 ((b'G' ∷ b'E' ∷ b'T' ∷ []) ∷ []) 0 sess ([], []) 1024 none
      (omega arith) (omega arith, tt)
