-- ===== src/Upstream/Auth.antt =====
-- upstream.cpp: requests wait until the server has accepted the password.
use redisproxy.Base.{
  ℕ, suc, ◌+◌, ◌≡◌, ◌∙◌, ap, sym, refl, Bool, true, false, Option, none, some, List, [], ◌∷◌, ◌++◌,
  Bytes, length, append-nil, arith, ◌==◌, if◌then◌else◌,
}
use redisproxy.Error.{Error, ok, try_again}
use redisproxy.Mem.{Ptr}
use redisproxy.Recycle
use redisproxy.Recycle.{Recycle}
use redisproxy.Recycle.Valid.{IsValid}
use redisproxy.Recycle.Fifo.{contents}
use redisproxy.Cmd.{Cmd}
use redisproxy.Cmd.Parser.{Parser}
use redisproxy.Cmd.Parser.Response.{Reply, reply_text, IsReply, parse_response-PassesOn}
use redisproxy.Upstream.{
  Env, Upstream, Pair, Target, auth_reader, no_pair, answer, deliver, identity_of, read_round,
  read_loop, make_room, on_server_read, auth_on_server_write, is_acceptable, pool_push_request,
  push_request,
}
use redisproxy.Upstream.Route.{
  ready, pop_front, reply_text_pos, read_round_parsed, reply_round_popped,
}

-- The reply is the status line of a success.
abbrev pub accepts : Bytes → Bool
accepts [] = false
accepts (x ∷ xs) = x == b'+'

-- The pair that `Init` puts into the queue.
abbrev pub auth_pair : {R : Type 0} → Pair R
auth_pair = record { identity = 0; target = auth_reader }

-- The upstream behind the reply to its own `auth` command.
abbrev pub authorized : {R : Type 0} → Upstream R → Bool → Recycle (Pair R) → Upstream R
authorized u b q = record (ready u [] q) { auth = b; auth_cmd = none }

module _ {R S : Type 0} (env : Env R S) where
  -- Without cluster mode and before the server has accepted the password, every request is refused
  -- with `TryAgain`, and nothing has changed.
  pool_push_request-shut :
      (cmd : Cmd) (target : Target R) (u : Upstream R) (s : S) (p : Ptr) (b : Bool)
      → u.server_conn ≡ some p
      → env.is_connected p s ≡ some b
      → u.auth ≡ false
      → pool_push_request env false cmd target u s ≡ some (try_again, u, s)
  unfolding pool_push_request is_acceptable
  pool_push_request-shut cmd target u s p true c on a =
      simp (c, on, a, pool_push_request, is_acceptable) refl
  pool_push_request-shut cmd target u s p false c on a =
      simp (c, on, pool_push_request, is_acceptable) refl

  pool_push_request-open :
      (cmd : Cmd) (target : Target R) (u : Upstream R) (s : S) (p : Ptr)
      → u.server_conn ≡ some p
      → env.is_connected p s ≡ some true
      → u.auth ≡ true
      → pool_push_request env false cmd target u s ≡ push_request env cmd target u s
  unfolding pool_push_request is_acceptable
  pool_push_request-open cmd target u s p c on a =
      simp (c, on, a, pool_push_request, is_acceptable) refl

  passed :
      (cmd : Cmd) (target : Target R) (u : Upstream R) (s : S) (p : Ptr)
      → u.server_conn ≡ some p
      → env.is_connected p s ≡ some true
      → (b : Bool) → u.auth ≡ b
      → pool_push_request env false cmd target u s
        ≡ (if b then push_request env cmd target u s else some (try_again, u, s))
  passed cmd target u s p c on true a = pool_push_request-open cmd target u s p c on a
  passed cmd target u s p c on false a = pool_push_request-shut cmd target u s p true c on a

  make_room_keeps :
      (min_size : ℕ) (grown : Option ℕ) (u : Upstream R)
      → ((make_room env min_size grown u).1.server_conn ≡ u.server_conn)
        × ((make_room env min_size grown u).1.auth ≡ u.auth)
        × ((make_room env min_size grown u).1.auth_cmd ≡ u.auth_cmd)
  unfolding make_room
  make_room_keeps min_size grown u = ground arith

  answer_auth :
      (bytes : Bytes) (u : Upstream R) (s : S) (cmd : Cmd)
      → u.auth_cmd ≡ some cmd
      → answer env auth_pair bytes u s
        ≡ some (record u { auth = accepts bytes; auth_cmd = none }, s)
  unfolding answer identity_of deliver auth_on_server_write
  answer_auth [] u s cmd e = simp (e, answer, identity_of) refl
  answer_auth (x ∷ bytes) u s cmd e = simp (e, answer, identity_of) refl

  read_round-auth :
      (u : Upstream R) (q : Recycle (Pair R)) (s : S) (rest : List (Pair R)) (r : Reply) (cmd : Cmd)
      → IsValid q
      → contents no_pair q ≡ auth_pair ∷ rest
      → IsReply r
      → u.auth_cmd ≡ some cmd
      → read_round env (ready u (reply_text r) q) s
        ≡ some ((true, ok), authorized u (accepts (reply_text r)) (Recycle.pop q no_pair).2, s)
  read_round-auth u q s rest r cmd v e h a =
      let (p, parse, back) = parse_response-PassesOn r [] h in
      let (x, _) = pop_front q _ rest v e in
      let u₁ = ready u (reply_text r ++ []) q in
      let u₂ : Upstream R = record u₁ { parser = p; resp_buffer = reply_text r } in
      let u₃ : Upstream R = record u₂ { cmd_queue = (Recycle.pop q no_pair).2 } in
      ap (λ t. read_round env (ready u t q) s) (sym (append-nil (reply_text r)))
      ∙ read_round_parsed env u₁ s p (reply_text r) parse
      ∙ reply_round_popped env u₂ s _ _ x
      ∙ rw (answer_auth (reply_text r) u₃ s cmd a) (
          ap
            (λ (p' : Parser). some (
              (true, ok),
              record (authorized u (accepts (reply_text r)) (Recycle.pop q no_pair).2) {
                parser = p';
              },
              s,
            ))
            back)

  -- While the `auth` command waits for its reply, requests are refused with `TryAgain`. When the reply
  -- arrives, the command is deleted; from then on requests are passed to `PushRequest` if the reply
  -- starts with a plus sign, and still refused if it does not.
  pub on_server_read-auth :
      (u : Upstream R) (q : Recycle (Pair R)) (s : S) (rest : List (Pair R)) (r : Reply) (cmd : Cmd)
      (p : Ptr) (min_size : ℕ) (grown : Option ℕ)
      → IsValid q
      → contents no_pair q ≡ auth_pair ∷ rest
      → IsReply r
      → u.auth_cmd ≡ some cmd
      → u.auth ≡ false
      → u.server_conn ≡ some p
      → env.is_connected p s ≡ some true
      → (err : Error) × (u' : Upstream R) × (on_server_read env min_size grown
            (ready u (reply_text r) q)
            s
          ≡ some (err, u', s))
        × (u'.auth_cmd ≡ none)
        × ((request : Cmd) (target : Target R)
            → (pool_push_request env false request target (ready u (reply_text r) q) s
                ≡ some (try_again, ready u (reply_text r) q, s))
              × (pool_push_request env false request target u' s ≡ (
                  if accepts (reply_text r)
                  then push_request env request target u' s
                  else some (try_again, u', s))))
  unfolding on_server_read read_loop
  on_server_read-auth u q s rest r cmd p min_size grown v e h a off c on =
      let b = accepts (reply_text r) in
      let last = authorized u b (Recycle.pop q no_pair).2 in
      let u' = (make_room env min_size grown last).1 in
      let (c', a', o') = make_room_keeps min_size grown last in
      let t : (length (reply_text r) == 0) ≡ false = ground (arith, reply_text_pos r h) in
      let two : length (reply_text r) + 2 ≡ suc (suc (length (reply_text r))) = omega arith in
      (
        (make_room env min_size grown last).0,
        u',
        rw (two, t, read_round-auth u q s rest r cmd v e h a, on_server_read) refl,
        o',
        λ request target. (
          pool_push_request-shut request target (ready u (reply_text r) q) s p true c on off,
          passed request target u' s p (c' ∙ c) on b a',
        ),
      )
