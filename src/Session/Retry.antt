-- ===== src/Session/Retry.antt =====
-- `Session::OnClientRead` of session.cpp where a request was held, or arrives in pieces.
use redisproxy.Base.{
  ℕ, suc, ◌+◌, ◌^◌, ◌<◌, ◌≡◌, refl, false, Option, none, some, [], ◌∷◌, ◌++◌, Bytes, length,
  length-append, arith, ◌==◌, Option-cases, inl, inr,
}
use redisproxy.Error.{ok, out_of_bound, to_text}
use redisproxy.Mem.{Ptr}
use redisproxy.Cmd
use redisproxy.Cmd.{Cmd, header}
use redisproxy.Cmd.Multibulk.Header.{header_pos}
use redisproxy.Cmd.Multibulk.RoundTrip.{Short, bulks}
use redisproxy.Cmd.Parser
use redisproxy.Cmd.Parser.{Parser, parse_request}
use redisproxy.Cmd.Parser.Request.{spent, parse_request-spent, parse_request-boundary}
use redisproxy.Session.{
  Env, Session, net_flag_close, submit, request_round, read_round, read_loop, finish,
  on_client_read,
}
use redisproxy.Session.Serve.{ready, holding, read_round-parsed}

module _ {S : Type 0} (env : Env S) (conn : Ptr) where
  -- A request that was held is submitted again when the client is read the next time. If it is taken
  -- then, and there is input behind it, the parser still stands behind the request, so that an
  -- empty command is submitted next, before the input is read; the rest is as if the input had just come.
  pub on_client_read-retry :
      (c : Cmd) (a : Bytes) (x : ℕ) (input : Bytes) (sess : Session) (s s₁ s₂ : S) (min_size : ℕ)
      (grown : Option ℕ)
      → env.push_request (a ∷ c) s ≡ some (ok, s₁)
      → env.push_request [] s₁ ≡ some (ok, s₂)
      → on_client_read env min_size grown conn (holding sess (a ∷ c) (x ∷ input)) s
        ≡ finish env min_size grown
            (read_loop env (length (x ∷ input) + 1) conn (ready sess (x ∷ input)) s₂)
  unfolding on_client_read submit read_loop request_round Parser.reset Cmd.is_empty
  on_client_read-retry c a x input sess s s₁ s₂ min_size grown e₁ e₂ =
      let two : length (x ∷ input) + 2 ≡ suc (length (x ∷ input) + 1) = omega arith in
      let t₁ : (suc (length c) == 0) ≡ false = ground arith in
      let t₂ : (suc (length input) == 0) ≡ false = ground arith in
      let p = spent (suc (length c)) (x ∷ input) in
      let held : Session = record sess { parser = p; current_cmd = [] } in
      let r = read_round-parsed env conn held s₁ p [] (parse_request-spent (length c) x input) in
      rw (e₁, two, on_client_read, t₁, t₂, r, e₂) refl

  -- A multibulk request whose input ends behind its first line or behind one of its complete bulks, with
  -- more announced: the session takes this for an error, writes it to the client, and asks for the
  -- connection to be closed.
  pub on_client_read-boundary :
      (xs : Cmd) (j : ℕ) (sess : Session) (s : S) (min_size : ℕ) (grown : Option ℕ)
      → length xs + suc j < 2 ^ 31
      → Short xs
      → (sess' : Session) × (on_client_read env min_size grown conn
            (ready sess (header b'*' (length xs + suc j) ++ bulks xs))
            s
          ≡ elim (env.write_to_buffer conn (to_text out_of_bound) net_flag_close s) [
            | none ↦ none
            | some (_, s') ↦ some (out_of_bound, sess', s')
          ])
  unfolding on_client_read read_loop read_round finish
  on_client_read-boundary xs j sess s min_size grown few short =
      let (p, r) = parse_request-boundary xs j few short in
      let input = header b'*' (length xs + suc j) ++ bulks xs in
      let t : (length input == 0) ≡ false = ground (
        arith,
        length-append (header b'*' (length xs + suc j)) (bulks xs),
        header_pos b'*' (length xs + suc j),
      ) in
      let two : length input + 2 ≡ suc (length input + 1) = omega arith in
      (
        record sess { parser = p; current_cmd = xs },
        rw (two, t, r, on_client_read)
            (elim (Option-cases
              (env.write_to_buffer conn (to_text out_of_bound) net_flag_close s)) [
                | inl z ↦ rw z refl
                | inr (_, z) ↦ rw z refl
              ]),
      )
