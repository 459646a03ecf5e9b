-- ===== src/Session/Serve.antt =====
-- `Session::OnClientRead` of session.cpp: the requests of a client on their way to the pool.
use redisproxy.Base.{
  ℕ, zero, suc, ◌+◌, ◌<◌, ◌≤◌, ◌≡◌, ap, refl, false, Option, none, some, List, [], ◌∷◌, ◌++◌, Bytes,
  length, length-append, arith, ◌==◌, if◌then◌else◌, Bool-cases, Option-cases, inl, inr,
}
use redisproxy.Error.{Error, ok, try_again, is_none, equal}
use redisproxy.Mem.{Ptr}
use redisproxy.Cmd.{Cmd, header, format_resp2}
use redisproxy.Cmd.Multibulk.Header.{header_pos}
use redisproxy.Cmd.Multibulk.RoundTrip.{Printable, bulks, format_resp2-text}
use redisproxy.Cmd.Parser
use redisproxy.Cmd.Parser.{Parser, parse_request}
use redisproxy.Cmd.Parser.Request.{spent, parse_request-format_resp2}
use redisproxy.Session.{
  Env, Session, Flow, stop, returns, submit, request_round, read_round, read_loop, finish,
  on_client_read,
}

-- The requests of a client as it sends them.
abbrev pub stream : List Cmd → Bytes
stream [] = []
stream (c ∷ cs) = (format_resp2 c []).1 ++ stream cs

abbrev pub ArePrintable : List Cmd → Type 0
ArePrintable [] = Unit {0}
ArePrintable (c ∷ cs) = Printable c × ArePrintable cs

-- The session with an input to read, at the start of a request.
abbrev pub ready : Session → Bytes → Session
ready sess input = record sess { parser = record Parser.fresh { input = input }; current_cmd = [] }

-- The session that holds a request that was not taken, with an input behind it.
abbrev pub holding : Session → Cmd → Bytes → Session
holding sess c input = record sess { parser = spent (length c) input; current_cmd = c }

module _ {S : Type 0} (env : Env S) (conn : Ptr) where
  -- What is to happen to a list of requests: each is submitted, in order. The first that gets
  -- `TryAgain` is held, the client is not read any more, and the handler returns OK; another
  -- error is returned.
  unfoldable pub serve : List Cmd → Session → S → Option (Flow × Session × S)
  serve [] sess s = some (stop, ready sess [], s)
  serve (c ∷ cs) sess s = elim (env.push_request c s) [
    | none ↦ none
    | some (err, s₁) ↦
        if is_none err
        then serve cs sess s₁
        else if equal err try_again
        then elim (env.set_readable conn false s₁) [
          | none ↦ none
          | some (_, s₂) ↦ some (returns ok, holding sess c (stream cs), s₂)
        ]
        else some (returns err, holding sess c (stream cs), s₁)
  ]

  pub read_round-parsed :
      (sess : Session) (s : S) (p : Parser) (c : Cmd)
      → parse_request sess.parser sess.current_cmd ≡ some (ok, p, c)
      → read_round env conn sess s
        ≡ request_round env conn (record sess { parser = p; current_cmd = c }) s
  unfolding read_round
  read_round-parsed sess s p c e = rw (e, read_round) refl

  length-text : (c : Cmd) → 0 < length (format_resp2 c []).1
  length-text c = omega (
    arith,
    ap (λ (r : Error × Bytes). length r.1) (format_resp2-text c []),
    length-append (header b'*' (length c)) (bulks c),
    header_pos b'*' (length c),
  )

  -- Induction on the requests.
  read_loop-stream :
      (cs : List Cmd) (fuel : ℕ) (sess : Session) (s : S)
      → length cs < fuel
      → ArePrintable cs
      → read_loop env fuel conn (ready sess (stream cs)) s ≡ serve cs sess s
  unfolding read_loop serve request_round submit Parser.reset
  read_loop-stream cs zero sess s f h = absurd (omega arith)
  read_loop-stream [] (suc fuel) sess s f h = refl
  read_loop-stream (c ∷ cs) (suc fuel) sess s f (h, hs) =
      let t : (length ((format_resp2 c []).1 ++ stream cs) == 0) ≡ false =
        ground (arith, length-append (format_resp2 c []).1 (stream cs), length-text c) in
      let r =
        read_round-parsed (ready sess (stream (c ∷ cs))) s _ _
          (parse_request-format_resp2 c (stream cs) h) in
      rw (t, r)
        (elim (Option-cases (env.push_request c s)) [
          | inl e ↦ rw (e, serve) refl
          | inr ((err, s₁), e) ↦ elim (Bool-cases (is_none err)) [
            | inl y ↦ rw (e, serve, y) (read_loop-stream cs fuel sess s₁ (omega arith) hs)
            | inr n ↦ elim (Bool-cases (equal err try_again)) [
              | inl y ↦ elim (Option-cases (env.set_readable conn false s₁)) [
                | inl z ↦ rw (e, serve, n, y, z) refl
                | inr (_, z) ↦ rw (e, serve, n, y, z) refl
              ]
              | inr o ↦ rw (e, serve, n, o) refl
            ]
          ]
        ])

  length-stream : (cs : List Cmd) → length cs ≤ length (stream cs)
  length-stream [] = omega arith
  length-stream (c ∷ cs) =
      omega
        (arith, length-append (format_resp2 c []).1 (stream cs), length-text c, length-stream cs)

  -- `OnClientRead` on requests as `FormatRESP2` prints them, with sizes that fit an `int32_t`
  -- with their end (`Printable`), when they are the whole input, with nothing left from an
  -- earlier call: the requests are submitted to the pool in order, each once and as they were
  -- sent, up to the first that is not taken. If all are taken the input is used up, and the
  -- call ends by making room for the next read. If one gets `TryAgain` it is held with the
  -- input behind it, the client is not read any more, and the call returns OK; another error is
  -- returned.
  pub on_client_read-serves :
      (cs : List Cmd) (sess : Session) (s : S) (min_size : ℕ) (grown : Option ℕ)
      → ArePrintable cs
      → on_client_read env min_size grown conn (ready sess (stream cs)) s
        ≡ finish env min_size grown (serve cs sess s)
  unfolding on_client_read
  on_client_read-serves cs sess s min_size grown h =
      ap (finish env min_size grown)
        (read_loop-stream cs (length (stream cs) + 2) sess s (omega (arith, length-stream cs)) h)
