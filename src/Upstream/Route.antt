-- ===== src/Upstream/Route.antt =====
-- `Upstream::OnServerRead` of upstream.cpp: the k-th reply of the server goes to the k-th reader that
-- waits, and to nobody else.
use redisproxy.Base.{
  ℕ, zero, suc, ◌+◌, ◌<◌, ◌≤◌, ◌≡◌, ◌∙◌, ap, sym, refl, true, false, Option, none, some, List, [],
  ◌∷◌, ◌++◌, Bytes, length, length-append, arith, ◌==◌, if◌then◌else◌, Bool-cases, Option-cases,
  inl, inr,
}
use redisproxy.Cmd.{header, crlf}
use redisproxy.Cmd.Multibulk.Header.{header_pos}
use redisproxy.Cmd.Multibulk.RoundTrip.{bulks}
use redisproxy.Error.{Error, ok}
use redisproxy.Recycle
use redisproxy.Recycle.{Recycle}
use redisproxy.Recycle.Valid.{IsValid, pop-IsValid}
use redisproxy.Recycle.Fifo.{contents, fifo_pop, pop_refines}
use redisproxy.Cmd.Parser
use redisproxy.Cmd.Parser.{Parser, parse_response}
use redisproxy.Cmd.Parser.Response.{
  Reply, line, one, array, reply_text, IsReply, parse_response-PassesOn,
}
use redisproxy.Upstream.{
  Env, Upstream, Pair, reader, no_pair, identity_of, deliver, answer, reply_round, read_round,
  read_loop, make_room, on_server_read,
}

-- A reader that waits, and the identity that it had when it asked.
abbrev pub Waiting : Type 0 → Type 0
Waiting R = R × ℕ

abbrev pub pairs : {R : Type 0} → List (Waiting R) → List (Pair R)
pairs [] = []
pairs ((r, id) ∷ qs) = record { identity = id; target = reader r } ∷ pairs qs

-- The replies of the server as it sends them.
abbrev pub stream : List Reply → Bytes
stream [] = []
stream (r ∷ rs) = reply_text r ++ stream rs

abbrev pub AreReplies : List Reply → Type 0
AreReplies [] = Unit {0}
AreReplies (r ∷ rs) = IsReply r × AreReplies rs

-- The ring behind `n` calls of `Pop`.
abbrev pub popped : {R : Type 0} → ℕ → Recycle (Pair R) → Recycle (Pair R)
popped zero q = q
popped (suc n) q = popped n (Recycle.pop q no_pair).2

pub pop_front :
    {R : Type 0} (q : Recycle (Pair R)) (x : Pair R) (xs : List (Pair R))
    → IsValid q
    → contents no_pair q ≡ x ∷ xs
    → (Recycle.pop q no_pair ≡ (ok, x, (Recycle.pop q no_pair).2))
      × (contents no_pair (Recycle.pop q no_pair).2 ≡ xs)
unfolding fifo_pop
pop_front {R} q x xs v e =
    let Popped : Type 0 = Error × Pair R × List (Pair R) in
    let r = pop_refines no_pair no_pair v ∙ ap (λ c. fifo_pop c no_pair) e in
    (
      (λ i.
          (ap (λ (t : Popped). t.0) r i, ap (λ (t : Popped). t.1) r i, (Recycle.pop q no_pair).2)),
      ap (λ (t : Popped). t.2) r,
    )

pub reply_text_pos : (r : Reply) → IsReply r → 0 < length (reply_text r)
reply_text_pos (line mark s) h = omega arith
reply_text_pos (one a) h =
    omega (arith, length-append (header b'$' (length a)) (a ++ crlf), header_pos b'$' (length a))
reply_text_pos (array argv) h =
    omega
      (arith, length-append (header b'*' (length argv)) (bulks argv), header_pos b'*' (length argv))

-- The upstream with an input to read, at the start of a reply.
abbrev pub ready : {R : Type 0} → Upstream R → Bytes → Recycle (Pair R) → Upstream R
ready u input q = record u {
  parser = record Parser.fresh { input = input };
  resp_buffer = [];
  cmd_queue = q;
}

module _ {R S : Type 0} (env : Env R S) where
  -- One reply to one reader: it is dropped if the reader has another identity by now.
  unfoldable pub handed : Waiting R → Bytes → S → Option S
  handed (r, id) bytes s = elim (env.identity r s) [
    | none ↦ none
    | some i ↦ if i == id then env.on_server_write r bytes s else some s
  ]

  -- The k-th reply to the k-th reader.
  unfoldable pub serve : List (Waiting R) → List Reply → S → Option S
  serve [] rs s = some s
  serve (q ∷ qs) [] s = some s
  serve (q ∷ qs) (r ∷ rs) s = elim (handed q (reply_text r) s) [
    | none ↦ none
    | some s' ↦ serve qs rs s'
  ]

  -- A reader of its own is handed the reply, or has it dropped; the upstream stays as it is.
  answer_reader :
      (w : Waiting R) (bytes : Bytes) (u : Upstream R) (s : S)
      → answer env (record { identity = w.1; target = reader w.0 }) bytes u s
        ≡ elim (handed w bytes s) [ none ↦ none | some s' ↦ some (u, s') ]
  unfolding answer identity_of deliver handed
  answer_reader (r, id) bytes u s = elim (Option-cases (env.identity r s)) [
    | inl e ↦ rw (e, answer) refl
    | inr (i, e) ↦ elim (Bool-cases (i == id)) [
      | inl y ↦ rw (e, answer, y) refl
      | inr n ↦ rw (e, answer, n) refl
    ]
  ]

  pub read_round_parsed :
      (u : Upstream R) (s : S) (p : Parser) (resp : Bytes)
      → parse_response u.parser u.resp_buffer ≡ (ok, p, resp)
      → read_round env u s ≡ reply_round env (record u { parser = p; resp_buffer = resp }) s
  unfolding read_round
  read_round_parsed u s p resp e = rw e refl

  pub reply_round_popped :
      (u : Upstream R) (s : S) (x : Pair R) (q : Recycle (Pair R))
      → Recycle.pop u.cmd_queue no_pair ≡ (ok, x, q)
      → reply_round env u s ≡ elim (answer env x u.resp_buffer (record u { cmd_queue = q }) s) [
        | none ↦ none
        | some (u', s') ↦
            some ((true, ok), record u' { parser = Parser.reset u'.parser; resp_buffer = [] }, s')
      ]
  unfolding reply_round
  reply_round_popped u s x q e = rw e refl

  read_round-reply :
      (u : Upstream R) (q : Recycle (Pair R)) (s : S) (w : Waiting R) (ws : List (Pair R))
      (r : Reply) (post : Bytes)
      → IsValid q
      → contents no_pair q ≡ record { identity = w.1; target = reader w.0 } ∷ ws
      → IsReply r
      → read_round env (ready u (reply_text r ++ post) q) s ≡ elim (handed w (reply_text r) s) [
        | none ↦ none
        | some s' ↦ some ((true, ok), ready u post (Recycle.pop q no_pair).2, s')
      ]
  read_round-reply u q s w ws r post v e h =
      let (p, parse, back) = parse_response-PassesOn r post h in
      let (x, _) = pop_front q _ ws v e in
      let u₁ = ready u (reply_text r ++ post) q in
      let u₂ : Upstream R = record u₁ { parser = p; resp_buffer = reply_text r } in
      let u₃ : Upstream R = record u₂ { cmd_queue = (Recycle.pop q no_pair).2 } in
      read_round_parsed u₁ s p (reply_text r) parse
      ∙ reply_round_popped u₂ s _ _ x
      ∙ rw (answer_reader w (reply_text r) u₃ s) (elim (Option-cases (handed w (reply_text r) s)) [
        | inl e ↦ rw e refl
        | inr (s', e) ↦ rw e (
            ap
              (λ (p' : Parser).
                some
                  ((true, ok), record (ready u post (Recycle.pop q no_pair).2) { parser = p' }, s'))
              back)
      ])

  -- What `OnServerRead` does on an input of whole replies, no more of them than there are readers: the
  -- upstream that is left, unless a reader was deleted.
  read_loop-stream :
      (rs : List Reply) (qs : List (Waiting R)) (rest : List (Pair R)) (fuel : ℕ) (u : Upstream R)
      (q : Recycle (Pair R)) (s : S)
      → length qs ≡ length rs
      → length rs < fuel
      → IsValid q
      → contents no_pair q ≡ pairs qs ++ rest
      → AreReplies rs
      → read_loop env fuel (ready u (stream rs) q) s ≡ elim (serve qs rs s) [
        | none ↦ none
        | some s' ↦ some (ok, ready u [] (popped (length rs) q), s')
      ]
  unfolding read_loop serve
  read_loop-stream rs qs rest zero u q s l f v e h = absurd (omega arith)
  read_loop-stream [] [] rest (suc fuel) u q s l f v e h = refl
  read_loop-stream [] (w ∷ qs) rest (suc fuel) u q s l f v e h = absurd (omega arith)
  read_loop-stream (r ∷ rs) [] rest (suc fuel) u q s l f v e h = absurd (omega arith)
  read_loop-stream (r ∷ rs) (w ∷ qs) rest (suc fuel) u q s l f v e (h, hs) =
      let (_, e') = pop_front q _ (pairs qs ++ rest) v e in
      let t : (length (reply_text r ++ stream rs) == 0) ≡ false =
        ground (arith, length-append (reply_text r) (stream rs), reply_text_pos r h) in
      rw (t, read_round-reply u q s w (pairs qs ++ rest) r (stream rs) v e h)
        (elim (Option-cases (handed w (reply_text r) s)) [
          | inl n ↦ rw n refl
          | inr (s', o) ↦ rw o (
              read_loop-stream rs qs rest fuel u (Recycle.pop q no_pair).2 s' (omega arith)
                (omega arith) (pop-IsValid no_pair v) e' hs)
        ])

  length-stream : (rs : List Reply) → AreReplies rs → length rs ≤ length (stream rs)
  length-stream [] h = omega arith
  length-stream (r ∷ rs) (h, hs) =
      omega
        (arith, length-append (reply_text r) (stream rs), reply_text_pos r h, length-stream rs hs)

  popped-IsValid : (n : ℕ) (q : Recycle (Pair R)) → IsValid q → IsValid (popped n q)
  popped-IsValid zero q v = v
  popped-IsValid (suc n) q v = popped-IsValid n _ (pop-IsValid no_pair v)

  contents-popped :
      (qs : List (Waiting R)) (rest : List (Pair R)) (q : Recycle (Pair R))
      → IsValid q
      → contents no_pair q ≡ pairs qs ++ rest
      → contents no_pair (popped (length qs) q) ≡ rest
  contents-popped [] rest q v e = e
  contents-popped (w ∷ qs) rest q v e =
      let (_, e') = pop_front q _ (pairs qs ++ rest) v e in
      contents-popped qs rest _ (pop-IsValid no_pair v) e'

  -- `OnServerRead` on replies of the shapes of `IsReply`, which are a line that starts with
  -- `+`, `-` or `:`, a bulk of at least a byte, and an array of such bulks, with sizes below 2
  -- ^ 31, when they are the whole input and as many readers wait before all others, with a
  -- parser that stands at the start of a reply: the k-th reply is given, byte for byte, to the
  -- k-th reader that waits, or is dropped if this reader has another identity than when it
  -- asked; the readers behind them still wait, in order; the input is used up; and the call
  -- returns what making room for the next read returns. The call is a fault only where one of
  -- these readers, or what it uses, was deleted.
  pub on_server_read-routes :
      (rs : List Reply) (qs : List (Waiting R)) (rest : List (Pair R)) (u : Upstream R)
      (q : Recycle (Pair R)) (s : S) (min_size : ℕ) (grown : Option ℕ)
      → length qs ≡ length rs
      → IsValid q
      → contents no_pair q ≡ pairs qs ++ rest
      → AreReplies rs
      → (q' : Recycle (Pair R)) × (on_server_read env min_size grown (ready u (stream rs) q) s
          ≡ elim (serve qs rs s) [
            | none ↦ none
            | some s' ↦ some (
              (make_room env min_size grown (ready u [] q')).0,
              (make_room env min_size grown (ready u [] q')).1,
              s',
            )
          ])
        × IsValid q'
        × (contents no_pair q' ≡ rest)
  unfolding on_server_read
  on_server_read-routes rs qs rest u q s min_size grown l v e h = (
    popped (length rs) q,
    rw
        (
          read_loop-stream rs qs rest (length (stream rs) + 2) u q s l
              (omega (arith, length-stream rs h)) v e h,
          on_server_read,
        )
        (elim (Option-cases (serve qs rs s)) [ inl n ↦ rw n refl | inr (s', o) ↦ rw o refl ]),
    popped-IsValid (length rs) q v,
    ap (λ n. contents no_pair (popped n q)) (sym l) ∙ contents-popped qs rest q v e,
  )
