-- ===== src/Cmd/Parser/Request.antt =====
-- `CmdParser::ParseRequest` of cmd.cpp: whole requests, cut requests, and what is kept between calls.
use redisproxy.Base.{
  ℕ, suc, ◌+◌, ◌-◌, ◌^◌, ◌<◌, ◌≡◌, ◌≢◌, ◌∙◌, ap, sym, refl, true, false, none, some, Bytes, [], ◌∷◌,
  ◌++◌, append_assoc, append-nil, length, length-append, drop-append, arith, ◌==◌,
}
use redisproxy.Base.Int.{pos, ◌==ℤ◌}
use redisproxy.Error.{Error, ok, out_of_bound}
use redisproxy.Buffer.View
use redisproxy.Reader.{Reader, eof, current, read_until}
use redisproxy.Reader.Laws.{At, At-advance, advance, eof-At, eof_all, length-At}
use redisproxy.Cmd.{Cmd, header, append_arg, format_resp2}
use redisproxy.Cmd.Multibulk.{
  Multi, initial, next_bulk, read_int32, request_loop, request_round, request_bulk_len,
  handle_request,
}
use redisproxy.Cmd.Multibulk.Header.{current-header, header_pos, read_int32-At}
use redisproxy.Cmd.Multibulk.RoundTrip.{
  bulk, bulks, text, Short, request_round-At, format_resp2-text, Printable,
  handle_request-format_resp2,
}
use redisproxy.Cmd.Parser.{
  Parser, fresh, type_multibulk, reader, settle, dispatch_request, parse_request,
}

pub settle_moved :
    (p : Parser) (a b : Bytes) (n : ℕ)
    → p.input ≡ a ++ b
    → p.offset ≢ n
    → n ≡ length a
    → settle p (record { buffer = a ++ b; offset = n }) ≡ record p { input = b; offset = 0 }
unfolding settle View.offset
settle_moved p a b n e ne l =
    let t : (p.offset == n) ≡ false = ground (arith, ne) in rw (t, e, l, drop-append a b)

-- The parser after a complete request of `n` arguments, before `Reset`.
abbrev pub spent : ℕ → Bytes → Parser
spent n input = record {
  parse_type = type_multibulk;
  multi = record { multibulk_len = pos n; multibulk_index = n; bulk_len = pos 0 };
  input = input;
  offset = 0;
}

-- A request that `FormatRESP2` prints, followed by any bytes, is parsed in one call to the same
-- command, and exactly the bytes behind it are left in the input buffer.
pub parse_request-format_resp2 :
    (argv : Cmd) (post : Bytes)
    → Printable argv
    → parse_request (record fresh { input = (format_resp2 argv []).1 ++ post }) []
      ≡ some (ok, spent (length argv) post, argv)
unfolding parse_request dispatch_request
parse_request-format_resp2 argv post pr =
    let t = (format_resp2 argv []).1 in
    let p : Parser = record fresh { input = t ++ post } in
    let e : t ≡ text argv = ap (λ (r : Error × Bytes). r.1) (format_resp2-text argv []) in
    let n = length argv in
    let h : At (reader p) (header b'*' n ++ (bulks argv ++ post)) =
      ap (λ w. w ++ post) e ∙ append_assoc (header b'*' n) (bulks argv) post in
    let l = length-append (header b'*' n) (bulks argv ++ post) in
    let z : eof (reader p) ≡ false = eof-At (reader p) _ h (omega (arith, l, header_pos b'*' n)) in
    let c : (current (reader p) == b'*') ≡ true =
      rw (current-header (reader p) b'*' n (bulks argv ++ post) h) refl in
    let ne : 0 ≢ length t =
      omega (arith, ap length e, length-append (header b'*' n) (bulks argv), header_pos b'*' n) in
    rw (z, c, handle_request-format_resp2 argv post pr)
      (ap (λ q. some (ok, q, argv))
        (settle_moved (record (spent n []) { input = t ++ post }) t post (length t) refl ne refl))

-- After a complete request and without `Reset`, `ParseRequest` reports success again, with no
-- argument, and consumes nothing, whatever the input holds.
pub parse_request-spent :
    (n x : ℕ) (s : Bytes)
    → parse_request (spent (suc n) (x ∷ s)) [] ≡ some (ok, spent (suc n) (x ∷ s), [])
unfolding parse_request dispatch_request handle_request request_loop settle
parse_request-spent n x s =
    let z : eof (reader (spent (suc n) (x ∷ s))) ≡ false =
      eof-At (reader (spent (suc n) (x ∷ s))) (x ∷ s) refl (omega arith) in
    let t : (suc n == 0) ≡ false = ground arith in
    let r : suc n - suc n ≡ 0 = omega arith in rw (z, t, r) refl

round-eof :
    (m : Multi) (cmd : Cmd) (br : Reader)
    → m.bulk_len ≡ pos 0
    → eof br ≡ true
    → request_round m cmd br ≡ (false, (out_of_bound, m, cmd, br))
unfolding request_round request_bulk_len read_int32 read_until
round-eof m cmd br e z = let t : (m.bulk_len ==ℤ pos 0) ≡ true = rw e refl in rw (t, z) refl

-- A loop that has read all bulks that are there, and expects more.
loop-boundary :
    (xs : Cmd) (j k : ℕ) (m : Multi) (cmd : Cmd) (br : Reader)
    → k ≡ length xs + suc j
    → Short xs
    → m.bulk_len ≡ pos 0
    → At br (bulks xs)
    → (m' : Multi) × (br' : Reader) × (request_loop k m cmd br ≡ (out_of_bound, m', cmd ++ xs, br'))
unfolding request_loop append_arg
loop-boundary [] j k m cmd br ek s e h =
    let k' : k ≡ suc j = omega arith in
    (
      m,
      br,
      rw (k', round-eof m cmd br e (eof_all br (omega (arith, length-At br [] h))))
          (ap (λ c. (out_of_bound, m, c, br)) (sym (append-nil cmd))),
    )
loop-boundary (a ∷ xs) j k m cmd br ek s e h =
    let k' : k ≡ suc (length xs + suc j) = omega arith in
    let r = request_round-At m cmd br a (bulks xs) s.0 e h in
    let (m', br', ih) =
      loop-boundary xs j (length xs + suc j) (next_bulk m) (append_arg cmd a)
        (advance br (length (bulk a))) refl s.1 refl (At-advance br (bulk a) (bulks xs) h) in
    (m', br', rw (k', r) (ih ∙ ap (λ c. (out_of_bound, m', c, br')) (append_assoc cmd (a ∷ []) xs)))

-- Where the input ends behind the first line or behind a complete bulk, and the first line announced
-- more bulks, the result is `OutOfBound` and not `TryAgain`: what is still to come is taken for an
-- error. The bulks that are there have been read.
pub parse_request-boundary :
    (xs : Cmd) (j : ℕ)
    → length xs + suc j < 2 ^ 31
    → Short xs
    → (p : Parser) × (parse_request
          (record fresh { input = header b'*' (length xs + suc j) ++ bulks xs })
          []
        ≡ some (out_of_bound, p, xs))
unfolding parse_request dispatch_request handle_request
parse_request-boundary xs j few short =
    let n = length xs + suc j in
    let head = header b'*' n in
    let p : Parser = record fresh { input = head ++ bulks xs } in
    let br = reader p in
    let m : Multi = record initial { multibulk_len = pos n } in
    let z : eof br ≡ false =
      eof-At br (head ++ bulks xs) refl
        (omega (arith, length-append head (bulks xs), header_pos b'*' n)) in
    let c : (current br == b'*') ≡ true = rw (current-header br b'*' n (bulks xs) refl) refl in
    let r = read_int32-At br b'*' n (bulks xs) (pos 0) none (omega arith) few refl in
    let (m', br', loop) =
      loop-boundary xs j (n - 0) m [] (advance br (length head)) (omega arith) short refl
        (At-advance br head (bulks xs) refl) in
    (settle (record p { parse_type = type_multibulk; multi = m' }) br', rw (z, c, r, loop) refl)
