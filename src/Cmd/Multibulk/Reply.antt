-- ===== src/Cmd/Multibulk/Reply.antt =====
-- `MultibulkParser::HandleResponse` of cmd.cpp: which replies it passes on byte for byte.
use redisproxy.Base.{
  ℕ, ◌+◌, ◌^◌, ◌<◌, ◌≡◌, ◌∙◌, ap, sym, refl, true, some, Bytes, [], ◌∷◌, ◌++◌, append_assoc,
  append-nil, length, length-append, arith, ◌==◌,
}
use redisproxy.Base.Int.{ℤ, pos, ◌==ℤ◌, ltb_ℤ}
use redisproxy.Error.{ok}
use redisproxy.Reader.{Reader, read, current}
use redisproxy.Reader.Laws.{At, At-advance, advance, read-At}
use redisproxy.Cmd.{Cmd, header, crlf}
use redisproxy.Cmd.Multibulk.{
  Multi, initial, next_bulk, bulk_size, Response, response_body, response_round, response_loop,
  handle_response,
}
use redisproxy.Cmd.Multibulk.Header.{read_int32-At, current-header}
use redisproxy.Cmd.Multibulk.RoundTrip.{bulk, bulks, text, bulk_size-At}

-- No argument is empty, and each is short enough for an `int32_t` length.
abbrev pub Filled : Cmd → Type 0
Filled [] = Unit
Filled (a ∷ argv) = (0 < length a) × (length a + 2 < 2 ^ 31) × Filled argv

-- The body of a bulk that is there is passed on.
pub response_body-At :
    (m : Multi) (pbuf : Bytes) (br : Reader) (a post : Bytes)
    → length a + 2 < 2 ^ 31
    → m.bulk_len ≡ pos (length a)
    → At br ((a ++ crlf) ++ post)
    → response_body m pbuf br
      ≡ (true, (ok, next_bulk m, pbuf ++ (a ++ crlf), advance br (length (a ++ crlf))))
unfolding response_body
response_body-At m pbuf br a post small e h =
    let l = length-append a crlf in
    let r : read br pbuf (bulk_size m)
        ≡ (ok, pbuf ++ (a ++ crlf), advance br (length (a ++ crlf))) =
      ap (read br pbuf) (bulk_size-At m (length a) small e ∙ sym l)
      ∙ read-At br pbuf (a ++ crlf) post h (omega (arith, l)) in
    rw r

pub response_round-At :
    (m : Multi) (pbuf : Bytes) (br : Reader) (a post : Bytes)
    → 0 < length a
    → length a + 2 < 2 ^ 31
    → m.bulk_len ≡ pos 0
    → At br (bulk a ++ post)
    → response_round m pbuf br
      ≡ (true, (ok, next_bulk m, pbuf ++ bulk a, advance br (length (bulk a))))
unfolding response_round
response_round-At m pbuf br a post pos_a small e h =
    let head = header b'$' (length a) in
    let br1 = advance br (length head) in
    let h0 : At br (head ++ ((a ++ crlf) ++ post)) = h ∙ append_assoc head (a ++ crlf) post in
    let r0 =
      read_int32-At br b'$' (length a) ((a ++ crlf) ++ post) m.bulk_len (some pbuf) (omega arith)
        (omega arith) h0 in
    let h1 = At-advance br head ((a ++ crlf) ++ post) h0 in
    let m1 : Multi = record m { bulk_len = pos (length a) } in
    let r1 = response_body-At m1 (pbuf ++ head) br1 a post small refl h1 in
    let z : (m.bulk_len ==ℤ pos 0) ≡ true = rw e refl in
    let t : ltb_ℤ (pos 0) (pos (length a)) ≡ true = ground arith in
    rw (z, r0, t, r1)
      (λ i. (
        true,
        (ok, next_bulk m, append_assoc pbuf head (a ++ crlf) i, record br { offset = end i }),
      ))
  where
    end :
        br.offset + length (header b'$' (length a)) + length (a ++ crlf)
        ≡ br.offset + length (bulk a)
    end = omega (arith, length-append (header b'$' (length a)) (a ++ crlf))

-- A successful outcome by its parts.
abbrev landed : Multi → Reader → ℤ → ℕ → Bytes → ℕ → Response
landed m br bulk_len index pbuf offset = (
  ok,
  record m { multibulk_index = index; bulk_len = bulk_len },
  pbuf,
  record br { offset = offset },
)

landed_path :
    (m : Multi) (br : Reader) {z z' : ℤ} {i i' : ℕ} {c c' : Bytes} {o o' : ℕ}
    → z ≡ z'
    → i ≡ i'
    → c ≡ c'
    → o ≡ o'
    → landed m br z i c o ≡ landed m br z' i' c' o'
landed_path m br p q r s = λ k. landed m br (p k) (q k) (r k) (s k)

response_loop-At :
    (argv : Cmd) (m : Multi) (pbuf : Bytes) (br : Reader) (post : Bytes)
    → Filled argv
    → m.bulk_len ≡ pos 0
    → At br (bulks argv ++ post)
    → response_loop (length argv) m pbuf br ≡ (
      ok,
      record m { multibulk_index = m.multibulk_index + length argv; bulk_len = pos 0 },
      pbuf ++ bulks argv,
      advance br (length (bulks argv)),
    )
unfolding response_loop
response_loop-At [] m pbuf br post s e h =
    landed_path m br e (omega arith) (sym (append-nil pbuf)) (omega arith)
response_loop-At (a ∷ argv) m pbuf br post s e h =
    let h0 : At br (bulk a ++ (bulks argv ++ post)) = h ∙ append_assoc (bulk a) (bulks argv) post in
    let r = response_round-At m pbuf br a (bulks argv ++ post) s.0 s.1 e h0 in
    let ih =
      response_loop-At argv (next_bulk m) (pbuf ++ bulk a) (advance br (length (bulk a))) post s.2
        refl (At-advance br (bulk a) (bulks argv ++ post) h0) in
    rw r (
      ih
      ∙ landed_path m br refl (omega arith) (append_assoc pbuf (bulk a) (bulks argv))
          (omega (arith, length-append (bulk a) (bulks argv))))

-- An array of bulks none of which is empty is passed on byte for byte, and nothing behind it is.
pub handle_response-text :
    (argv : Cmd) (pbuf post : Bytes)
    → length argv < 2 ^ 31
    → Filled argv
    → handle_response initial pbuf (record { buffer = text argv ++ post; offset = 0 }) ≡ (
      ok,
      record { multibulk_len = pos (length argv); multibulk_index = length argv; bulk_len = pos 0 },
      pbuf ++ text argv,
      record { buffer = text argv ++ post; offset = length (text argv) },
    )
unfolding handle_response
handle_response-text argv pbuf post few filled =
    let n = length argv in
    let head = header b'*' n in
    let br : Reader = record { buffer = (head ++ bulks argv) ++ post; offset = 0 } in
    let h : At br (head ++ (bulks argv ++ post)) = append_assoc head (bulks argv) post in
    let c : (current br == b'*') ≡ true =
      rw (current-header br b'*' n (bulks argv ++ post) h) refl in
    let r = read_int32-At br b'*' n (bulks argv ++ post) (pos 0) (some pbuf) (omega arith) few h in
    let m : Multi = record initial { multibulk_len = pos n } in
    let loop =
      response_loop-At argv m (pbuf ++ head) (advance br (length head)) post filled refl
        (At-advance br head (bulks argv ++ post) h) in
    rw (c, r)
      (ap (λ k. response_loop k m (pbuf ++ head) (advance br (length head))) (omega arith)
        ∙ loop
        ∙ landed_path m br refl (omega arith) (append_assoc pbuf head (bulks argv))
            (omega (arith, length-append head (bulks argv))))
