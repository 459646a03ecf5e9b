-- ===== src/Cmd/Parser/Response.antt =====
-- `CmdParser::ParseResponse` of cmd.cpp: the replies that it passes on, and one that it does not.
use redisproxy.Base.{
  ℕ, ◌+◌, ◌^◌, ◌<◌, ◌≡◌, ◌≢◌, ◌⊎◌, inl, inr, ◌∙◌, ap, refl, true, false, some, Bytes, [], ◌∷◌, ◌++◌,
  append_assoc, length, length-append, arith, ◌==◌, ◌||◌,
}
use redisproxy.Base.Int.{pos}
use redisproxy.Base.Memchr.{Lacks, Lacks-cons}
use redisproxy.Error.{ok, unknown}
use redisproxy.Reader.{Reader, eof, current}
use redisproxy.Reader.Laws.{At, advance, eof-At, current-At, read_until-At}
use redisproxy.Cmd.{Cmd, header, crlf}
use redisproxy.Cmd.Inline
use redisproxy.Cmd.Multibulk.{Multi, initial, response_loop, response_round, handle_response}
use redisproxy.Cmd.Multibulk.Header.{current-header, header_pos, read_int32-At}
use redisproxy.Cmd.Multibulk.RoundTrip.{bulk, bulks, text}
use redisproxy.Cmd.Multibulk.Reply.{Filled, response_round-At, handle_response-text}
use redisproxy.Cmd.Parser.{
  Parser, fresh, reset, type_inline, reader, settle, dispatch_response, parse_response,
}
use redisproxy.Cmd.Parser.Request.{spent, settle_moved}

-- The replies of a server that `ParseResponse` is made for: a status, error or number on a line,
-- a bulk, and an array of bulks.
pub data Reply : Type 0 where
  line : ℕ → Bytes → Reply
  one : Bytes → Reply
  array : Cmd → Reply

abbrev pub reply_text : Reply → Bytes
reply_text (line mark s) = (mark ∷ s) ++ b'\n' ∷ []
reply_text (one a) = bulk a
reply_text (array argv) = text argv

-- A line starts with one of three marks and has no further end of line. A bulk has at least a byte.
abbrev pub IsReply : Reply → Type 0
IsReply (line mark s) = ((mark ≡ b'-') ⊎ ((mark ≡ b'+') ⊎ (mark ≡ b':'))) × Lacks b'\n' s
IsReply (one a) = (0 < length a) × (length a + 2 < 2 ^ 31)
IsReply (array argv) = (length argv < 2 ^ 31) × Filled argv

-- The reply `t` in front of `post` is passed on as it stands, and `post` is left.
abbrev pub PassesOn : Bytes → Bytes → Type 0
PassesOn t post =
    (p : Parser) × (parse_response (record fresh { input = t ++ post }) [] ≡ (ok, p, t))
    × (reset p ≡ record fresh { input = post })

handle_response-bulk :
    (a post : Bytes)
    → 0 < length a
    → length a + 2 < 2 ^ 31
    → handle_response initial [] (record { buffer = bulk a ++ post; offset = 0 }) ≡ (
      ok,
      (spent 1 []).multi,
      bulk a,
      record { buffer = bulk a ++ post; offset = length (bulk a) },
    )
unfolding handle_response response_loop
handle_response-bulk a post pos_a small =
    let br : Reader = record { buffer = bulk a ++ post; offset = 0 } in
    let m : Multi = record initial { multibulk_len = pos 1 } in
    let h : At br (header b'$' (length a) ++ ((a ++ crlf) ++ post)) =
      append_assoc (header b'$' (length a)) (a ++ crlf) post in
    let c : (current br == b'*') ≡ false =
      rw (current-header br b'$' (length a) ((a ++ crlf) ++ post) h) refl in
    let r = response_round-At m [] br a post pos_a small refl refl in
    rw (c, r) (λ i. (ok, (spent 1 []).multi, bulk a, record br { offset = end i }))
  where
    end : 0 + length (bulk a) ≡ length (bulk a)
    end = omega arith

passes_multibulk :
    (t post : Bytes) (n mark k : ℕ) (s : Bytes)
    → (mark ≡ b'*') ⊎ (mark ≡ b'$')
    → t ++ post ≡ header mark k ++ s
    → 0 < length t
    → handle_response initial [] (record { buffer = t ++ post; offset = 0 })
      ≡ (ok, (spent n []).multi, t, record { buffer = t ++ post; offset = length t })
    → PassesOn t post
unfolding parse_response dispatch_response reset
passes_multibulk t post n mark k s m h pos_t r =
    let p : Parser = record fresh { input = t ++ post } in
    let c = current-header (reader p) mark k s h in
    let z : eof (reader p) ≡ false =
      eof-At (reader p) (t ++ post) refl (omega (arith, length-append t post)) in
    let y : ((current (reader p) == b'*') || (current (reader p) == b'$')) ≡ true =
      ground (arith, c) in
    let q : Parser = record (spent n []) { input = t ++ post } in
    (
      spent n post,
      (rw (z, y, r)
          (ap (λ (s : Parser). (ok, s, t))
            (settle_moved q t post (length t) refl (omega arith) refl))),
      refl,
    )

passes_line :
    (mark : ℕ) (s post : Bytes) → IsReply (line mark s) → PassesOn (reply_text (line mark s)) post
unfolding parse_response dispatch_response reset Inline.handle_response
passes_line mark s post (m, lacks) =
    let t = (mark ∷ s) ++ b'\n' ∷ [] in
    let p : Parser = record fresh { input = t ++ post } in
    let h : At (reader p) ((mark ∷ s) ++ b'\n' ∷ post) =
      append_assoc (mark ∷ s) (b'\n' ∷ []) post in
    let c = current-At (reader p) mark (s ++ b'\n' ∷ post) h in
    let z : eof (reader p) ≡ false = eof-At (reader p) (t ++ post) refl (omega arith) in
    let y : ((current (reader p) == b'*') || (current (reader p) == b'$')) ≡ false =
      ground (arith, c, m) in
    let w : ((current (reader p) == b'-')
          || ((current (reader p) == b'+') || (current (reader p) == b':')))
        ≡ true =
      ground (arith, c, m) in
    let ne : mark ≢ b'\n' = ground (arith, m) in
    let r =
      read_until-At (reader p) [] (mark ∷ s) post b'\n' (Lacks-cons b'\n' mark s ne lacks) h in
    let q : Parser = record fresh { parse_type = type_inline; input = t ++ post } in
    (
      record q { input = post },
      (rw (z, y, w, r)
          (ap (λ (s : Parser). (ok, s, t))
            (settle_moved q t post (0 + length t) refl (omega arith) (omega arith)))),
      refl,
    )

-- Every such reply, with any bytes behind it, is passed on byte for byte, and after `Reset` the
-- parser is as it was at first, with exactly the bytes behind the reply to read.
pub parse_response-PassesOn : (r : Reply) (post : Bytes) → IsReply r → PassesOn (reply_text r) post
parse_response-PassesOn (line mark s) post h = passes_line mark s post h
parse_response-PassesOn (one a) post (pos_a, small) =
    passes_multibulk (bulk a) post 1 b'$' (length a) ((a ++ crlf) ++ post) (inr refl)
      (append_assoc (header b'$' (length a)) (a ++ crlf) post)
      (omega
        (arith, length-append (header b'$' (length a)) (a ++ crlf), header_pos b'$' (length a)))
      (handle_response-bulk a post pos_a small)
parse_response-PassesOn (array argv) post (few, filled) =
    passes_multibulk (text argv) post (length argv) b'*' (length argv) (bulks argv ++ post)
      (inl refl) (append_assoc (header b'*' (length argv)) (bulks argv) post)
      (omega (
        arith,
        length-append (header b'*' (length argv)) (bulks argv),
        header_pos b'*' (length argv),
      ))
      (handle_response-text argv [] post few filled)

handle_response-empty :
    (br : Reader) (rest : Bytes)
    → At br (header b'$' 0 ++ rest)
    → handle_response initial [] br
      ≡ (ok, (spent 1 []).multi, header b'$' 0, advance br (length (header b'$' 0)))
unfolding handle_response response_loop response_round
handle_response-empty br rest h =
    let c = current-header br b'$' 0 rest h in
    let star : (current br == b'*') ≡ false = ground (arith, c) in
    let r = read_int32-At br b'$' 0 rest (pos 0) (some []) (omega arith) (omega arith) h in
    rw (star, r) refl

-- An empty bulk is not passed on whole: the call reports success with its first line alone, and the
-- end of line that belongs to the bulk is left, so that after `Reset` the next call refuses the
-- input as the start of no reply.
pub parse_response-empty_bulk :
    (post : Bytes)
    → (p : Parser) × (parse_response (record fresh { input = bulk [] ++ post }) []
        ≡ (ok, p, header b'$' 0))
      × (parse_response (reset p) [] ≡ (unknown, reset p, []))
unfolding parse_response dispatch_response reset
parse_response-empty_bulk post =
    let head = header b'$' 0 in
    let p : Parser = record fresh { input = bulk [] ++ post } in
    let h : At (reader p) (head ++ (crlf ++ post)) = append_assoc head crlf post in
    let c = current-header (reader p) b'$' 0 (crlf ++ post) h in
    let l = header_pos b'$' 0 in
    let z : eof (reader p) ≡ false =
      eof-At (reader p) (head ++ (crlf ++ post)) h
        (omega (arith, length-append head (crlf ++ post), l)) in
    let y : ((current (reader p) == b'*') || (current (reader p) == b'$')) ≡ true =
      ground (arith, c) in
    let r = handle_response-empty (reader p) (crlf ++ post) h in
    let q : Parser = record (spent 1 []) { input = bulk [] ++ post } in
    let s : settle q (record { buffer = bulk [] ++ post; offset = 0 + length head })
        ≡ spent 1 (crlf ++ post) =
      ap (λ b. settle q (record { buffer = b; offset = 0 + length head })) h
      ∙ settle_moved q head (crlf ++ post) (0 + length head) h (omega (arith, l)) (omega arith) in
    let left : Parser = record fresh { input = crlf ++ post } in
    let z' : eof (reader left) ≡ false = eof-At (reader left) (crlf ++ post) refl (omega arith) in
    let c' : current (reader left) ≡ b'\r' = current-At (reader left) b'\r' (b'\n' ∷ post) refl in
    (spent 1 (crlf ++ post), rw (z, y, r) (ap (λ (s : Parser). (ok, s, head)) s), rw (z', c') refl)
