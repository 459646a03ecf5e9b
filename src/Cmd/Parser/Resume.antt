-- ===== src/Cmd/Parser/Resume.antt =====
-- `CmdParser::ParseRequest` of cmd.cpp on a request that arrives in two pieces.
use redisproxy.Base.{
  ℕ, suc, ◌+◌, ◌-◌, ◌^◌, ◌<◌, ◌≡◌, ◌∙◌, ap, sym, refl, true, false, none, some, Bytes, [], ◌∷◌,
  ◌++◌, append_assoc, append-nil, length, length-append, arith, ◌==◌,
}
use redisproxy.Base.Int.{pos, ◌==ℤ◌}
use redisproxy.Error.{ok, try_again}
use redisproxy.Reader.{Reader, eof, current, read}
use redisproxy.Reader.Laws.{At, At-advance, advance, eof-At, read-At, read_short}
use redisproxy.Cmd.{Cmd, header, crlf, append_arg}
use redisproxy.Cmd.Multibulk.{
  Multi, initial, next_bulk, bulk_size, Request, request_loop, request_round, request_bulk_len,
  handle_request,
}
use redisproxy.Cmd.Multibulk.Header.{current-header, header_pos, read_int32-At}
use redisproxy.Cmd.Multibulk.RoundTrip.{
  bulk, bulks, Short, bulk_size-At, trim-crlf, request_round-At, request_loop-At, landed_path,
}
use redisproxy.Cmd.Parser.{
  Parser, fresh, type_multibulk, reader, settle, dispatch_request, parse_request,
}
use redisproxy.Cmd.Parser.Request.{spent, settle_moved}

-- A bulk whose length is known and whose body is cut short waits for more.
round-cut :
    (m : Multi) (cmd : Cmd) (br : Reader) (a part : Bytes)
    → length a + 2 < 2 ^ 31
    → length part < length a + 2
    → m.bulk_len ≡ pos 0
    → At br (header b'$' (length a) ++ part)
    → request_round m cmd br ≡ (
      false,
      (
        try_again,
        record m { bulk_len = pos (length a) },
        cmd,
        advance br (length (header b'$' (length a))),
      ),
    )
unfolding request_round request_bulk_len
round-cut m cmd br a part small short e h =
    let head = header b'$' (length a) in
    let br1 = advance br (length head) in
    let r0 = read_int32-At br b'$' (length a) part m.bulk_len none (omega arith) (omega arith) h in
    let m1 : Multi = record m { bulk_len = pos (length a) } in
    let r1 =
      ap (read br1 []) (bulk_size-At m1 (length a) small refl)
      ∙ read_short br1 [] part (length a + 2) (At-advance br head part h) short in
    let z : (m.bulk_len ==ℤ pos 0) ≡ true = rw e refl in rw (z, r0, r1) refl

-- The bulk goes on when the rest is there.
round-resume :
    (m : Multi) (cmd : Cmd) (br : Reader) (a post : Bytes)
    → 0 < length a
    → length a + 2 < 2 ^ 31
    → m.bulk_len ≡ pos (length a)
    → At br ((a ++ crlf) ++ post)
    → request_round m cmd br
      ≡ (true, (ok, next_bulk m, append_arg cmd a, advance br (length (a ++ crlf))))
unfolding request_round request_bulk_len
round-resume m cmd br a post pos_a small e h =
    let l = length-append a crlf in
    let r1 : read br [] (bulk_size m) ≡ (ok, a ++ crlf, advance br (length (a ++ crlf))) =
      ap (read br []) (bulk_size-At m (length a) small e ∙ sym l)
      ∙ read-At br [] (a ++ crlf) post h (omega (arith, l)) in
    let z : (m.bulk_len ==ℤ pos 0) ≡ false = rw e (ground arith) in rw (z, r1, trim-crlf a) refl

-- The outcome of a cut by its parts.
abbrev waiting : Multi → Reader → ℕ → ℕ → Cmd → ℕ → Request
waiting m br size index cmd offset = (
  try_again,
  record m { multibulk_index = index; bulk_len = pos size },
  cmd,
  record br { offset = offset },
)

cut_path :
    (m : Multi) (br : Reader) {n i i' : ℕ} {c c' : Cmd} {o o' : ℕ}
    → i ≡ i'
    → c ≡ c'
    → o ≡ o'
    → waiting m br n i c o ≡ waiting m br n i' c' o'
cut_path m br {n} q r s = λ k. waiting m br n (q k) (r k) (s k)

loop-cut :
    (xs : Cmd) (j k : ℕ) (m : Multi) (cmd : Cmd) (br : Reader) (a part : Bytes)
    → k ≡ length xs + suc j
    → Short xs
    → length a + 2 < 2 ^ 31
    → length part < length a + 2
    → m.bulk_len ≡ pos 0
    → At br (bulks xs ++ (header b'$' (length a) ++ part))
    → request_loop k m cmd br ≡ (
      try_again,
      record m { multibulk_index = m.multibulk_index + length xs; bulk_len = pos (length a) },
      cmd ++ xs,
      advance br (length (bulks xs) + length (header b'$' (length a))),
    )
unfolding request_loop append_arg
loop-cut [] j k m cmd br a part ek s small short e h =
    let k' : k ≡ suc j = omega arith in
    rw (k', round-cut m cmd br a part small short e h)
      (cut_path m br (omega arith) (sym (append-nil cmd)) (omega arith))
loop-cut (x ∷ xs) j k m cmd br a part ek s small short e h =
    let k' : k ≡ suc (length xs + suc j) = omega arith in
    let more = header b'$' (length a) ++ part in
    let h0 : At br (bulk x ++ (bulks xs ++ more)) = h ∙ append_assoc (bulk x) (bulks xs) more in
    let r = request_round-At m cmd br x (bulks xs ++ more) s.0 e h0 in
    let ih =
      loop-cut xs j (length xs + suc j) (next_bulk m) (append_arg cmd x)
        (advance br (length (bulk x))) a part refl s.1 small short refl
        (At-advance br (bulk x) (bulks xs ++ more) h0) in
    rw (k', r)
      (ih
        ∙ cut_path m br (omega arith) (append_assoc cmd (x ∷ []) xs)
            (omega (arith, length-append (bulk x) (bulks xs))))

-- The parser that waits for the rest of the bulk behind `xs`.
abbrev pub paused : Cmd → Bytes → ℕ → Bytes → Parser
paused xs a j part = record {
  parse_type = type_multibulk;
  multi = record {
    multibulk_len = pos (length xs + suc j);
    multibulk_index = length xs;
    bulk_len = pos (length a);
  };
  input = part;
  offset = 0;
}

-- The bytes of a request up to the cut.
abbrev pub cut_text : Cmd → Bytes → ℕ → Bytes → Bytes
cut_text xs a j part =
    header b'*' (length xs + suc j) ++ (bulks xs ++ (header b'$' (length a) ++ part))

pub parse_request-paused :
    (xs : Cmd) (a part : Bytes) (j : ℕ)
    → length xs + suc j < 2 ^ 31
    → Short xs
    → length a + 2 < 2 ^ 31
    → length part < length a + 2
    → parse_request (record fresh { input = cut_text xs a j part }) []
      ≡ some (try_again, paused xs a j part, xs)
unfolding parse_request dispatch_request handle_request
parse_request-paused xs a part j few short small cut =
    let n = length xs + suc j in
    let head = header b'*' n in
    let inner = header b'$' (length a) in
    let more = bulks xs ++ (inner ++ part) in
    let p : Parser = record fresh { input = head ++ more } in
    let br = reader p in
    let m : Multi = record initial { multibulk_len = pos n } in
    let l = header_pos b'*' n in
    let z : eof br ≡ false =
      eof-At br (head ++ more) refl (omega (arith, length-append head more, l)) in
    let c : (current br == b'*') ≡ true = rw (current-header br b'*' n more refl) refl in
    let r = read_int32-At br b'*' n more (pos 0) none (omega arith) few refl in
    let loop =
      loop-cut xs j (n - 0) m [] (advance br (length head)) a part (omega arith) short small cut
        refl (At-advance br head more refl) in
    let before = head ++ (bulks xs ++ inner) in
    let e : head ++ more ≡ before ++ part =
      ap (λ w. head ++ w) (sym (append_assoc (bulks xs) inner part))
      ∙ sym (append_assoc head (bulks xs ++ inner) part) in
    let lb : length before ≡ length head + (length (bulks xs) + length inner) =
      omega (arith, length-append head (bulks xs ++ inner), length-append (bulks xs) inner) in
    let off : 0 + length head + (length (bulks xs) + length inner) ≡ length before =
      omega (arith, lb) in
    let q : Parser = record (paused xs a j part) { input = head ++ more } in
    let loop' = loop ∙ cut_path m br (omega arith) refl off in
    let moved : settle q (record { buffer = head ++ more; offset = length before })
        ≡ paused xs a j part =
      (λ i. settle q (record { buffer = e i; offset = length before }))
      ∙ settle_moved q before part (length before) e (omega (arith, l, lb)) refl in
    rw (z, c, r, loop') (ap (λ s. some (try_again, s, xs)) moved)

pub parse_request-resumed :
    (xs : Cmd) (a : Bytes) (ys : Cmd) (part more post : Bytes)
    → Short ys
    → 0 < length a
    → length a + 2 < 2 ^ 31
    → part ++ more ≡ (a ++ crlf) ++ (bulks ys ++ post)
    → parse_request (paused xs a (length ys) (part ++ more)) xs
      ≡ some (ok, spent (length xs + suc (length ys)) post, xs ++ a ∷ ys)
unfolding parse_request dispatch_request handle_request request_loop append_arg
parse_request-resumed xs a ys part more post short pos_a small e =
    let body = a ++ crlf in
    let rest = bulks ys ++ post in
    let p = paused xs a (length ys) (part ++ more) in
    let br = reader p in
    let m = p.multi in
    let n = length xs + suc (length ys) in
    let l = length-append body rest in
    let lc = length-append a crlf in
    let z : eof br ≡ false = eof-At br (body ++ rest) e (omega (arith, l, lc)) in
    let t : (n == 0) ≡ false = ground arith in
    let rounds_left : n - length xs ≡ suc (length ys) = omega arith in
    let r = round-resume m xs br a rest pos_a small refl e in
    let loop =
      request_loop-At ys (next_bulk m) (append_arg xs a) (advance br (length body)) post short refl
        (At-advance br body rest e) in
    let off : 0 + length body + length (bulks ys) ≡ length (body ++ bulks ys) =
      omega (arith, length-append body (bulks ys)) in
    let loop' = loop ∙ landed_path m br refl (omega arith) (append_assoc xs (a ∷ []) ys) off in
    let e' : part ++ more ≡ (body ++ bulks ys) ++ post =
      e ∙ sym (append_assoc body (bulks ys) post) in
    let q : Parser = spent n (part ++ more) in
    let moved : settle q (record { buffer = part ++ more; offset = length (body ++ bulks ys) })
        ≡ spent n post =
      (λ i. settle q (record { buffer = e' i; offset = length (body ++ bulks ys) }))
      ∙ settle_moved q (body ++ bulks ys) post (length (body ++ bulks ys)) e'
          (omega (arith, length-append body (bulks ys), lc)) refl in
    rw (z, t, rounds_left, r, loop') (ap (λ s. some (ok, s, xs ++ a ∷ ys)) moved)

-- A request that is cut anywhere inside a bulk that is not empty, or right behind the length of
-- that bulk, first gives `TryAgain`; when the rest has arrived behind what is left in the input
-- buffer, the next call completes the same command, and leaves the bytes behind it.
pub parse_request-cut :
    (xs : Cmd) (a : Bytes) (ys : Cmd) (part more post : Bytes)
    → length xs + suc (length ys) < 2 ^ 31
    → Short xs
    → Short ys
    → 0 < length a
    → length a + 2 < 2 ^ 31
    → length part < length a + 2
    → part ++ more ≡ (a ++ crlf) ++ (bulks ys ++ post)
    → (p : Parser) × (parse_request (record fresh { input = cut_text xs a (length ys) part }) []
        ≡ some (try_again, p, xs))
      × (p.input ≡ part)
      × (parse_request (record p { input = p.input ++ more }) xs
          ≡ some (ok, spent (length xs + suc (length ys)) post, xs ++ a ∷ ys))
parse_request-cut xs a ys part more post few sx sy pos_a small cut e = (
  paused xs a (length ys) part,
  parse_request-paused xs a part (length ys) few sx small cut,
  refl,
  parse_request-resumed xs a ys part more post sy pos_a small e,
)
