-- ===== src/Cmd/Multibulk/RoundTrip.antt =====
-- `FormatRESP2` and `MultibulkParser::HandleRequest` of cmd.cpp: what is printed is read back.
use redisproxy.Base.{
  ℕ, ◌+◌, ◌-◌, ◌^◌, ◌<◌, ◌≡◌, ◌∙◌, ap, sym, refl, true, none, Bytes, [], ◌∷◌, ◌++◌, append_assoc,
  append-nil, length, length-append, take, take-append, arith,
}
use redisproxy.Base.Int.{ℤ, pos, negsuc, ◌+ℤ◌, ◌==ℤ◌}
use redisproxy.Error.{ok}
use redisproxy.Buffer.View
use redisproxy.Reader.{Reader, read}
use redisproxy.Reader.Laws.{At, At-advance, advance, read-At}
use redisproxy.Cmd.{Cmd, header, crlf, append_arg, format_args, format_resp2}
use redisproxy.Cmd.Multibulk.{
  Multi, initial, next_bulk, bulk_size, Request, request_bulk_len, request_round, request_loop,
  handle_request,
}
use redisproxy.Cmd.Multibulk.Header.{read_int32-At}

-- The text of a bulk, and of all bulks of a command.
abbrev pub bulk : Bytes → Bytes
bulk a = header b'$' (length a) ++ (a ++ crlf)

abbrev pub bulks : Cmd → Bytes
bulks [] = []
bulks (a ∷ argv) = bulk a ++ bulks argv

pub format_args-bulks :
    (argv : Cmd) (buffer : Bytes) → format_args argv buffer ≡ buffer ++ bulks argv
unfolding format_args
format_args-bulks [] buffer = sym (append-nil buffer)
format_args-bulks (a ∷ argv) buffer =
    format_args-bulks argv (((buffer ++ header b'$' (length a)) ++ a) ++ crlf) ∙ simp append_assoc

-- `FormatRESP2` appends the text of the command.
abbrev pub text : Cmd → Bytes
text argv = header b'*' (length argv) ++ bulks argv

pub format_resp2-text :
    (argv : Cmd) (buffer : Bytes) → format_resp2 argv buffer ≡ (ok, buffer ++ text argv)
unfolding format_resp2
format_resp2-text argv buffer =
    ap (λ (w : Bytes). (ok, w))
      (format_args-bulks argv (buffer ++ header b'*' (length argv))
        ∙ append_assoc buffer (header b'*' (length argv)) (bulks argv))

-- Each argument is short enough for an `int32_t` length.
abbrev pub Short : Cmd → Type 0
Short [] = Unit
Short (a ∷ argv) = (length a + 2 < 2 ^ 31) × Short argv

pub bulk_size-At : (m : Multi) (n : ℕ) → n + 2 < 2 ^ 31 → m.bulk_len ≡ pos n → bulk_size m ≡ n + 2
unfolding ◌+ℤ◌
bulk_size-At m n small e = rw e (ground arith)

pub trim-crlf : (a : Bytes) → View.offset (a ++ crlf) 0 (negsuc 1) ≡ a
unfolding View.offset
trim-crlf a =
    ap (λ n. take n (a ++ crlf))
      (let e : length (a ++ crlf) - 2 ≡ length a = omega (arith, length-append a crlf) in e)
    ∙ take-append a crlf

-- A bulk that is there, its end included, is read as an argument, and the loop goes on behind it.
pub request_round-At :
    (m : Multi) (cmd : Cmd) (br : Reader) (a post : Bytes)
    → length a + 2 < 2 ^ 31
    → m.bulk_len ≡ pos 0
    → At br (bulk a ++ post)
    → request_round m cmd br
      ≡ (true, (ok, next_bulk m, append_arg cmd a, advance br (length (bulk a))))
unfolding request_round request_bulk_len
request_round-At m cmd br a post small e h =
    let head = header b'$' (length a) in
    let br1 = advance br (length head) in
    let h0 : At br (head ++ ((a ++ crlf) ++ post)) = h ∙ append_assoc head (a ++ crlf) post in
    let r0 =
      read_int32-At br b'$' (length a) ((a ++ crlf) ++ post) m.bulk_len none (omega arith)
        (omega arith) h0 in
    let h1 = At-advance br head ((a ++ crlf) ++ post) h0 in
    let l = length-append a crlf in
    let m1 : Multi = record m { bulk_len = pos (length a) } in
    let r1 : read br1 [] (bulk_size m1) ≡ (ok, a ++ crlf, advance br1 (length (a ++ crlf))) =
      ap (read br1 []) (bulk_size-At m1 (length a) small refl ∙ sym l)
      ∙ read-At br1 [] (a ++ crlf) post h1 (omega (arith, l)) in
    let z : (m.bulk_len ==ℤ pos 0) ≡ true = rw e refl in
    rw (z, r0, r1, trim-crlf a)
      (ap (λ n. (true, (ok, next_bulk m, append_arg cmd a, record br { offset = n })))
        (omega (arith, length-append head (a ++ crlf))))

-- A successful outcome by its parts, and the path between two from paths between these.
abbrev pub landed : Multi → Reader → ℤ → ℕ → Cmd → ℕ → Request
landed m br bulk_len index cmd offset = (
  ok,
  record m { multibulk_index = index; bulk_len = bulk_len },
  cmd,
  record br { offset = offset },
)

pub landed_path :
    (m : Multi) (br : Reader) {z z' : ℤ} {i i' : ℕ} {c c' : Cmd} {o o' : ℕ}
    → z ≡ z'
    → i ≡ i'
    → c ≡ c'
    → o ≡ o'
    → landed m br z i c o ≡ landed m br z' i' c' o'
landed_path m br p q r s = λ k. landed m br (p k) (q k) (r k) (s k)

pub request_loop-At :
    (argv : Cmd) (m : Multi) (cmd : Cmd) (br : Reader) (post : Bytes)
    → Short argv
    → m.bulk_len ≡ pos 0
    → At br (bulks argv ++ post)
    → request_loop (length argv) m cmd br ≡ (
      ok,
      record m { multibulk_index = m.multibulk_index + length argv; bulk_len = pos 0 },
      cmd ++ argv,
      advance br (length (bulks argv)),
    )
unfolding request_loop append_arg
request_loop-At [] m cmd br post s e h =
    landed_path m br e (omega arith) (sym (append-nil cmd)) (omega arith)
request_loop-At (a ∷ argv) m cmd br post s e h =
    let h0 : At br (bulk a ++ (bulks argv ++ post)) = h ∙ append_assoc (bulk a) (bulks argv) post in
    let r = request_round-At m cmd br a (bulks argv ++ post) s.0 e h0 in
    let ih =
      request_loop-At argv (next_bulk m) (append_arg cmd a) (advance br (length (bulk a))) post s.1
        refl (At-advance br (bulk a) (bulks argv ++ post) h0) in
    rw r (
      ih
      ∙ landed_path m br refl (omega arith) (append_assoc cmd (a ∷ []) argv)
          (omega (arith, length-append (bulk a) (bulks argv))))

-- The number of arguments fits an `int32_t`, and so does the size of each with its end.
abbrev pub Printable : Cmd → Type 0
Printable argv = (length argv < 2 ^ 31) × Short argv

-- What `FormatRESP2` prints into an empty buffer, with any bytes behind it, `HandleRequest` of a
-- fresh parser reads back in one call as the same command, and it stops behind the text.
pub handle_request-format_resp2 :
    (argv : Cmd) (post : Bytes)
    → Printable argv
    → handle_request initial [] (record { buffer = (format_resp2 argv []).1 ++ post; offset = 0 })
      ≡ (
        ok,
        record {
          multibulk_len = pos (length argv);
          multibulk_index = length argv;
          bulk_len = pos 0;
        },
        argv,
        record {
          buffer = (format_resp2 argv []).1 ++ post;
          offset = length (format_resp2 argv []).1;
        },
      )
unfolding handle_request
handle_request-format_resp2 argv post (few, short) =
    let n = length argv in
    let head = header b'*' n in
    rw (format_resp2-text argv []) (
      let br : Reader = record { buffer = (head ++ bulks argv) ++ post; offset = 0 } in
      let h : At br (head ++ (bulks argv ++ post)) = append_assoc head (bulks argv) post in
      let r = read_int32-At br b'*' n (bulks argv ++ post) (pos 0) none (omega arith) few h in
      let m : Multi = record initial { multibulk_len = pos n } in
      let loop =
        request_loop-At argv m [] (advance br (length head)) post short refl
          (At-advance br head (bulks argv ++ post) h) in
      rw r (
        ap (λ k. request_loop k m [] (advance br (length head))) (omega arith)
        ∙ loop
        ∙ landed_path m br refl (omega arith) refl
            (omega (arith, length-append head (bulks argv)))))
