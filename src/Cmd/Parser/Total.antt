-- ===== src/Cmd/Parser/Total.antt =====
-- `CmdParser` of cmd.cpp on any input: what a call leaves of it.
use redisproxy.Base.{
  ◌≤◌, ◌<◌, ◌≡◌, ◌∙◌, sym, refl, true, false, some, Bytes, length, length-drop, arith, ◌==◌,
  Bool-cases, Option-cases, inl, inr,
}
use mathlib.Core.Bool.{false≢true}
use redisproxy.Buffer.View
use redisproxy.Error.{Error, try_again, not_found, is_none, equal}
use redisproxy.Reader
use redisproxy.Reader.{Reader}
use redisproxy.Reader.Grows.{read_until_cases}
use redisproxy.Cmd.{Cmd}
use redisproxy.Cmd.Inline
use redisproxy.Cmd.Inline.Total.{handle_request-Ends}
use redisproxy.Cmd.Multibulk
use redisproxy.Cmd.Multibulk.{initial}
use redisproxy.Cmd.Multibulk.Grows
use redisproxy.Cmd.Multibulk.Answers
use redisproxy.Cmd.Parser.{
  Parser, ParseType, type_none, type_inline, type_multibulk, reader, settle, request_type,
  dispatch_request, parse_request, response_type, dispatch_response, parse_response,
}

-- A parser at the start of a request or a reply.
abbrev pub IsReset : Parser → Type 0
IsReset p = (p.parse_type ≡ type_none) × (p.multi ≡ initial)

settle-offset : (p : Parser) (br : Reader) → p.offset ≡ 0 → (settle p br).offset ≡ 0
unfolding settle
settle-offset p br h = ground (arith, h)

settle-input :
    (p : Parser) (br : Reader)
    → p.offset ≡ 0
    → 0 < length p.input
    → p.offset < br.offset
    → length (settle p br).input < length p.input
unfolding settle View.offset
settle-input p br h l m =
    let t : (p.offset == br.offset) ≡ false = ground (arith, h, m) in
    rw t (omega (arith, length-drop br.offset p.input, l, m, h))

settle-length : (p : Parser) (br : Reader) → length (settle p br).input ≤ length p.input
unfolding settle View.offset
settle-length p br = elim (Bool-cases (p.offset == br.offset)) [
  | inl y ↦ rw y (omega arith)
  | inr n ↦ rw n (omega (arith, length-drop br.offset p.input))
]

some_left : (p : Parser) → Reader.eof (reader p) ≡ false → 0 < length p.input
unfolding Reader.eof
some_left p e = ground (arith, e)

-- What a call leaves: the reader is at the start of the input, which has not grown, and a parser at the start of a request has
-- taken a byte where it is done.
abbrev pub Takes : Parser → Error → Parser → Type 0
Takes p err p' =
    (p'.offset ≡ 0)
    × (length p'.input ≤ length p.input)
    × (IsReset p → is_none err ≡ true → length p'.input < length p.input)

dispatch_request-Takes :
    (t : ParseType) (p : Parser) (cmd : Cmd)
    → p.offset ≡ 0
    → 0 < length p.input
    → (err : Error) × (p' : Parser) × (cmd' : Cmd) × (dispatch_request t p cmd
        ≡ some (err, p', cmd'))
      × (p'.offset ≡ 0)
      × (length p'.input ≤ length p.input)
      × (p.multi ≡ initial → is_none err ≡ true → length p'.input < length p.input)
unfolding dispatch_request
dispatch_request-Takes type_multibulk p cmd h l =
    let (err, m, cmd', br) = Multibulk.handle_request p.multi cmd (reader p) in
    let q : Parser = record p { multi = m } in
    (
      err,
      settle q br,
      cmd',
      refl,
      settle-offset q br h,
      settle-length q br,
      λ i y.
          settle-input q br h l
            (let y' = rw i at y in rw i (Grows.handle_request-Passes cmd (reader p) y')),
    )
dispatch_request-Takes type_inline p cmd h l =
    let (err, cmd', br, r, f) = handle_request-Ends cmd (reader p) in
    (
      err,
      settle p br,
      cmd',
      rw (r, dispatch_request) refl,
      settle-offset p br h,
      settle-length p br,
      λ i y. settle-input p br h l (f y),
    )
dispatch_request-Takes type_none p cmd h l =
    let (err, cmd', br, r, f) = handle_request-Ends cmd (reader p) in
    (
      err,
      settle p br,
      cmd',
      rw (r, dispatch_request) refl,
      settle-offset p br h,
      settle-length p br,
      λ i y. settle-input p br h l (f y),
    )

pub parse_request-Takes :
    (p : Parser) (cmd : Cmd)
    → p.offset ≡ 0
    → (err : Error) × (p' : Parser) × (cmd' : Cmd) × (parse_request p cmd ≡ some (err, p', cmd'))
      × Takes p err p'
unfolding parse_request
parse_request-Takes p cmd h = elim (Bool-cases (Reader.eof (reader p))) [
  | inl e ↦ (try_again, p, cmd, rw e refl, (h, omega arith, λ i y. absurd (false≢true y)))
  | inr e ↦
      let t = request_type p in
      let (err, p', cmd', r, o, le, f) =
        dispatch_request-Takes t (record p { parse_type = t }) cmd h (some_left p e) in
      (err, p', cmd', rw (e, parse_request) r, (o, le, λ i y. f i.1 y))
]

inline_response-Passes :
    (resp : Bytes) (br : Reader)
    → Reader.eof br ≡ false
    → is_none (Inline.handle_response resp br).0 ≡ true
    → br.offset < (Inline.handle_response resp br).2.offset
unfolding Inline.handle_response
inline_response-Passes resp br e h =
    let (err, _, _) = Reader.read_until br resp b'\n' 1 in
    elim (Bool-cases (equal err not_found)) [
      | inl y ↦ absurd (false≢true (rw y at h))
      | inr n ↦ elim (read_until_cases br resp b'\n' e) [
        | inl y ↦ absurd (false≢true (sym n ∙ y))
        | inr on ↦ rw n (omega (arith, on))
      ]
    ]

dispatch_response-Takes :
    (t : ParseType) (p : Parser) (resp : Bytes)
    → p.offset ≡ 0
    → Reader.eof (reader p) ≡ false
    → let (err, p', _) = dispatch_response t p resp in
      (p'.offset ≡ 0)
      × (length p'.input ≤ length p.input)
      × (p.multi ≡ initial → is_none err ≡ true → length p'.input < length p.input)
unfolding dispatch_response
dispatch_response-Takes type_multibulk p resp h e =
    let (err, m, resp', br) = Multibulk.handle_response p.multi resp (reader p) in
    let q : Parser = record p { multi = m } in
    (
      settle-offset q br h,
      settle-length q br,
      λ i y.
          settle-input q br h (some_left p e)
            (let y' = rw i at y in rw i (Answers.handle_response-Passes resp (reader p) y')),
    )
dispatch_response-Takes type_inline p resp h e =
    let br = (Inline.handle_response resp (reader p)).2 in
    (
      settle-offset p br h,
      settle-length p br,
      λ i y. settle-input p br h (some_left p e) (inline_response-Passes resp (reader p) e y),
    )
dispatch_response-Takes type_none p resp h e =
    let br = (Inline.handle_response resp (reader p)).2 in
    (
      settle-offset p br h,
      settle-length p br,
      λ i y. settle-input p br h (some_left p e) (inline_response-Passes resp (reader p) e y),
    )

pub parse_response-Takes :
    (p : Parser) (resp : Bytes)
    → p.offset ≡ 0
    → Takes p (parse_response p resp).0 (parse_response p resp).1
unfolding parse_response
parse_response-Takes p resp h = elim (Bool-cases (Reader.eof (reader p))) [
  | inl e ↦ rw e (h, omega arith, λ i y. absurd (false≢true y))
  | inr e ↦ elim (Option-cases (response_type p)) [
    | inl n ↦ rw (e, n) (h, omega arith, λ i y. absurd (false≢true y))
    | inr (t, n) ↦
        let (o, le, f) = dispatch_response-Takes t (record p { parse_type = t }) resp h e in
        rw (e, n) (o, le, λ i y. f i.1 y)
  ]
]
