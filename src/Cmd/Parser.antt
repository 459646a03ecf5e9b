-- ===== src/Cmd/Parser.antt =====
-- `CmdParser` of src/cmd.h and src/cmd.cpp. Its reader refers to its input buffer, so that the two
-- are one field with an offset.
pub mod Request
pub mod Resume
pub mod Response
pub mod Total
use redisproxy.Base.{
  ℕ, Bool, true, false, not, ◌||◌, Option, none, some, Bytes, [], length, ◌==◌, leb, if◌then◌else◌,
}
use redisproxy.Base.Int.{ℤ, pos}
use redisproxy.Error.{Error, ok, try_again, unknown}
use redisproxy.Buffer.View
use redisproxy.Reader
use redisproxy.Reader.{Reader}
use redisproxy.Cmd.{Cmd}
use redisproxy.Cmd.Inline
use redisproxy.Cmd.Multibulk
use redisproxy.Cmd.Multibulk.{Multi, initial}

-- `TYPE_NONE`, `TYPE_INLINE` and `TYPE_MULTIBULK`
pub data ParseType : Type 0 where
  type_none type_inline type_multibulk : ParseType

pub record Parser : Type 0 where
  pub parse_type : ParseType
  pub multi : Multi
  pub input : Bytes
  pub offset : ℕ

-- `CmdParser()`
abbrev pub fresh : Parser
fresh = record { parse_type = type_none; multi = initial; input = []; offset = 0 }

-- `Reset`
unfoldable pub reset : Parser → Parser
reset p = record p { parse_type = type_none; multi = initial }

-- The reader `inputbr_`.
abbrev pub reader : Parser → Reader
reader p = record { buffer = p.input; offset = p.offset }

-- The end of both functions: if something was read, the buffer is moved past it and the reader is
-- reset.
unfoldable pub settle : Parser → Reader → Parser
unfolding View.offset
settle p br =
    if p.offset == br.offset
    then p
    else record p { input = View.offset p.input br.offset (pos 0); offset = 0 }

-- The type by which a request is parsed.
abbrev pub request_type : Parser → ParseType
request_type p = elim p.parse_type [
  | type_none ↦ if Reader.current (reader p) == b'*' then type_multibulk else type_inline
  | type_inline ↦ type_inline
  | type_multibulk ↦ type_multibulk
]

abbrev pub Parsed : Type 0 → Type 0
Parsed A = Error × Parser × A

-- The dispatch of `ParseRequest`; `none` means that a loop ran out of fuel.
unfoldable pub dispatch_request : ParseType → Parser → Cmd → Option (Parsed Cmd)
dispatch_request type_multibulk p cmd =
    let (err, m, cmd', br) = Multibulk.handle_request p.multi cmd (reader p) in
    some (err, settle (record p { multi = m }) br, cmd')
dispatch_request other p cmd = elim (Inline.handle_request cmd (reader p)) [
  | none ↦ none
  | some (err, cmd', br) ↦ some (err, settle p br, cmd')
]

unfoldable pub parse_request : Parser → Cmd → Option (Parsed Cmd)
parse_request p cmd =
    if Reader.eof (reader p)
    then some (try_again, p, cmd)
    else dispatch_request (request_type p) (record p { parse_type = request_type p }) cmd

-- The type by which a response is parsed; `none` for a first byte that starts no reply.
abbrev pub response_type : Parser → Option ParseType
response_type p =
    let ch = Reader.current (reader p) in
    elim p.parse_type [
      | type_none ↦
          if ch == b'*' || ch == b'$'
          then some type_multibulk
          else if ch == b'-' || (ch == b'+' || ch == b':')
          then some type_inline
          else none
      | type_inline ↦ some type_inline
      | type_multibulk ↦ some type_multibulk
    ]

unfoldable pub dispatch_response : ParseType → Parser → Bytes → Parsed Bytes
dispatch_response type_multibulk p resp =
    let (err, m, resp', br) = Multibulk.handle_response p.multi resp (reader p) in
    (err, settle (record p { multi = m }) br, resp')
dispatch_response other p resp =
    let (err, resp', br) = Inline.handle_response resp (reader p) in (err, settle p br, resp')

unfoldable pub parse_response : Parser → Bytes → Parsed Bytes
parse_response p resp =
    if Reader.eof (reader p) then (try_again, p, resp) else elim (response_type p) [
      | none ↦ (unknown, p, resp)
      | some t ↦ dispatch_response t (record p { parse_type = t }) resp
    ]
