-- ===== src/Cmd/Tests.antt =====
-- The parsers of cmd.cpp on small examples.
use redisproxy.Base.{◌≡◌, inl, inr, refl, some, Bytes, [], ◌∷◌, ◌++◌, arith}
use redisproxy.Base.Memchr.{Lacks, memchr}
use redisproxy.Error.{ok, try_again, unknown}
use redisproxy.Cmd.{Cmd, format_resp2, header}
use redisproxy.Cmd.Multibulk.RoundTrip.{bulk, Printable}
use redisproxy.Cmd.Multibulk.Reply.{Filled}
use redisproxy.Cmd.Parser.{Parser, fresh, reset, parse_request, parse_response}
use redisproxy.Cmd.Parser.Request.{spent, parse_request-format_resp2}
use redisproxy.Cmd.Parser.Resume.{cut_text, parse_request-cut}
use redisproxy.Cmd.Parser.Response.{
  Reply, line, PassesOn, parse_response-PassesOn, parse_response-empty_bulk,
}

-- `GET k`
abbrev get_k : Cmd
get_k = (b'G' ∷ b'E' ∷ b'T' ∷ []) ∷ (b'k' ∷ []) ∷ []

-- `"*2\r\n"`, and what a client might send next
abbrev behind : Bytes
behind = b'*' ∷ b'2' ∷ b'\r' ∷ b'\n' ∷ []

get_k-Printable : Printable get_k
get_k-Printable = (omega arith, (omega arith, (omega arith, tt)))

get_k-Filled : Filled get_k
get_k-Filled = (omega arith, omega arith, (omega arith, omega arith, tt))

parse_request-format_resp2_example :
    parse_request (record fresh { input = (format_resp2 get_k []).1 ++ behind }) []
    ≡ some (ok, spent 2 behind, get_k)
parse_request-format_resp2_example = parse_request-format_resp2 get_k behind get_k-Printable

-- `GET k` cut behind the `k`
parse_request-cut_example :
    (p : Parser) × (parse_request
        (record fresh {
          input = cut_text ((b'G' ∷ b'E' ∷ b'T' ∷ []) ∷ []) (b'k' ∷ []) 0 (b'k' ∷ []);
        })
        []
      ≡ some (try_again, p, (b'G' ∷ b'E' ∷ b'T' ∷ []) ∷ []))
    × (p.input ≡ b'k' ∷ [])
    × (parse_request
          (record p { input = p.input ++ b'\r' ∷ b'\n' ∷ behind })
          ((b'G' ∷ b'E' ∷ b'T' ∷ []) ∷ [])
        ≡ some (ok, spent 2 behind, get_k))
parse_request-cut_example =
    parse_request-cut ((b'G' ∷ b'E' ∷ b'T' ∷ []) ∷ []) (b'k' ∷ []) [] (b'k' ∷ [])
      (b'\r' ∷ b'\n' ∷ behind) behind (omega arith) (omega arith, tt) tt (omega arith) (omega arith)
      (omega arith) refl

-- `"+OK\r\n"`
abbrev status : Reply
status = line b'+' (b'O' ∷ b'K' ∷ b'\r' ∷ [])

status-Lacks : Lacks b'\n' (b'O' ∷ b'K' ∷ b'\r' ∷ [])
unfolding memchr
status-Lacks = refl

parse_response-PassesOn_example : PassesOn (b'+' ∷ b'O' ∷ b'K' ∷ b'\r' ∷ b'\n' ∷ []) behind
parse_response-PassesOn_example =
    parse_response-PassesOn status behind (inr (inl refl), status-Lacks)

parse_response-empty_bulk_example :
    (p : Parser) × (parse_response (record fresh { input = bulk [] ++ behind }) []
      ≡ (ok, p, header b'$' 0))
    × (parse_response (reset p) [] ≡ (unknown, reset p, []))
parse_response-empty_bulk_example = parse_response-empty_bulk behind
