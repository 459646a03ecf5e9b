-- ===== src/Cmd/Inline.antt =====
-- `InlineParser` of src/cmd.cpp.
pub mod Total
use redisproxy.Base.{
  ℕ, zero, suc, ◌+◌, Option, none, some, [], ◌∷◌, Bytes, length, ◌==◌, if◌then◌else◌,
}
use redisproxy.Base.Int.{negsuc}
use redisproxy.Error.{Error, ok, try_again, not_found, is_none, equal}
use redisproxy.Buffer.View
use redisproxy.Reader
use redisproxy.Reader.{Reader}
use redisproxy.Cmd.{Cmd, append_arg}

-- `kSplitSign`
abbrev pub split_sign : Bytes
split_sign = b' ' ∷ b'\n' ∷ []

-- `InlineParser::HandleResponse`
unfoldable pub handle_response : Bytes → Reader → Error × Bytes × Reader
unfolding Reader.read_until
handle_response buf br =
    let (err, buf', br') = Reader.read_until br buf b'\n' 1 in
    if equal err not_found then (try_again, buf', br') else (ok, buf', br')

-- The end of the line: the argument without a carriage return.
unfoldable pub last_arg : Bytes → Reader → Bytes
unfolding Reader.last View.offset
last_arg buf br = if Reader.last br == b'\r' then View.offset buf 0 (negsuc 0) else buf

-- The loop of `InlineParser::HandleRequest`; `none` means that the fuel ran out.
unfoldable pub request_loop : ℕ → Cmd → Reader → Option (Error × Cmd × Reader)
unfolding Reader.read_until_any Reader.current Reader.next last_arg append_arg
request_loop zero cmd br = none
request_loop (suc fuel) cmd br =
    let (err, buf, br') = Reader.read_until_any br [] split_sign 0 in
    let br'' = (Reader.next br' 1).1 in
    let again = request_loop fuel (append_arg cmd buf) br'' in
    if is_none err
    then (if Reader.current br' == b'\n'
        then some (ok, append_arg cmd (last_arg buf br'), br'')
        else again)
    else some (if equal err not_found then try_again else err, cmd, br')

-- `InlineParser::HandleRequest`: each round passes a byte, so the bytes of the buffer and one are
-- rounds enough.
unfoldable pub handle_request : Cmd → Reader → Option (Error × Cmd × Reader)
unfolding request_loop
handle_request cmd br = request_loop (length br.buffer + 1) cmd br
