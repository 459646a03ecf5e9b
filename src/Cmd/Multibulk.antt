-- ===== src/Cmd/Multibulk.antt =====
-- `MultibulkParser` of src/cmd.h and src/cmd.cpp.
pub mod Header
pub mod RoundTrip
pub mod Reply
pub mod Grows
pub mod Answers
use redisproxy.Base.{
  ℕ, zero, suc, ◌+◌, ◌-◌, Bool, true, false, Option, none, some, List, [], ◌∷◌, ◌++◌, Bytes, length,
  drop, ◌==◌, if◌then◌else◌,
}
use redisproxy.Base.Int.{ℤ, pos, negsuc, ◌+ℤ◌, ◌==ℤ◌, ltb_ℤ, to_size}
use redisproxy.Error.{Error, ok, try_again, not_found, out_of_bound, is_none, equal}
use redisproxy.Buffer.View
use redisproxy.Reader
use redisproxy.Reader.{Reader}
use redisproxy.Cmd.{Cmd, append_arg}

-- `multibulkLen_`, `multibulkIndex_` and `bulkLen_`. The index only counts up from 0.
pub record Multi : Type 0 where
  pub multibulk_len : ℤ
  pub multibulk_index : ℕ
  pub bulk_len : ℤ

-- The constructor, and `Reset`.
abbrev pub initial : Multi
initial = record { multibulk_len = pos 0; multibulk_index = 0; bulk_len = pos 0 }

-- `pbuf->Append( buf.Data(), buf.Size() )`, if there is a `pbuf`.
abbrev pub echo : Option Bytes → Bytes → Option Bytes
echo none line = none
echo (some pbuf) line = some (pbuf ++ line)

-- `readInt32( i, br, pbuf )`: the status, `*i` after the call, the reader, and what `pbuf` holds.
unfoldable pub read_int32 : ℤ → Reader → Option Bytes → Error × ℤ × Reader × Option Bytes
read_int32 i br pbuf =
    let (err, line, br') = Reader.read_until br [] b'\n' 1 in
    if is_none err
    then (ok, Reader.parse_int32 line 1 (Reader.rest br'), br', echo pbuf line)
    else (if equal err not_found then try_again else err, i, br', pbuf)

-- How many rounds the loops below still make: `multibulkLen_ - multibulkIndex_`.
abbrev pub rounds : Multi → ℕ
rounds m = elim m.multibulk_len [ pos n ↦ n - m.multibulk_index | negsuc n ↦ 0 ]

-- The number of bytes of a bulk with its end, as the `std::size_t` argument of `Read`.
abbrev pub bulk_size : Multi → ℕ
bulk_size m = to_size (m.bulk_len +ℤ pos 2)

abbrev pub next_bulk : Multi → Multi
next_bulk m = record m { multibulk_index = m.multibulk_index + 1; bulk_len = pos 0 }

abbrev pub Request : Type 0
Request = Error × Multi × Cmd × Reader

-- `if ( bulkLen_ == 0 ) { … }` of `HandleRequest`
unfoldable pub request_bulk_len : Multi → Reader → Error × Multi × Reader
request_bulk_len m br =
    if m.bulk_len ==ℤ pos 0
    then (let (err, n, br', _) = read_int32 m.bulk_len br none in
        (err, record m { bulk_len = n }, br'))
    else (ok, m, br)

-- One round of the loop of `HandleRequest`; `true` means that the loop goes on.
unfoldable pub request_round : Multi → Cmd → Reader → Bool × Request
request_round m cmd br =
    let (err, m', br') = request_bulk_len m br in
    if is_none err
    then (let (err', buf, br'') = Reader.read br' [] (bulk_size m') in
        if is_none err'
        then (true, (ok, next_bulk m', append_arg cmd (View.offset buf 0 (negsuc 1)), br''))
        else (false, (if equal err' out_of_bound then try_again else err', m', cmd, br'')))
    else (false, (err, m', cmd, br'))

unfoldable pub request_loop : ℕ → Multi → Cmd → Reader → Request
request_loop zero m cmd br = (ok, m, cmd, br)
request_loop (suc n) m cmd br =
    let (more, out) = request_round m cmd br in
    let again = request_loop n out.1 out.2 out.3 in if more then again else out

-- `MultibulkParser::HandleRequest`
unfoldable pub handle_request : Multi → Cmd → Reader → Request
handle_request m cmd br =
    if m.multibulk_len ==ℤ pos 0
    then (let (err, n, br', _) = read_int32 m.multibulk_len br none in
        let m' = record m { multibulk_len = n } in
        if is_none err then request_loop (rounds m') m' cmd br' else (err, m', cmd, br'))
    else request_loop (rounds m) m cmd br

abbrev pub Response : Type 0
Response = Error × Multi × Bytes × Reader

abbrev pub held : Bytes → Option Bytes → Bytes
held pbuf none = pbuf
held pbuf (some pbuf') = pbuf'

-- One round of the loop of `HandleResponse`; `true` means that the loop goes on. First the part
-- from `br.Read` on.
unfoldable pub response_body : Multi → Bytes → Reader → Bool × Response
response_body m pbuf br =
    let (err, pbuf', br') = Reader.read br pbuf (bulk_size m) in
    if is_none err
    then (true, (ok, next_bulk m, pbuf', br'))
    else (false, (if equal err out_of_bound then try_again else err, m, pbuf', br'))

unfoldable pub response_round : Multi → Bytes → Reader → Bool × Response
response_round m pbuf br =
    if m.bulk_len ==ℤ pos 0
    then (let (err, n, br', echoed) = read_int32 m.bulk_len br (some pbuf) in
        let m' = record m { bulk_len = n } in
        if is_none err
        then (if ltb_ℤ (pos 0) n
            then response_body m' (held pbuf echoed) br'
            else (true, (ok, next_bulk m, held pbuf echoed, br')))
        else (false, (err, m', held pbuf echoed, br')))
    else response_body m pbuf br

unfoldable pub response_loop : ℕ → Multi → Bytes → Reader → Response
response_loop zero m pbuf br = (ok, m, pbuf, br)
response_loop (suc n) m pbuf br =
    let (more, out) = response_round m pbuf br in
    let again = response_loop n out.1 out.2 out.3 in if more then again else out

-- `MultibulkParser::HandleResponse`
unfoldable pub handle_response : Multi → Bytes → Reader → Response
handle_response m pbuf br =
    let single = record m { multibulk_len = pos 1 } in
    if m.multibulk_len ==ℤ pos 0
    then (if Reader.current br == b'*'
        then (let (err, n, br', echoed) = read_int32 m.multibulk_len br (some pbuf) in
            let m' = record m { multibulk_len = n } in
            if is_none err
            then response_loop (rounds m') m' (held pbuf echoed) br'
            else (err, m', held pbuf echoed, br'))
        else response_loop (rounds single) single pbuf br)
    else response_loop (rounds m) m pbuf br
