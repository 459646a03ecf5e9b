-- ===== src/Reader.antt =====
-- src/buffer_reader.h, src/buffer_reader.cpp and src/utils.cpp, over the bytes that buffers show.
-- A buffer stands here for its bytes: `Buffer.Window` and `Buffer.Share` relate `Offset` and
-- `Append` of buffer.cpp to `View.offset` and `View.append`. Memory does not run out in this layer,
-- and the input is shorter than 2 ^ 31 bytes, so that the narrowing of `offset_` in `Offset` is exact.
pub mod Laws
pub mod Grows
use redisproxy.Base.{
  ℕ, ◌+◌, ◌-◌, Bool, true, false, ◌||◌, Option, none, some, List, [], ◌∷◌, ◌++◌, Bytes, length,
  get_or, drop, ◌==◌, ltb, leb, if◌then◌else◌,
}
use redisproxy.Base.Int.{ℤ, pos}
use redisproxy.Base.Decimal.{atoi}
use redisproxy.Base.Memchr.{memchr}
use redisproxy.Error.{Error, ok, out_of_bound, not_found, is_none}
use redisproxy.Buffer.View

-- `BufferReader`: the buffer that it refers to, and `offset_`.
pub record Reader : Type 0 where
  pub buffer : Bytes
  pub offset : ℕ

unfoldable pub eof : Reader → Bool
eof br = leb (length br.buffer) br.offset

-- `Buffer tmpBuffer( buffer_ ); tmpBuffer.Offset( offset_ );`
unfoldable pub rest : Reader → Bytes
unfolding View.offset
rest br = View.offset br.buffer br.offset (pos 0)

-- `buffer->Append( tmpBuffer, n )` and, if that succeeds, `offset_ += n`.
unfoldable pub take_next : Reader → Bytes → ℕ → Error × Bytes × Reader
unfolding rest View.append
take_next br buf n =
    let (err, buf') = View.append buf (rest br) n in
    if is_none err then (ok, buf', record br { offset = br.offset + n }) else (err, buf', br)

-- `ReadUntil( buffer, ch, extend )`
unfoldable pub read_until : Reader → Bytes → ℕ → ℕ → Error × Bytes × Reader
unfolding eof rest take_next memchr
read_until br buf ch extend =
    if eof br then (out_of_bound, buf, br) else elim (memchr (rest br) ch) [
      | none ↦ (not_found, buf, br)
      | some i ↦ take_next br buf (i + extend)
    ]

-- The loop of `ReadUntil( buffer, chs, extend )` over the bytes looked for.
unfoldable pub read_until_loop : Reader → Bytes → Bytes → ℕ → Error × Bytes × Reader
unfolding take_next memchr rest
read_until_loop br buf [] extend = (not_found, buf, br)
read_until_loop br buf (ch ∷ chs) extend = elim (memchr (rest br) ch) [
  | none ↦ read_until_loop br buf chs extend
  | some i ↦ take_next br buf (i + extend)
]

unfoldable pub read_until_any : Reader → Bytes → Bytes → ℕ → Error × Bytes × Reader
unfolding eof read_until_loop
read_until_any br buf chs extend =
    if eof br then (out_of_bound, buf, br) else read_until_loop br buf chs extend

-- `Read( buffer, length )`
unfoldable pub read : Reader → Bytes → ℕ → Error × Bytes × Reader
unfolding eof take_next
read br buf n =
    if eof br
    then (out_of_bound, buf, br)
    else if ltb (length br.buffer - br.offset) n
    then (out_of_bound, buf, br)
    else take_next br buf n

-- `Next( length )`
unfoldable pub next : Reader → ℕ → Error × Reader
unfolding eof
next br n =
    if eof br
    then (out_of_bound, br)
    else if ltb (length br.buffer - br.offset) n
    then (out_of_bound, br)
    else (ok, record br { offset = br.offset + n })

unfoldable pub current : Reader → ℕ
unfolding eof
current br = if eof br then 0 else get_or br.buffer br.offset 0

unfoldable pub last : Reader → ℕ
last br = if br.offset == 0 then 0 else get_or br.buffer (br.offset - 1) 0

-- `ParseInt32( buffer, start, offset )` of utils.cpp. `atoi` gets no length: it reads on into what
-- lies behind the buffer in memory, which is `behind`. The argument `offset` is not used there.
unfoldable pub parse_int32 : Bytes → ℕ → Bytes → ℤ
unfolding atoi
parse_int32 buffer start behind =
    if (length buffer == 0) || leb (length buffer) start
    then pos 0
    else atoi (drop start (buffer ++ behind))
