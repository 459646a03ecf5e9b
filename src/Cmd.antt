-- ===== src/Cmd.antt =====
-- src/cmd.h and src/cmd.cpp: a command, its RESP2 text, and the parsers of requests and responses.
pub mod Inline
pub mod Multibulk
pub mod Parser
mod Tests
use redisproxy.Base.{
  ℕ, zero, suc, ◌+◌, ◌-◌, Bool, true, false, Option, none, some, List, [], ◌∷◌, ◌++◌, Bytes, length,
  get_elem?, ◌==◌, ltb, leb, if◌then◌else◌,
}
use redisproxy.Base.Decimal.{show}
use redisproxy.Error.{Error, ok}

-- `class Cmd`: `argv_`, each argument by the bytes that its buffer shows.
abbrev pub Cmd : Type 0
Cmd = List Bytes

-- A `const Buffer*`: `nullptr`, an element of `argv_`, or an address past its end.
pub data Arg : Type 0 where
  nullptr past_end : Arg
  arg : Bytes → Arg

unfoldable pub get_cmd : Cmd → Arg
get_cmd [] = nullptr
get_cmd (c ∷ argv) = arg c

-- `&argv_[ i ]`
unfoldable pub element : Cmd → ℕ → Arg
element argv i = elim (get_elem? argv i) [ none ↦ past_end | some b ↦ arg b ]

-- `GetArg( i )`, for `i` at least 0.
unfoldable pub get_arg : Cmd → ℕ → Arg
unfolding element
get_arg argv i = if leb (i + 1) (length argv) then element argv (i + 1) else nullptr

unfoldable pub get_arg_size : Cmd → ℕ
get_arg_size argv = if length argv == 0 then 0 else length argv - 1

unfoldable pub is_empty : Cmd → Bool
is_empty argv = length argv == 0

unfoldable pub append_arg : Cmd → Bytes → Cmd
append_arg argv b = argv ++ b ∷ []

-- `Reset`
abbrev pub reset : Cmd → Cmd
reset argv = []

abbrev pub crlf : Bytes
crlf = b'\r' ∷ b'\n' ∷ []

-- A header line: a mark, a number, and the end of the line.
unfoldable pub header : ℕ → ℕ → Bytes
header mark n = mark ∷ (show n ++ crlf)

-- The loop of `FormatRESP2` over the arguments.
unfoldable pub format_args : Cmd → Bytes → Bytes
unfolding header
format_args [] buffer = buffer
format_args (a ∷ argv) buffer = format_args argv (((buffer ++ header b'$' (length a)) ++ a) ++ crlf)

-- `FormatRESP2`, where memory does not run out.
unfoldable pub format_resp2 : Cmd → Bytes → Error × Bytes
unfolding header format_args
format_resp2 argv buffer = (ok, format_args argv (buffer ++ header b'*' (length argv)))
