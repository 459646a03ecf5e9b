-- ===== src/Error.antt =====
-- src/error.h and src/error.cpp: an error is its code.
use redisproxy.Base.{Bool, Bytes, [], ◌∷◌, ◌++◌, ◌+◌}
use redisproxy.Base.Decimal.{show}
use redisproxy.Base.Int.{ℤ, pos, negsuc, ◌==ℤ◌}

-- `class Error`. The message is not kept: the code that kept it is commented out.
pub record Error : Type 0 where
  pub code : ℤ

-- `Error( int code, const char* msg )` through `Set`.
abbrev pub of_code : ℤ → Error
of_code c = record { code = c }

abbrev pub ok : Error
ok = of_code (pos 0)

abbrev pub closed : Error
closed = of_code (negsuc 9)

abbrev pub empty : Error
empty = of_code (negsuc 99)

abbrev pub full : Error
full = of_code (negsuc 100)

abbrev pub eof : Error
eof = of_code (negsuc 0)

abbrev pub try_again : Error
try_again = of_code (negsuc 302)

abbrev pub init_failed : Error
init_failed = of_code (negsuc 499)

abbrev pub not_implemented : Error
not_implemented = of_code (negsuc 404)

abbrev pub unknown : Error
unknown = of_code (negsuc 502)

abbrev pub exhausted : Error
exhausted = of_code (negsuc 501)

abbrev pub out_of_bound : Error
out_of_bound = of_code (negsuc 503)

abbrev pub not_found : Error
not_found = of_code (negsuc 403)

-- `Error::None`
abbrev pub is_none : Error → Bool
is_none e = e.code ==ℤ pos 0

-- `Error::Equal`, which `==` and `!=` call.
abbrev pub equal : Error → Error → Bool
equal a b = a.code ==ℤ b.code

-- `ss << code`
abbrev show_code : ℤ → Bytes
show_code (pos n) = show n
show_code (negsuc n) = b'-' ∷ show (n + 1)

-- `Error::String`. `Message` is always the null pointer.
unfoldable pub to_text : Error → Bytes
unfolding show
to_text e = b'[' ∷ (show_code e.code ++ b']' ∷ [])
