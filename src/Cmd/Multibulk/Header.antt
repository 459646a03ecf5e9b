-- ===== src/Cmd/Multibulk/Header.antt =====
-- The header lines of the RESP2 format, as `readInt32` of cmd.cpp reads them.
use redisproxy.Base.{
  ℕ, suc, ◌+◌, ◌^◌, ◌<◌, ◌≡◌, ◌≢◌, ◌∙◌, ap, sym, refl, false, Option, Bytes, [], ◌∷◌, ◌++◌,
  append_assoc, length, length-append, arith, leb, lt→leb, ◌==◌,
}
use redisproxy.Base.Int.{ℤ, pos}
use redisproxy.Base.Decimal.{show, atoi, atoi-show, show-Lacks}
use redisproxy.Base.Memchr.{Lacks, Lacks-append, Lacks-cons, Lacks-nil}
use redisproxy.Error.{ok}
use redisproxy.Reader.{Reader, current, read_until, parse_int32}
use redisproxy.Reader.Laws.{At, At-advance, advance, rest-At, read_until-At, current-At}
use redisproxy.Cmd.{header, crlf}
use redisproxy.Cmd.Multibulk.{read_int32, echo}

-- The line without its end of line mark.
abbrev front : ℕ → ℕ → Bytes
front mark n = mark ∷ (show n ++ b'\r' ∷ [])

header-front : (mark n : ℕ) → header mark n ≡ front mark n ++ b'\n' ∷ []
unfolding header
header-front mark n = ap (◌∷◌ mark) (sym (append_assoc (show n) (b'\r' ∷ []) (b'\n' ∷ [])))

front-Lacks : (mark n : ℕ) → mark ≢ b'\n' → Lacks b'\n' (front mark n)
front-Lacks mark n ne = Lacks-cons b'\n' mark (show n ++ b'\r' ∷ []) ne (
    Lacks-append b'\n' (show n) (b'\r' ∷ []) (show-Lacks b'\n' n refl)
      (Lacks-cons b'\n' b'\r' [] (omega arith) (Lacks-nil b'\n')))

pub parse_int32-header :
    (mark n : ℕ) (post : Bytes) → n < 2 ^ 31 → parse_int32 (header mark n) 1 post ≡ pos n
unfolding parse_int32 header
parse_int32-header mark n post small =
    let l : length (show n ++ crlf) ≡ length (show n) + 2 = length-append (show n) crlf in
    let t : leb (suc (length (show n ++ crlf))) 1 ≡ false = lt→leb _ _ (omega (arith, l)) in
    let z : (suc (length (show n ++ crlf)) == 0) ≡ false = ground arith in
    rw (z, t)
      (ap atoi (append_assoc (show n) crlf post) ∙ atoi-show n b'\r' (b'\n' ∷ post) small refl)

-- A header line that is there is read as its number, and the reader stands behind it.
pub read_int32-At :
    (br : Reader) (mark n : ℕ) (post : Bytes) (i : ℤ) (pbuf : Option Bytes)
    → mark ≢ b'\n'
    → n < 2 ^ 31
    → At br (header mark n ++ post)
    → read_int32 i br pbuf
      ≡ (ok, pos n, advance br (length (header mark n)), echo pbuf (header mark n))
unfolding read_int32
read_int32-At br mark n post i pbuf ne small h =
    let e = header-front mark n in
    let h' : At br (front mark n ++ b'\n' ∷ post) =
      h ∙ ap (λ w. w ++ post) e ∙ append_assoc (front mark n) (b'\n' ∷ []) post in
    let r : read_until br [] b'\n' 1 ≡ (ok, header mark n, advance br (length (header mark n))) =
      read_until-At br [] (front mark n) post b'\n' (front-Lacks mark n ne) h'
      ∙ ap (λ w. (ok, w, advance br (length w))) (sym e) in
    let s =
      rest-At (advance br (length (header mark n))) post (At-advance br (header mark n) post h) in
    rw (r, s, parse_int32-header mark n post small)

-- The first byte of a header line is its mark.
pub current-header :
    (br : Reader) (mark n : ℕ) (post : Bytes) → At br (header mark n ++ post) → current br ≡ mark
unfolding header
current-header br mark n post h = current-At br mark ((show n ++ crlf) ++ post) h

pub header_pos : (mark n : ℕ) → 0 < length (header mark n)
unfolding header
header_pos mark n = omega arith
