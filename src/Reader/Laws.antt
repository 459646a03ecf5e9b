-- ===== src/Reader/Laws.antt =====
-- What a read of buffer_reader.cpp takes from the input that is left.
use redisproxy.Base.{
  ℕ, zero, suc, ◌+◌, ◌-◌, ◌≤◌, ◌<◌, ◌≡◌, ◌∙◌, ap, sym, refl, true, false, Bytes, [], ◌∷◌, ◌++◌,
  append_assoc, length, length-append, length-drop, drop, drop-drop, drop-append, take-append,
  get_or, arith, ltb, le→ltb, lt→ltb, le→leb, lt→leb, ◌==◌,
}
use redisproxy.Base.Memchr.{Lacks, memchr-append}
use redisproxy.Error.{ok, out_of_bound}
use redisproxy.Buffer.View
use redisproxy.Reader.{Reader, eof, rest, take_next, read_until, read, current}

-- The reader `n` bytes further on.
abbrev pub advance : Reader → ℕ → Reader
advance br n = record br { offset = br.offset + n }

-- `s` is left to read.
abbrev pub At : Reader → Bytes → Type 0
At br s = drop br.offset br.buffer ≡ s

pub At-advance : (br : Reader) (a b : Bytes) → At br (a ++ b) → At (advance br (length a)) b
At-advance br a b h =
    sym (drop-drop br.offset (length a) br.buffer) ∙ ap (drop (length a)) h ∙ drop-append a b

pub length-At : (br : Reader) (s : Bytes) → At br s → length br.buffer - br.offset ≡ length s
length-At br s h = sym (length-drop br.offset br.buffer) ∙ ap length h

pub eof-At : (br : Reader) (s : Bytes) → At br s → 0 < length s → eof br ≡ false
unfolding eof
eof-At br s h pos_s = lt→leb _ _ (omega (arith, length-At br s h))

pub rest-At : (br : Reader) (s : Bytes) → At br s → rest br ≡ s
unfolding rest View.offset
rest-At br s h = h

get_or-drop : (xs : Bytes) (i x : ℕ) (s : Bytes) → drop i xs ≡ x ∷ s → get_or xs i 0 ≡ x
get_or-drop [] zero x s h = cc
get_or-drop [] (suc i) x s h = cc
get_or-drop (y ∷ xs) zero x s h = ground arith
get_or-drop (y ∷ xs) (suc i) x s h = get_or-drop xs i x s h

pub current-At : (br : Reader) (x : ℕ) (s : Bytes) → At br (x ∷ s) → current br ≡ x
unfolding current
current-At br x s h = rw (eof-At br (x ∷ s) h (omega arith)) (get_or-drop br.buffer br.offset x s h)

pub take_next-At :
    (br : Reader) (buf a b : Bytes)
    → At br (a ++ b)
    → 0 < length a
    → take_next br buf (length a) ≡ (ok, buf ++ a, advance br (length a))
unfolding take_next
take_next-At br buf a b h pos_a =
    let r = rest-At br (a ++ b) h in
    let z : (length a == 0) ≡ false = ground arith in
    let t : ltb (length (a ++ b)) (length a) ≡ false =
      le→ltb (length (a ++ b)) (length a) (omega (arith, length-append a b)) in
    rw (r, z, t, take-append a b)

-- `ReadUntil` for a byte, the byte included.
pub read_until-At :
    (br : Reader) (buf a b : Bytes) (ch : ℕ)
    → Lacks ch a
    → At br (a ++ ch ∷ b)
    → read_until br buf ch 1 ≡ (ok, buf ++ (a ++ ch ∷ []), advance br (length (a ++ ch ∷ [])))
unfolding read_until
read_until-At br buf a b ch lacks h =
    let s = a ++ ch ∷ b in
    let line = a ++ ch ∷ [] in
    let l : length line ≡ length a + 1 = omega (arith, length-append a (ch ∷ [])) in
    let h' : At br (line ++ b) = h ∙ sym (append_assoc a (ch ∷ []) b) in
    rw
      (
        eof-At br s h (omega (arith, length-append a (ch ∷ b))),
        rest-At br s h,
        memchr-append ch a b lacks,
      )
      (ap (take_next br buf) (sym l) ∙ take_next-At br buf line b h' (omega (arith, l)))

-- `Read` of bytes that are there.
pub read-At :
    (br : Reader) (buf a b : Bytes)
    → At br (a ++ b)
    → 0 < length a
    → read br buf (length a) ≡ (ok, buf ++ a, advance br (length a))
unfolding read
read-At br buf a b h pos_a =
    let l = length-At br (a ++ b) h in
    let n = length-append a b in
    let t : ltb (length br.buffer - br.offset) (length a) ≡ false =
      le→ltb (length br.buffer - br.offset) (length a) (omega (arith, l, n)) in
    rw (eof-At br (a ++ b) h (omega (arith, n)), t) (take_next-At br buf a b h pos_a)

pub eof_all : (br : Reader) → length br.buffer ≤ br.offset → eof br ≡ true
unfolding eof
eof_all br h = le→leb (length br.buffer) br.offset h

-- `Read` of more than is left takes nothing.
pub read_short :
    (br : Reader) (buf s : Bytes) (n : ℕ)
    → At br s
    → length s < n
    → read br buf n ≡ (out_of_bound, buf, br)
unfolding read
read_short br buf [] n h lt = rw (eof_all br (omega (arith, length-At br [] h))) refl
read_short br buf (x ∷ s) n h lt =
    let z = eof-At br (x ∷ s) h (omega arith) in
    let t : ltb (length br.buffer - br.offset) n ≡ true =
      lt→ltb (length br.buffer - br.offset) n (omega (arith, length-At br (x ∷ s) h)) in
    rw (z, t) refl
