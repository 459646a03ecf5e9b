-- ===== src/Mem/Laws.antt =====
-- The reference counts of mem_alloc.cpp.
use redisproxy.Base.{
  ℕ, false, ◌++◌, drop, length-append, length-take, length-drop, ltb, le→ltb, ◌+◌, ◌-◌, ◌%◌, ◌^◌,
  ◌<◌, ◌≤◌, ◌≡◌, ◌≢◌, refl, none, some, Bytes, length, take, ◌==◌, arith, if◌then◌else◌,
}
use redisproxy.Mem.{
  splice, copy_to, M, Ptr, Block, Heap, write, ◌>>=◌, alloc_ref, incr_ref, desc_ref, get_ref_size,
  get_ref_count,
}

-- A block in use: its size word is right, and there are references to it.
pub record IsBlock (b : Block) : Type 0 where
  pub sized : b.size ≡ length b.bytes + 4
  pub size_lt : b.size < 2 ^ 32
  pub counted : 0 < b.count
  pub count_lt : b.count < 2 ^ 32

module _ (h : Heap) (p : Ptr) (b : Block) (at : h p ≡ some b) where
  pub incr_ref_at :
      incr_ref p h ≡ some (tt, write h p (some (record b { count = (b.count + 1) % 2 ^ 32 })))
  unfolding incr_ref
  incr_ref_at = rw (at, ◌>>=◌)

  pub desc_ref_at :
      desc_ref p h
      ≡ some (
        tt,
        write h p (
            if (b.count + 2 ^ 32 - 1) % 2 ^ 32 == 0
            then none
            else some (record b { count = (b.count + 2 ^ 32 - 1) % 2 ^ 32 })),
      )
  unfolding desc_ref
  desc_ref_at = rw (at, ◌>>=◌)

  pub get_ref_count_at : get_ref_count p h ≡ some (b.count, h)
  unfolding get_ref_count
  get_ref_count_at = rw (at, ◌>>=◌)

  -- The capacity that `GetRefSize` gives is the number of bytes.
  pub get_ref_size_at : IsBlock b → get_ref_size p h ≡ some (length b.bytes, h)
  unfolding get_ref_size
  get_ref_size_at v =
      let e : (b.size + 2 ^ 64 - 4) % 2 ^ 64 % 2 ^ 32 ≡ length b.bytes = omega arith in
      rw (at, ◌>>=◌, e)

-- One step of a computation.
pub bind_at :
    {A B : Type 0} (m : M A) (f : A → M B) (h : Heap) {a : A} {h' : Heap}
    → m h ≡ some (a, h')
    → (m >>= f) h ≡ f a h'
bind_at m f h e = rw (e, ◌>>=◌)

pub length-splice :
    (bytes : Bytes) (i : ℕ) (src : Bytes)
    → i + length src ≤ length bytes
    → length (splice bytes i src) ≡ length bytes
length-splice bytes i src fits = omega (
  arith,
  length-append (take i bytes) (src ++ drop (i + length src) bytes),
  length-append src (drop (i + length src) bytes),
  length-take i bytes,
  length-drop (i + length src) bytes,
)

pub copy_to_at :
    (h : Heap) (p : Ptr) (b : Block) (i : ℕ) (src : Bytes)
    → h p ≡ some b
    → i + length src ≤ length b.bytes
    → copy_to p i src h ≡ some (tt, write h p (some (record b { bytes = splice b.bytes i src })))
unfolding copy_to
copy_to_at h p b i src at fits =
    let t : ltb (length b.bytes) (i + length src) ≡ false = le→ltb _ _ fits in rw (at, ◌>>=◌, t)

pub alloc_ref_at :
    (h : Heap) (p : Ptr) (found : Bytes) (n : ℕ)
    → alloc_ref (some (p, found)) n h
      ≡ some (p, write h p (some (record { size = (n + 4) % 2 ^ 32; count = 1; bytes = found })))
unfolding alloc_ref
alloc_ref_at h p found n = refl

-- What the caller of `malloc` may rely on: the address is new, and there are `n` bytes behind the
-- two words.
pub record Answers (h : Heap) (n : ℕ) (p : Ptr) (found : Bytes) : Type 0 where
  pub ne_null : p ≢ 0
  pub new : h p ≡ none
  pub enough : length found ≡ n
