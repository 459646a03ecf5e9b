-- ===== src/Buffer.antt =====
-- src/buffer.h and src/buffer.cpp: `class Buffer`, a window into a reference-counted block, on the
-- heap of `Mem`. The `assert` lines are not modelled: the Makefile builds with `-DNDEBUG`.
-- `memcpy` between overlapping ranges is undefined, and here a fault.
pub mod View
pub mod Window
pub mod Grow
pub mod Room
pub mod Capacity
pub mod Append
pub mod Share
mod Tests
use redisproxy.Base.{
  ℕ, ◌+◌, ◌-◌, ◌%◌, ◌^◌, Bool, true, false, not, ◌&&◌, Option, none, some, List, [], ◌∷◌, ◌++◌,
  Bytes, length, take, drop, get_elem?, ◌==◌, ltb, leb, if◌then◌else◌,
}
use redisproxy.Base.Int.{ℤ, pos, negsuc, pos_part, neg_part, sub_ℕ, ltb_ℤ, to_size}
use redisproxy.Error.{Error, ok, out_of_bound, exhausted, is_none}
use redisproxy.Mem.{
  Ptr, null, Block, Heap, Malloc, M, pure, ◌>>=◌, ◌>>◌, fault, load, store, alloc_ref, incr_ref,
  desc_ref, get_ref_count, get_ref_size, copy_to,
}

-- `data_`, `size_` and `offset_`: the window is `data_[offset_ .. size_)`.
pub record Buffer : Type 0 where
  pub data' : Ptr
  pub size_ : ℕ
  pub offset_ : ℕ

-- `std::size_t` arithmetic.
abbrev pub add64 : ℕ → ℕ → ℕ
add64 a b = (a + b) % 2 ^ 64

abbrev pub sub64 : ℕ → ℕ → ℕ
sub64 a b = (a + 2 ^ 64 - b) % 2 ^ 64

-- `Buffer()`
abbrev pub fresh : Buffer
fresh = record { data' = null; size_ = 0; offset_ = 0 }

-- `Buffer( const char* data, std::size_t size )`. A failed allocation is not noticed there.
unfoldable pub from_bytes : Malloc → Bytes → M Buffer
unfolding alloc_ref copy_to
from_bytes m bytes = if length bytes == 0 then pure fresh else do
  p ← alloc_ref m (length bytes % 2 ^ 32)
  copy_to p 0 bytes
  pure (record { data' = p; size_ = length bytes; offset_ = 0 })

-- `~Buffer()`
unfoldable pub destroy : Buffer → M (Unit {0})
unfolding desc_ref
destroy b = if b.data' == null then pure tt else desc_ref b.data'

-- `Buffer( const Buffer& )` and `operator=`: `b` is the buffer assigned to.
unfoldable pub assign : Buffer → Buffer → M Buffer
unfolding destroy incr_ref
assign b other = do
  destroy b
  if other.data' == null then pure tt else incr_ref other.data'
  pure other

abbrev pub size : Buffer → ℕ
size b = sub64 b.size_ b.offset_

abbrev pub is_empty : Buffer → Bool
is_empty b = size b == 0

unfoldable pub capacity : Buffer → M ℕ
unfolding get_ref_size
capacity b = if b.data' == null then pure 0 else get_ref_size b.data'

unfoldable pub free_size : Buffer → M ℕ
unfolding capacity
free_size b = if b.data' == null then pure 0 else do c ← capacity b; pure (sub64 c b.size_)

-- The bytes from `start` to `start + n` of the block; a read past its end is a fault.
unfoldable pub read_at : Ptr → ℕ → ℕ → M Bytes
read_at p start n = do
  b ← load p
  if ltb (length b.bytes) (start + n) then fault else pure (take n (drop start b.bytes))

-- `operator[]`; `none` is the exception `OutOfBound`.
unfoldable pub index : Buffer → ℕ → M (Option ℕ)
index b i =
    if leb (size b) i
    then pure none
    else do block ← load b.data'; pure (get_elem? block.bytes (b.offset_ + i))

-- `Clear`
unfoldable pub clear : Buffer → M Buffer
unfolding get_ref_count desc_ref
clear b = if b.data' == null then pure fresh else do
  n ← get_ref_count b.data'
  if ltb 1 n then desc_ref b.data' >> pure fresh else pure (record b { size_ = 0; offset_ = 0 })

-- `-z` of an `int32_t`
abbrev pub negate : ℤ → ℤ
negate z = sub_ℕ (neg_part z) (pos_part z)

-- `Offset( start, length )`. Both arguments are `int32_t` values.
unfoldable pub offset : Buffer → ℤ → ℤ → Buffer
offset b start length =
    let offset' = add64 b.offset_ (to_size start) in
    let new_size =
      if ltb_ℤ (pos 0) length
      then add64 offset' (to_size length)
      else if ltb (to_size (negate length)) b.size_
      then sub64 b.size_ (to_size (negate length))
      else 0 in
    let size' = if ltb new_size b.size_ then new_size else b.size_ in
    record b { size_ = size'; offset_ = if ltb size' offset' then size' else offset' }

unfoldable pub append_size : Buffer → ℕ → M (Error × Buffer)
unfolding capacity
append_size b n = do
  c ← capacity b
  if ltb c (add64 b.size_ n)
      then pure (out_of_bound, b)
      else pure (ok, record b { size_ = add64 b.size_ n })

-- The three ways in which `AppendCapacity` makes room for a request that does not fit.
-- The block is this buffer's alone, and what lies before the window is enough: move the window.
unfoldable pub compact : Buffer → M (Error × Buffer)
unfolding read_at copy_to
compact b = if ltb b.offset_ (size b) && not (b.offset_ == 0) then fault else do
  window ← read_at b.data' b.offset_ (size b)
  copy_to b.data' 0 window
  pure (ok, record b { size_ = sub64 b.size_ b.offset_; offset_ = 0 })

-- Move to a new block.
unfoldable pub relocate : Malloc → Buffer → ℕ → M (Error × Buffer)
unfolding alloc_ref read_at copy_to desc_ref
relocate m b need = do
  p ← alloc_ref m (sub64 need b.offset_ % 2 ^ 32)
  if p == null then pure (exhausted, b) else do
    window ← read_at b.data' b.offset_ (size b)
    copy_to p 0 window
    desc_ref b.data'
    pure (ok, record { data' = p; size_ = sub64 b.size_ b.offset_; offset_ = 0 })

-- The first block.
unfoldable pub allocate : Malloc → Buffer → ℕ → M (Error × Buffer)
unfolding alloc_ref
allocate m b need = do
  p ← alloc_ref m (need % 2 ^ 32)
  if p == null then pure (exhausted, b) else pure (ok, record { data' = p; size_ = 0; offset_ = 0 })

unfoldable pub append_capacity : Malloc → Buffer → ℕ → M (Error × Buffer)
unfolding capacity allocate compact relocate get_ref_count
append_capacity m b n = do
  c ← capacity b
  let need = add64 n b.size_
  if leb need c then pure (ok, b) else if b.data' == null then allocate m b need else do
    count ← get_ref_count b.data'
    if count == 1 && leb (need - c) b.offset_ then compact b else relocate m b need

-- `Append( const char* data, std::size_t size )`: `src` is the bytes at `data`.
unfoldable pub append_bytes : Malloc → Buffer → Bytes → M (Error × Buffer)
unfolding capacity append_capacity copy_to append_size
append_bytes m b src = do
  c ← capacity b
  (err, b') ←
      if ltb c (add64 (length src) b.size_) then append_capacity m b (length src) else pure (ok, b)
  if is_none err
      then (do
        if length src == 0 then pure tt else copy_to b'.data' b'.size_ src
        append_size b' (length src))
      else pure (err, b')

-- `Append( const Buffer& buffer, std::size_t size )` once its `size` is settled.
unfoldable pub append_first : Malloc → Buffer → Buffer → ℕ → M (Error × Buffer)
unfolding incr_ref read_at
append_first m b other n =
    if ltb (size other) n
    then pure (out_of_bound, b)
    else if b.data' == null
    then (do
      incr_ref other.data'
      pure (
        ok,
        record { data' = other.data'; size_ = add64 other.offset_ n; offset_ = other.offset_ },
      ))
    else if b.data' == other.data'
    then pure (ok, record b { size_ = add64 b.size_ n })
    else do src ← read_at other.data' other.offset_ n; append_bytes m b src

-- The whole of `Append( const Buffer& buffer, std::size_t size )`; 0 stands for all of `other`.
unfoldable pub append : Malloc → Buffer → Buffer → ℕ → M (Error × Buffer)
unfolding append_first
append m b other n = append_first m b other (if n == 0 then size other else n)
