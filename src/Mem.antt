-- ===== src/Mem.antt =====
-- src/mem_alloc.h and src/mem_alloc.cpp: reference-counted blocks on an explicit heap.
-- A pointer is a number, 0 for `nullptr`. A block stands under the address that `AllocRef` returns,
-- with the two words in front of it: the size that `Alloc` stores and the count of references.
-- An access through a pointer to no block is a fault, `none`. What `malloc` answers is an argument.
pub mod Laws
pub mod Counting
use redisproxy.Base.{
  ℕ, zero, ◌+◌, ◌-◌, ◌%◌, ◌^◌, Bool, true, false, Option, none, some, List, [], ◌∷◌, ◌++◌, Bytes,
  length, take, drop, ◌==◌, ltb, leb, if◌then◌else◌,
}

abbrev pub Ptr : Type 0
Ptr = ℕ

abbrev pub null : Ptr
null = 0

pub record Block : Type 0 where
  -- the word of `Alloc`: the bytes behind it, the count's four bytes included
  pub size : ℕ
  -- the word of `AllocRef`
  pub count : ℕ
  pub bytes : Bytes

abbrev pub Heap : Type 0
Heap = Ptr → Option Block

abbrev pub write : Heap → Ptr → Option Block → Heap
write h p c q = if p == q then c else h q

-- A computation on the heap; `none` is a fault.
abbrev pub M : Type 0 → Type 0
M R = Heap → Option (R × Heap)

abbrev pub fault : {R : Type 0} → M R
fault heap = none

abbrev pub load : Ptr → M Block
load p heap = elim (heap p) [ none ↦ none | some b ↦ some (b, heap) ]

infixl 5 ◌>>=◌
abbrev pub ◌>>=◌ : {R S : Type 0} → M R → (R → M S) → M S
◌>>=◌ act next heap = elim (act heap) [ some (x, heap') ↦ next x heap' | none ↦ none ]

abbrev pub store : Ptr → Option Block → M (Unit {0})
store p c heap = some (tt, write heap p c)

infixl 5 ◌>>◌
abbrev pub ◌>>◌ : {S : Type 0} → M (Unit {0}) → M S → M S
act >> next = act >>= λ _. next

abbrev pub pure : {R : Type 0} → R → M R
pure x heap = some (x, heap)

-- What `malloc` answers: no memory, or an address with the bytes that it finds there.
abbrev pub Malloc : Type 0
Malloc = Option (Ptr × Bytes)

-- `AllocRef` through `Alloc`. The size is a `uint32_t`, and so is the argument of `Alloc`.
unfoldable pub alloc_ref : Malloc → ℕ → M Ptr
alloc_ref none size = pure null
alloc_ref (some (p, found)) size = do
  store p (some (record { size = (size + 4) % 2 ^ 32; count = 1; bytes = found }))
  pure p

unfoldable pub incr_ref : Ptr → M (Unit {0})
incr_ref p = do b ← load p; store p (some (record b { count = (b.count + 1) % 2 ^ 32 }))

-- `DescRef`; the block is freed when its count reaches 0.
unfoldable pub desc_ref : Ptr → M (Unit {0})
desc_ref p = do
  b ← load p
  let count = (b.count + 2 ^ 32 - 1) % 2 ^ 32
  store p (if count == 0 then none else some (record b { count = count }))

unfoldable pub get_ref_count : Ptr → M ℕ
get_ref_count p = do b ← load p; pure b.count

-- `GetSize(ref) - sizeof(uint32_t)`, narrowed to `uint32_t`.
unfoldable pub get_ref_size : Ptr → M ℕ
get_ref_size p = do b ← load p; pure ((b.size + 2 ^ 64 - 4) % 2 ^ 64 % 2 ^ 32)

-- `memcpy` of `src` to place `i` of the bytes of a block; a write past its end is a fault.
abbrev pub splice : Bytes → ℕ → Bytes → Bytes
splice bytes i src = take i bytes ++ (src ++ drop (i + length src) bytes)

unfoldable pub copy_to : Ptr → ℕ → Bytes → M (Unit {0})
copy_to p i src = do
  b ← load p
  if ltb (length b.bytes) (i + length src)
      then fault
      else store p (some (record b { bytes = splice b.bytes i src }))

-- `Realloc` of the unshared block at `m`. A failed `realloc` is not noticed, and the result is then
-- the address 4. Of the bytes that `realloc` answers with, the first are those of the old block.
realloc_own : Malloc → Ptr → ℕ → M Ptr
realloc_own none m size = pure 4
realloc_own (some (p, found)) m size = do
  b ← load m
  store m none
  store p (some (record b { size = (size + 4) % 2 ^ 32; bytes = found }))
  pure p

-- `ReallocRef`. In the shared case `GetSize( m )` reads the word in front of `m`: the count.
unfoldable pub realloc_ref : Malloc → Ptr → ℕ → M Ptr
unfolding realloc_own get_ref_count desc_ref alloc_ref copy_to
realloc_ref answer m size = do
  count ← get_ref_count m
  let own = realloc_own answer m size
  if leb count 1 then own else do
    old ← load m
    desc_ref m
    new_m ← alloc_ref answer size
    word ← get_ref_count m
    copy_to new_m 0 (take (if ltb size word then size else word) old.bytes)
    pure new_m
