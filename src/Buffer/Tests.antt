-- ===== src/Buffer/Tests.antt =====
-- The buffers of buffer.cpp and the blocks of mem_alloc.cpp on a small heap.
use redisproxy.Base.{ℕ, ◌≡◌, refl, none, some, Bytes, [], ◌∷◌, length, arith}
use redisproxy.Base.Int.{pos, negsuc}
use redisproxy.Error.{ok}
use redisproxy.Mem.{Heap, Block, write}
use redisproxy.Mem.Laws.{IsBlock, Answers}
use redisproxy.Mem.Counting.{takes, gives, run_refs, counted, count_after, run_refs-count_after}
use redisproxy.Buffer.{Buffer, fresh, offset, append, append_bytes, append_capacity}
use redisproxy.Buffer.View
use redisproxy.Buffer.Window.{IsLive, window, offset_view}
use redisproxy.Buffer.Capacity.{MakesRoom, append_capacity-MakesRoom}
use redisproxy.Buffer.Append.{Appends, append_bytes-Appends}
use redisproxy.Buffer.Share.{append-copies, append-shares}

-- A block of six bytes with one reference, one of three bytes with two, and a heap with both.
abbrev own : Block
own = record { size = 10; count = 1; bytes = 1 ∷ 2 ∷ 3 ∷ 4 ∷ 5 ∷ 6 ∷ [] }

abbrev joint : Block
joint = record { size = 7; count = 2; bytes = 7 ∷ 8 ∷ 9 ∷ [] }

abbrev empty_heap : Heap
empty_heap q = none

abbrev heap : Heap
heap = write (write empty_heap 16 (some own)) 32 (some joint)

-- 2, 3, 4, 5
abbrev middle : Buffer
middle = record { data' = 16; size_ = 5; offset_ = 1 }

-- 5
abbrev late : Buffer
late = record { data' = 16; size_ = 5; offset_ = 4 }

-- 7, 8, 9
abbrev whole : Buffer
whole = record { data' = 32; size_ = 3; offset_ = 0 }

own-IsBlock : IsBlock own
own-IsBlock = omega arith

joint-IsBlock : IsBlock joint
joint-IsBlock = omega arith

middle-IsLive : IsLive heap middle own
middle-IsLive = record {
  ne_null = ground arith;
  at = refl;
  block = own-IsBlock;
  offset_le = omega arith;
  size_le = omega arith;
}

late-IsLive : IsLive heap late own
late-IsLive = record {
  ne_null = ground arith;
  at = refl;
  block = own-IsBlock;
  offset_le = omega arith;
  size_le = omega arith;
}

whole-IsLive : IsLive heap whole joint
whole-IsLive = record {
  ne_null = ground arith;
  at = refl;
  block = joint-IsBlock;
  offset_le = omega arith;
  size_le = omega arith;
}

answers : (n : ℕ) (found : Bytes) → length found ≡ n → Answers heap n 48 found
answers n found e = record { ne_null = ground arith; new = refl; enough = e }

-- One more reference is taken, and then all three are given up.
run_refs-count_after_example :
    run_refs (takes ∷ gives ∷ gives ∷ gives ∷ []) 32 heap
    ≡ counted heap 32 joint (count_after 2 (takes ∷ gives ∷ gives ∷ gives ∷ []))
run_refs-count_after_example =
    run_refs-count_after heap 32 joint (takes ∷ gives ∷ gives ∷ gives ∷ []) refl joint-IsBlock
      (omega arith)

-- skip 1, drop 2 at the end
offset_view_example :
    IsLive heap (offset middle (pos 1) (negsuc 1)) own
    × (window own (offset middle (pos 1) (negsuc 1))
        ≡ View.offset (2 ∷ 3 ∷ 4 ∷ 5 ∷ []) 1 (negsuc 1))
offset_view_example =
    offset_view middle-IsLive 1 (negsuc 1) (omega arith) (omega arith) (omega arith) (omega arith)

append_capacity-MakesRoom_example :
    MakesRoom heap late own 3 (append_capacity (some (48, 0 ∷ 0 ∷ 0 ∷ 0 ∷ [])) late 3 heap)
append_capacity-MakesRoom_example =
    append_capacity-MakesRoom late-IsLive 3 (omega arith) 48 (0 ∷ 0 ∷ 0 ∷ 0 ∷ []) (answers 4 _ refl)
      λ _. omega arith

append_bytes-Appends_example :
    Appends heap late own
      (1 ∷ 1 ∷ 1 ∷ [])
      (append_bytes (some (48, 0 ∷ 0 ∷ 0 ∷ 0 ∷ [])) late (1 ∷ 1 ∷ 1 ∷ []) heap)
append_bytes-Appends_example =
    append_bytes-Appends heap late own late-IsLive (1 ∷ 1 ∷ 1 ∷ []) (omega arith) 48
      (0 ∷ 0 ∷ 0 ∷ 0 ∷ []) (answers 4 _ refl) λ _. omega arith

append-copies_example :
    (b' : Buffer) × (h' : Heap) × (k' : Block) × (append
        (some (48, 0 ∷ 0 ∷ 0 ∷ []))
        late
        whole
        2
        heap
      ≡ some ((ok, b'), h'))
    × IsLive h' b' k'
    × (View.append (5 ∷ []) (7 ∷ 8 ∷ 9 ∷ []) 2 ≡ (ok, window k' b'))
append-copies_example =
    append-copies heap late whole own joint late-IsLive whole-IsLive 2 (omega arith) 48
      (0 ∷ 0 ∷ 0 ∷ []) (omega arith) (omega arith) (ground arith) (answers 3 _ refl)
      λ _. omega arith

append-shares_example :
    (append none fresh whole 2 heap
      ≡ some ((ok, record whole { size_ = 2 }), write heap 32 (some (record joint { count = 3 }))))
    × (View.append [] (7 ∷ 8 ∷ 9 ∷ []) 2 ≡ (ok, 7 ∷ 8 ∷ []))
append-shares_example = append-shares whole-IsLive (omega arith) 2 none (omega arith)
