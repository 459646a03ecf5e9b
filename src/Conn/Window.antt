-- ===== src/Conn/Window.antt =====
-- Where the send buffer of a connection lies: `AppendCapacity`, `Offset` and `Clear` of src/buffer.cpp, as
-- src/connections.cpp calls them.
use redisproxy.Base.{ℕ, Bool, ◌||◌, ◌+◌, ◌-◌, ltb, leb, if◌then◌else◌}

-- Where the bytes of a send buffer lie: the place of the first in the block (`offset_`), the block's
-- capacity, 0 where there is none, and whether `AppendCapacity` has called `memcpy` on two ranges that
-- overlap. C leaves open what that does; from there on the model is about a `memcpy` that moves the bytes.
pub record Place : Type 0 where
  pub offset : ℕ
  pub capacity : ℕ
  pub overlapped : Bool

-- `AppendCapacity( n )` of a send buffer that shows `size` bytes. No other buffer has its block: what is
-- sent is copied into it. The first block and a new block are of the same size.
unfoldable pub append_place : Place → ℕ → ℕ → Place
append_place s size n =
    let need = s.offset + size + n in
    if leb need s.capacity
    then s
    else if leb (need - s.capacity) s.offset
    then record s { offset = 0; overlapped = s.overlapped || ltb s.offset size }
    else record s { offset = 0; capacity = size + n }

-- `Offset( n )`, and `Clear`, which keeps the block.
abbrev pub past : ℕ → Place → Place
past n s = record s { offset = s.offset + n }

abbrev pub cleared : Place → Place
cleared s = record s { offset = 0 }
