-- ===== src/Buffer/Window.antt =====
-- The window of a buffer, and how `Offset` of buffer.cpp moves it.
use redisproxy.Base.{
  ℕ, take-sub-drop, drop-min, take-take-min, zero, suc, ◌+◌, ◌-◌, ◌^◌, ◌≤◌, ◌<◌, ◌≡◌, ◌≢◌, ◌∙◌, sym,
  ap, refl, some, Bytes, length, take, drop, arith, length-take, length-drop, drop-drop, take-drop,
}
use redisproxy.Base.Int.{ℤ, pos, negsuc, pos_part, neg_part}
use Prim.Native.Nat.{min}
use redisproxy.Mem.{Heap, Block}
use redisproxy.Mem.Laws.{IsBlock}
use redisproxy.Buffer.{Buffer, offset}
use redisproxy.Buffer.View

-- The buffer holds a reference to the block `k`, and its window lies in the block.
pub record IsLive (h : Heap) (b : Buffer) (k : Block) : Type 0 where
  pub ne_null : b.data' ≢ 0
  pub at : h b.data' ≡ some k
  pub block : IsBlock k
  pub offset_le : b.offset_ ≤ b.size_
  pub size_le : b.size_ ≤ length k.bytes

-- The bytes that the buffer shows.
abbrev pub window : Block → Buffer → Bytes
window k b = drop b.offset_ (take b.size_ k.bytes)

module _ {h : Heap} {b : Buffer} {k : Block} (v : IsLive h b k) where
  pub length-window : length (window k b) ≡ b.size_ - b.offset_
  length-window =
      omega (arith, length-drop b.offset_ (take b.size_ k.bytes), length-take b.size_ k.bytes, v)

-- The window of `b` after `Offset`, where the size becomes `s`.
module _ {h : Heap} {b : Buffer} {k : Block} (v : IsLive h b k) where
  moved :
      (n s : ℕ) (r : Buffer)
      → s ≤ b.size_
      → r.size_ ≡ s
      → r.offset_ ≡ min (b.offset_ + n) s
      → window k r ≡ drop n (drop b.offset_ (take s k.bytes))
  moved n s r le es eo =
      (λ i. drop (eo i) (take (es i) k.bytes))
      ∙ drop-min (b.offset_ + n) s k.bytes (omega (arith, v))
      ∙ sym (drop-drop b.offset_ n (take s k.bytes))

  IsLive-moved :
      (n s : ℕ) (r : Buffer)
      → s ≤ b.size_
      → r.data' ≡ b.data'
      → r.size_ ≡ s
      → r.offset_ ≡ min (b.offset_ + n) s
      → IsLive h r k
  IsLive-moved n s r le ed es eo = record {
    ne_null = rw ed v.ne_null;
    at = rw ed v.at;
    block = v.block;
    offset_le = omega arith;
    size_le = omega (arith, v);
  }

  -- The size that `Offset( start, length )` leaves.
  abbrev new_size : ℕ → ℤ → ℕ
  new_size n (pos zero) = b.size_
  new_size n (pos (suc m)) = min (b.offset_ + n + suc m) b.size_
  new_size n (negsuc m) = b.size_ - suc m

  offset_fields :
      (n : ℕ) (z : ℤ)
      → n < 2 ^ 31
      → b.size_ < 2 ^ 32
      → pos_part z < 2 ^ 31
      → neg_part z < 2 ^ 31
      → ((offset b (pos n) z).data' ≡ b.data')
        × ((offset b (pos n) z).size_ ≡ new_size n z)
        × ((offset b (pos n) z).offset_ ≡ min (b.offset_ + n) (new_size n z))
  unfolding offset
  offset_fields n (pos zero) hn hs hp hm =
      (refl, ground (arith, v.offset_le), ground (arith, v.offset_le))
  offset_fields n (pos (suc m)) hn hs hp hm =
      (refl, ground (arith, v.offset_le), ground (arith, v.offset_le))
  offset_fields n (negsuc m) hn hs hp hm =
      (refl, ground (arith, v.offset_le), ground (arith, v.offset_le))

  new_size_view :
      (n : ℕ) (z : ℤ)
      → (new_size n z ≤ b.size_)
        × (drop n (drop b.offset_ (take (new_size n z) k.bytes)) ≡ View.offset (window k b) n z)
  unfolding View.offset
  new_size_view n (pos zero) = (omega arith, refl)
  new_size_view n (pos (suc m)) = (
    omega arith,
    drop-drop b.offset_ n _
        ∙ ap (drop (b.offset_ + n)) (sym (take-take-min (b.offset_ + n + suc m) b.size_ k.bytes))
        ∙ sym (take-drop (suc m) (b.offset_ + n) (take b.size_ k.bytes))
        ∙ ap (take (suc m)) (sym (drop-drop b.offset_ n (take b.size_ k.bytes))),
  )
  new_size_view n (negsuc m) = (
    omega arith,
    ap (drop n) (
        sym (take-sub-drop b.offset_ b.size_ (suc m) k.bytes)
        ∙ ap (λ l. take (l - suc m) (window k b)) (sym (length-window v))),
  )

  -- `Offset( n, z )` of a live buffer keeps it live, on the same block, and changes the bytes that
  -- it shows as the view says: `n` bytes are skipped; a positive `z` then keeps at most `z` bytes,
  -- and a negative one takes `-z` bytes off the end, never more than there are.
  pub offset_view :
      (n : ℕ) (z : ℤ)
      → n < 2 ^ 31
      → b.size_ < 2 ^ 32
      → pos_part z < 2 ^ 31
      → neg_part z < 2 ^ 31
      → IsLive h (offset b (pos n) z) k
        × (window k (offset b (pos n) z) ≡ View.offset (window k b) n z)
  offset_view n z hn hs hp hm =
      let (ed, es, eo) = offset_fields n z hn hs hp hm in
      let (le, e) = new_size_view n z in
      (
        IsLive-moved n (new_size n z) (offset b (pos n) z) le ed es eo,
        moved n (new_size n z) (offset b (pos n) z) le es eo ∙ e,
      )
