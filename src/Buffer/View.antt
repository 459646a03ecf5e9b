-- ===== src/Buffer/View.antt =====
-- What the operations of `class Buffer` promise about the bytes that a buffer shows. The reader, the
-- parsers and the layers above them are modelled over these.
use redisproxy.Base.{
  ℕ, zero, suc, ◌-◌, Option, none, some, Bytes, length, take, drop, ◌++◌, ◌==◌, ltb, leb,
  if◌then◌else◌,
}
use redisproxy.Base.Int.{ℤ, pos, negsuc}
use redisproxy.Error.{Error, ok, out_of_bound, exhausted}

-- `Offset( start, length )`
unfoldable pub offset : Bytes → ℕ → ℤ → Bytes
offset xs start (pos zero) = drop start xs
offset xs start (pos (suc n)) = take (suc n) (drop start xs)
offset xs start (negsuc n) = drop start (take (length xs - suc n) xs)

-- `Append( const Buffer& buffer, std::size_t size )`, where memory does not run out.
unfoldable pub append : Bytes → Bytes → ℕ → Error × Bytes
append xs other n =
    let wanted = if n == 0 then length other else n in
    if ltb (length other) wanted then (out_of_bound, xs) else (ok, xs ++ take wanted other)

-- What `AppendCapacity( n )` promises where it does not move the window over itself, of a buffer with room
-- for `room` bytes behind those that it shows, which it keeps: the status, and the room after it.
-- `grown` is the room that there is once the bytes have been moved; `none` is that `malloc` had no memory.
-- The code of it is `Buffer.append_capacity`, and `Buffer.Capacity` shows that it does this.
unfoldable pub append_capacity : Option ℕ → ℕ → ℕ → Error × ℕ
append_capacity grown room n =
    if leb n room
    then (ok, room)
    else elim grown [ none ↦ (exhausted, room) | some room' ↦ (ok, room') ]
