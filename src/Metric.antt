-- ===== src/Metric.antt =====
-- src/metric.h: the counters, and the factory that keeps them by name. What `ustime` gives is an argument;
-- an `int64_t` of microseconds is an integer without a bound.
mod Tests
use redisproxy.Base.{
  ℕ, zero, suc, ◌+◌, ◌-◌, ◌*◌, ◌%◌, ◌^◌, ◌≤◌, ◌<◌, ◌≡◌, ◌∙◌, ap, ap₂, refl, Bool, true, false,
  Option, none, some, List, [], ◌∷◌, Bytes, arith, ◌==◌, leb, ltb, lt→ltb, if◌then◌else◌,
}
use redisproxy.Base.Int.{ℤ, pos, negsuc, pos_part, neg_part, sub_ℕ, ◌+ℤ◌}
use redisproxy.Settings.{same}

-- `TimeSumMetric`
pub record TimeSumMetric : Type 0 where
  pub time_take : ℤ
  pub sum_take : ℤ
  pub sum : ℕ

-- `TimeSumMetric()`
abbrev pub fresh : TimeSumMetric
fresh = record { time_take = pos 0; sum_take = pos 0; sum = 0 }

-- `TimingBegin()`
unfoldable pub timing_begin : ℕ → TimeSumMetric → TimeSumMetric
timing_begin now m = record m { time_take = pos now }

-- `ustime() - timeTake`
abbrev pub since : ℕ → ℤ → ℤ
since now t = sub_ℕ (now + neg_part t) (pos_part t)

-- `timeTake > 0`
abbrev pub positive : ℤ → Bool
positive t = ltb 0 (pos_part t)

-- `Inc( count )`
unfoldable pub inc : ℕ → ℕ → TimeSumMetric → TimeSumMetric
inc now count m =
    let sum = (m.sum + count) % 2 ^ 64 in
    if positive m.time_take
    then record m {
      time_take = since now m.time_take;
      sum_take = m.sum_take +ℤ since now m.time_take;
      sum = sum;
    }
    else record m { sum = sum }

-- `Clear()`
unfoldable pub clear : TimeSumMetric → TimeSumMetric
clear m = fresh

-- The map of the factory. The order of its names matters only to what is printed.
abbrev pub Metrics : Type 0
Metrics = List (Bytes × TimeSumMetric)

abbrev pub find : Bytes → Metrics → Option TimeSumMetric
find name [] = none
find name ((key, m) ∷ ms) = if same key name then some m else find name ms

-- `FetchTimeSum( name )`: the metric is there when it returns.
unfoldable pub fetch_time_sum : Bytes → Metrics → TimeSumMetric × Metrics
fetch_time_sum name ms = elim (find name ms) [
  | none ↦ (fresh, (name, fresh) ∷ ms)
  | some m ↦ (m, ms)
]

-- What `PrintInfo()` leaves.
unfoldable pub print_info : Metrics → Metrics
print_info [] = []
print_info ((name, m) ∷ ms) = (name, clear m) ∷ print_info ms

-- Measurements: `TimingBegin`, and later `Inc`.
abbrev pub Measure : Type 0
Measure = ℕ × ℕ × ℕ

unfoldable pub measure_all : List Measure → TimeSumMetric → TimeSumMetric
measure_all [] m = m
measure_all ((start, end, count) ∷ xs) m = measure_all xs (inc end count (timing_begin start m))

abbrev pub time_of : List Measure → ℕ
time_of [] = 0
time_of ((start, end, count) ∷ xs) = (end - start) + time_of xs

abbrev pub count_of : List Measure → ℕ
count_of [] = 0
count_of ((start, end, count) ∷ xs) = count + count_of xs

-- The clock runs forward from a time behind 1970.
abbrev pub Forward : List Measure → Type 0
Forward [] = Unit {0}
Forward ((start, end, count) ∷ xs) = (0 < start) × (start ≤ end) × Forward xs

since_forward : (now t : ℕ) → t ≤ now → since now (pos t) ≡ pos (now - t)
since_forward now t h = ground (arith, h)

add_pos : (a b : ℕ) → pos a +ℤ pos b ≡ pos (a + b)
unfolding ◌+ℤ◌
add_pos a b = ground arith

-- `Inc` behind a `timeTake` that lies in the past.
inc_timed :
    (now count t k : ℕ) (m : TimeSumMetric)
    → m.time_take ≡ pos t
    → m.sum_take ≡ pos k
    → 0 < t
    → t ≤ now
    → inc now count m ≡ record {
      time_take = pos (now - t);
      sum_take = pos (k + (now - t));
      sum = (m.sum + count) % 2 ^ 64;
    }
unfolding inc
inc_timed now count t k m e h p le =
    let on : positive m.time_take ≡ true = ap positive e ∙ lt→ltb 0 t p in
    let d : since now m.time_take ≡ pos (now - t) = ap (since now) e ∙ since_forward now t le in
    let s : m.sum_take +ℤ since now m.time_take ≡ pos (k + (now - t)) =
      ap₂ ◌+ℤ◌ h d ∙ add_pos k (now - t) in
    rw (on, inc) (λ i. record { time_take = d i; sum_take = s i; sum = (m.sum + count) % 2 ^ 64 })

measured_from :
    (xs : List Measure) (m : TimeSumMetric) (k : ℕ)
    → m.sum_take ≡ pos k
    → m.sum < 2 ^ 64
    → Forward xs
    → ((measure_all xs m).sum_take ≡ pos (k + time_of xs))
      × ((measure_all xs m).sum ≡ (m.sum + count_of xs) % 2 ^ 64)
      × ((measure_all xs m).sum < 2 ^ 64)
unfolding measure_all timing_begin
measured_from [] m k h l f = (h ∙ ap pos (omega arith), omega (arith, l), l)
measured_from ((start, end, count) ∷ xs) m k h l (p, le, f) =
    let m' = inc end count (timing_begin start m) in
    let e = inc_timed end count start k (timing_begin start m) refl h p le in
    let s : m'.sum ≡ (m.sum + count) % 2 ^ 64 = ap (λ x. x.sum) e in
    let (a, b, c) =
      measured_from xs m' (k + (end - start)) (ap (λ x. x.sum_take) e) (omega (arith, s)) f in
    (a ∙ ap pos (omega arith), b ∙ omega (arith, s), c)

-- Measurements after a `Clear`, while the clock runs forward from a time behind 1970: the time is the sum of
-- all times measured, and the count, a `uint64_t`, is the sum of all counts, modulo 2 ^ 64.
pub measure_all_total :
    (xs : List Measure) (m : TimeSumMetric)
    → Forward xs
    → ((measure_all xs (clear m)).sum_take ≡ pos (time_of xs))
      × ((measure_all xs (clear m)).sum ≡ count_of xs % 2 ^ 64)
      × ((measure_all xs (clear m)).sum < 2 ^ 64)
unfolding clear
measure_all_total xs m f =
    let (a, b, c) = measured_from xs fresh 0 refl (omega arith) f in
    (a ∙ ap pos (omega arith), b ∙ omega arith, c)

-- `Inc` leaves its own result where it looks for the start: two of them behind one `TimingBegin`, at a time
-- `start` behind 1970, make the time taken that since 1970, and not that since `start`.
pub inc-inc :
    (start end last : ℕ) (count more : ℕ) (m : TimeSumMetric)
    → 0 < start
    → start < end
    → end ≤ last
    → (inc last more (inc end count (timing_begin start (clear m)))).sum_take ≡ pos last
unfolding timing_begin clear
inc-inc start end last count more m p l le =
    let first = inc_timed end count start 0 (timing_begin start fresh) refl refl p (omega arith) in
    let m' = inc end count (timing_begin start fresh) in
    ap (λ x. x.sum_take)
      (inc_timed last more (end - start) (0 + (end - start)) m' (ap (λ x. x.time_take) first)
        (ap (λ x. x.sum_take) first) (omega arith) (omega arith))
    ∙ ap pos (omega arith)
