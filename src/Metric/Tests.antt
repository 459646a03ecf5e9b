-- ===== src/Metric/Tests.antt =====
-- The metrics on small inputs.
use redisproxy.Base.{◌<◌, ◌≡◌, ◌^◌, refl, List, [], ◌∷◌, arith}
use redisproxy.Base.Int.{pos}
use redisproxy.Metric.{
  fresh, Measure, measure_all, clear, measure_all_total, fetch_time_sum, print_info,
}

abbrev twice : List Measure
twice = (1000, 1300, 1) ∷ (2000, 2500, 2 ^ 64) ∷ []

measure_all_total_example :
    ((measure_all twice (clear fresh)).sum_take ≡ pos 800)
    × ((measure_all twice (clear fresh)).sum ≡ 1)
    × ((measure_all twice (clear fresh)).sum < 2 ^ 64)
measure_all_total_example = measure_all_total twice fresh (omega arith)

cleared : print_info (fetch_time_sum (b'a' ∷ []) []).1 ≡ (b'a' ∷ [], fresh) ∷ []
unfolding print_info fetch_time_sum clear
cleared = refl
