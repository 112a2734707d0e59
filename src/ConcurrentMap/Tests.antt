-- ===== src/ConcurrentMap/Tests.antt =====
-- Runs of the striped map with two stripes.
use forge_lock_free.Base.{ℕ, ◌+◌, ◌<◌, ◌≡◌, refl, [], arith}
use forge_lock_free.ConcurrentMap.{Stripes, assign, insert, size_from}
use forge_lock_free.ConcurrentMap.Contention.{
  System, init, begin, count_stripe, pass, put, Reach, start, later,
}
use forge_lock_free.ConcurrentMap.Contention.Capacity.{size_bounded}

abbrev same : ℕ → ℕ
same k = k

abbrev none_yet : Stripes ℕ
none_yet i = []

abbrev two_keys : Stripes ℕ
two_keys = (insert same 2 4 40 (insert same 2 6 60 none_yet).0).0

-- One stripe and the bound 1: threads 0 and 1 both count 0 entries, and both insert.
abbrev Run : Type 0
Run = (s : System ℕ) × Reach same 1 2 1 s

both_counted : Run
unfolding init size_from
both_counted = (
  _,
  later
      (later
        (later (later start (begin 0 7 70 (omega arith) refl)) (begin 1 8 80 (omega arith) refl))
        (count_stripe 0 7 70 0 0 0 (omega arith) refl (omega arith)))
      (count_stripe 1 8 80 0 0 0 (omega arith) refl (omega arith)),
)

both_inserted : Run
unfolding both_counted init size_from insert
both_inserted = (
  _,
  later
      (later
        (later (later both_counted.1 (pass 0 7 70 0 0 (omega arith) refl (omega arith)))
          (pass 1 8 80 0 0 (omega arith) refl (omega arith)))
        (put 0 7 70 0 (omega arith) refl))
      (put 1 8 80 0 (omega arith) refl),
)

passes_bound : size_from 1 both_inserted.0.table ≡ 2
unfolding both_inserted both_counted size_from insert init assign
passes_bound = refl

size_bounded_example : size_from 1 both_inserted.0.table < 1 + 2
size_bounded_example = size_bounded same 1 2 1 (omega arith) both_inserted.1
