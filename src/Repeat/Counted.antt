-- ===== src/Repeat/Counted.antt =====
-- `repeat_n`.
use native.Mathlib.Nat.{add-zero}
use cpp_baremetal_senders_an.Base.{
  subst, ℕ, zero, suc, ◌+◌, ◌-◌, ◌%◌, ◌≤◌, ◌<◌, ◌≡◌, refl, Bool, false, List, arith, ◌==◌,
}
use cpp_baremetal_senders_an.Channel.{Completion, set_value}
use cpp_baremetal_senders_an.Repeat.{new_op, count_down, sync_start, async_start}
use cpp_baremetal_senders_an.Repeat.Exits.{Exits, satisfied, again, Ended, start-Ended}

nonzero : (n : ℕ) → (suc n == 0) ≡ false
nonzero n = ground arith

-- `n--` does not wrap above zero.
wrapped : (n : ℕ) → suc n < 4294967296 → n ≡ (suc n + 4294967296 - 1) % 4294967296
wrapped n h = omega arith

module _ {V E : Type 0} (stop : ℕ → Bool) (values : ℕ → List V) where
  -- Every connection of the child sends a value.
  abbrev pub child : ℕ → Completion V E
  child k = set_value (values k)

  count_down-Exits :
      (n k : ℕ)
      → n < 4294967296
      → Exits count_down false stop child k n (suc n) (set_value (values (k + n)))
  unfolding count_down
  count_down-Exits zero k h = rw (add-zero k) (satisfied k 0 (values k) refl refl refl)
  count_down-Exits (suc n) k h =
      let rest = count_down-Exits n (suc k) (omega (arith, h)) in
      again k (suc n) (values k) (suc n) (set_value (values (k + suc n))) refl refl (nonzero n) (
        subst
          (λ q.
            Exits count_down false stop child (suc k) q (suc n) (set_value (values (k + suc n))))
          (wrapped n h)
          (subst (λ i. Exits count_down false stop child (suc k) n (suc n) (set_value (values i)))
            (omega arith) rest))

  -- `repeat_n(n)` of a stoppable sender that sends a value each time runs it n + 1 times, where n
  -- fits in 32 bits: the synchronous and the asynchronous form end, having started it n + 1 times,
  -- and deliver the values of the last run alone.
  pub repeat_n_lem :
      (n fuel : ℕ)
      → n < 4294967296
      → n + 3 ≤ fuel
      → Ended count_down false stop child
          (new_op n)
          (suc n)
          (set_value (values n))
          (sync_start count_down false stop child fuel (new_op n))
        × Ended count_down false stop child
            (new_op n)
            (suc n)
            (set_value (values n))
            (async_start count_down false stop child fuel (new_op n))
  repeat_n_lem n fuel h f =
      start-Ended count_down false stop child
        (subst (λ i. Exits count_down false stop child 0 n (suc n) (set_value (values i)))
          (omega arith) (count_down-Exits n 0 h))
        fuel (omega arith)
