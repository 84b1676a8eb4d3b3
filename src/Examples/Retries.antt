-- ===== src/Examples/Retries.antt =====
-- `retry_until` at work.
use cpp_baremetal_senders_an.Base.{
  ℕ, ◌+◌, ◌==◌, refl, Bool, true, false, [], ◌∷◌, arith, if◌then◌else◌,
}
use cpp_baremetal_senders_an.Channel.{Completion, set_value, set_error}
use cpp_baremetal_senders_an.Retry.{new_op, sync_start, async_start}
use cpp_baremetal_senders_an.Retry.Exits.{Exits, succeeded, again, Ended, retry-Ended}

abbrev running : ℕ → Bool
running k = false

-- A predicate that counts to one.
abbrev second_time : {A : Type 0} → A → ℕ → Bool × ℕ
second_time a q = (q == 1, q + 1)

-- A child that fails on its first connection only.
abbrev fails_once : ℕ → Completion ℕ ℕ
fails_once k = if k == 0 then set_error 9 else set_value (k ∷ [])

retries : Exits second_time true running fails_once 0 0 2 (set_value (1 ∷ []))
retries = again 0 0 9 1 (set_value (1 ∷ [])) refl refl refl (succeeded 1 1 (1 ∷ []) refl refl)

retry-Ended_example :
    Ended second_time true running fails_once
      (new_op 0)
      2
      (set_value (1 ∷ []))
      (sync_start second_time true running fails_once 4 (new_op 0))
    × Ended second_time true running fails_once
        (new_op 0)
        2
        (set_value (1 ∷ []))
        (async_start second_time true running fails_once 4 (new_op 0))
retry-Ended_example = retry-Ended second_time true running fails_once retries 4 (omega arith)
