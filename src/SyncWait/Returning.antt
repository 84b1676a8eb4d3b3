-- ===== src/SyncWait/Returning.antt =====
-- When a blocking wait returns, and with what.
use cpp_baremetal_senders_an.Base.{
  ℕ, zero, suc, ◌≡◌, refl, true, false, Option, none, some, List, [], ◌∷◌, ◌++◌,
}
use cpp_baremetal_senders_an.Channel.{Completion, set_value, set_error, set_stopped}
use cpp_baremetal_senders_an.SyncWait.{receive, static_receive, elapse, spin, wait}

module _ {V E : Type 0} where
  -- Turns of the loop in which nothing happens.
  abbrev pub idle : ℕ → List (Option (Completion V E))
  idle zero = []
  idle (suc n) = none ∷ idle n

  abbrev pub values_of : Completion V E → Option (List V)
  values_of (set_value vs) = some vs
  values_of (set_error e) = none
  values_of set_stopped = none

  spin-done :
      (es : List (Option (Completion V E))) (v : Option (List V))
      → spin es (record { values = v; done = true }) ≡ some (record { values = v; done = true })
  unfolding spin
  spin-done [] v = refl
  spin-done (e ∷ es) v = refl

  spin-completed :
      (k : ℕ) (c : Completion V E) (es : List (Option (Completion V E)))
      → spin (idle k ++ some c ∷ es) (record { values = none; done = false })
        ≡ some (record { values = values_of c; done = true })
  unfolding spin elapse static_receive receive
  spin-completed zero (set_value vs) es = spin-done es (some vs)
  spin-completed zero (set_error e) es = spin-done es none
  spin-completed zero set_stopped es = spin-done es none
  spin-completed (suc k) c es = spin-completed k c es

spin-idle :
    {V : Type 0} (E : Type 0) (k : ℕ)
    → spin (idle {V = V} {E = E} k) (record { values = none; done = false }) ≡ none
unfolding spin elapse
spin-idle E zero = refl
spin-idle E (suc k) = spin-idle E k

module _ {V E : Type 0} where
  -- `sync_wait_static` returns once the sender has completed, however long that takes and whatever
  -- happens afterwards: with the values where it completes with a value, and with none on an error or
  -- when it is stopped. While it has not completed, the wait goes on.
  pub wait_returns :
      (k : ℕ) (c : Completion V E) (es : List (Option (Completion V E)))
      → (wait (idle {V = V} {E = E} k) ≡ none) × (wait (idle k ++ some c ∷ es) ≡ some (values_of c))
  unfolding wait
  wait_returns k c es = (rw (wait, spin-idle E k) refl, rw (wait, spin-completed k c es) refl)
