-- ===== src/Examples/Stops.antt =====
-- A stop source with two callbacks.
use cpp_baremetal_senders_an.Base.{ℕ, ◌≡◌, refl, true, false, some, List, [], ◌∷◌, arith, update}
use cpp_baremetal_senders_an.Intrusive.{plain_list}
use cpp_baremetal_senders_an.StopToken.{StopSource, Request, destroy, request_stop}
use cpp_baremetal_senders_an.StopToken.Invariant.{Inv}
use cpp_baremetal_senders_an.StopToken.RequestStop.{request_stop-once}

abbrev two_callbacks : StopSource
two_callbacks = record {
  requested = false;
  callbacks = 5 ∷ 7 ∷ [];
  pending = update (update (λ _. false) 5 true) 7 true;
  called = [];
}

two_callbacks-Inv : Inv two_callbacks
two_callbacks-Inv = record { once = λ cb. ground arith }

-- A callback that destroys the other one.
abbrev destroy_other : ℕ → StopSource → List Request
destroy_other cb s = destroy 7 ∷ []

abbrev quiet : ℕ → StopSource → List Request
quiet cb s = []

request_stop-once_example :
    (s' : StopSource) × (request_stop plain_list destroy_other 3 two_callbacks ≡ some (s', true))
    × (s'.requested ≡ true)
    × (s'.callbacks ≡ [])
    × Inv s'
    × (request_stop plain_list destroy_other 3 s' ≡ some (s', false))
request_stop-once_example =
    request_stop-once plain_list destroy_other 3 two_callbacks refl (omega arith) two_callbacks-Inv
