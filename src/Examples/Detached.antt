-- ===== src/Examples/Detached.antt =====
-- Two operations of different types are started detached under one name, and the later one ends.
use cpp_baremetal_senders_an.Base.{
  ℕ, ◌≡◌, ◌↔◌, refl, Bool, true, false, not, none, some, List, [], ◌∷◌, update,
}
use cpp_baremetal_senders_an.StaticAllocator.{construct_single}
use cpp_baremetal_senders_an.StartDetached
use cpp_baremetal_senders_an.StartDetached.Single.{Singles, singles, construct_in}
use cpp_baremetal_senders_an.StartDetached.{
  Detached, stop_detached, use_single_stop_source, set_stop_source, die,
}
use cpp_baremetal_senders_an.StartDetached.OneType.{stop_detached_iff}
use cpp_baremetal_senders_an.StartDetached.Stopping.{
  Event, started_at, ended_at, Live, current, stop_detached-current,
}
use cpp_baremetal_senders_an.StartDetached.Stopping

abbrev can_stop : ℕ → Bool
can_stop ty = true

abbrev nothing_started : Detached Singles
nothing_started = record { alloc = λ _. false; stop_source_for = none; requested = λ _. false }

abbrev one_started : Detached Singles
one_started = (StartDetached.start singles can_stop 64 nothing_started).0

one_started-Reach : Stopping.Reach singles can_stop nothing_started (started_at 64 ∷ []) one_started
unfolding StartDetached.start construct_in construct_single set_stop_source use_single_stop_source
one_started-Reach = Stopping.next Stopping.here (Stopping.starts 64)

abbrev both_started : Detached Singles
both_started = (StartDetached.start singles can_stop 72 one_started).0

both_started-Reach :
    Stopping.Reach singles can_stop nothing_started
      (started_at 72 ∷ started_at 64 ∷ [])
      both_started
unfolding StartDetached.start construct_in construct_single set_stop_source use_single_stop_source
both_started-Reach = Stopping.next one_started-Reach (Stopping.starts 72)

later-Live : Live singles can_stop both_started 72
unfolding StartDetached.start construct_in construct_single set_stop_source use_single_stop_source
later-Live = refl

abbrev one_ended : Detached Singles
one_ended = die singles can_stop 72 both_started

abbrev events : List Event
events = ended_at 72 ∷ started_at 72 ∷ started_at 64 ∷ []

one_ended-Reach : Stopping.Reach singles can_stop nothing_started events one_ended
one_ended-Reach = Stopping.next both_started-Reach (Stopping.dies 72 later-Live)

stop_detached-current_example :
    ((p : ℕ)
      → current singles can_stop events ≡ some p
      → Live singles can_stop one_ended p
        × (stop_detached singles can_stop one_ended ≡ (
          record one_ended { requested = update one_ended.requested p true },
          not (one_ended.requested p),
        )))
    × (current singles can_stop events ≡ none
        → stop_detached singles can_stop one_ended ≡ (one_ended, false))
stop_detached-current_example = stop_detached-current singles can_stop refl one_ended-Reach

stop_detached_iff_example :
    ((stop_detached singles can_stop one_started).1 ≡ true)
    ↔ ((p : ℕ) × Live singles can_stop one_started p × (one_started.requested p ≡ false))
unfolding use_single_stop_source
stop_detached_iff_example =
    stop_detached_iff singles can_stop 64 refl refl (λ p. refl) one_started-Reach (refl, tt)
