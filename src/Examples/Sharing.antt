-- ===== src/Examples/Sharing.antt =====
-- A split sender with two operations.
use cpp_baremetal_senders_an.Base.{
  ℕ, ◌+◌, ◌≤◌, ◌≡◌, refl, true, false, none, some, List, [], ◌∷◌, length, count, bit, ◌++◌,
}
use cpp_baremetal_senders_an.Channel.{Completion, set_value, set_stopped}
use cpp_baremetal_senders_an.Split.{State, start, receive, link, emplace_stop_cb, connect, reset}
use cpp_baremetal_senders_an.Split.Shared.{Chain}
use cpp_baremetal_senders_an.Split.Handed.{Served, receive-handed}
use cpp_baremetal_senders_an.Split.Once.{
  Inv, Fresh, Reach, here, next, starts, split_once, split_ends,
}
use cpp_baremetal_senders_an.Split.Reset.{reset-stays_stopped}

-- A receiver that moves the values out of the references that it is given.
abbrev emptied : ℕ → Completion ℕ ℕ → Completion ℕ ℕ
emptied t (set_value vs) = set_value []
emptied t c = c

abbrev unused : State ℕ ℕ
unused = record {
  values = none;
  linked_ops = none;
  single_ops = true;
  single_starts = 0;
  stop_requested = false;
  next_ops = λ _. none;
  stop_cb = λ _. false;
  started = λ _. false;
  asked = λ _. false;
  delivered = λ _. [];
}

unused-Fresh : Fresh unused
unused-Fresh = record { running = refl; unlinked = refl; single = refl; idle = λ t. (refl, refl) }

abbrev one_waits : State ℕ ℕ
one_waits = start emptied 5 unused

one_waits-Reach : Reach emptied unused one_waits
one_waits-Reach = next here (starts unused 5 refl)

split_once_example : Inv one_waits
split_once_example = split_once emptied unused-Fresh one_waits-Reach

split_ends_example :
    (fuel : ℕ) × (s'' : State ℕ ℕ) × (receive emptied fuel (set_value (7 ∷ [])) one_waits
      ≡ some s'')
    × ((u : ℕ) → length (s''.delivered u) ≡ bit (s''.started u))
unfolding start link emplace_stop_cb
split_ends_example =
    split_ends emptied unused-Fresh one_waits-Reach 5 (set_value (7 ∷ [])) refl refl

abbrev stored : State ℕ ℕ
stored = record unused { values = some (set_value (7 ∷ [])) }

abbrev two_wait : State ℕ ℕ
two_wait = start emptied 8 one_waits

eight_idle : one_waits.started 8 ≡ false
unfolding start link emplace_stop_cb
eight_idle = refl

two_wait-running : two_wait.values ≡ none
unfolding start link emplace_stop_cb
two_wait-running = refl

receive-handed_example :
    (l : List ℕ) × Chain two_wait.next_ops two_wait.linked_ops l
    × ((t : ℕ) → count t l + length (two_wait.delivered t) ≡ bit (two_wait.started t))
    × ((fuel : ℕ)
        → length l ≤ fuel
        → (s'' : State ℕ ℕ) × (receive emptied fuel (set_value (7 ∷ [])) two_wait ≡ some s'')
          × Served emptied two_wait l (set_value (7 ∷ [])) s'')
receive-handed_example =
    receive-handed emptied unused-Fresh (next one_waits-Reach (starts one_waits 8 eight_idle))
      two_wait-running (set_value (7 ∷ []))

abbrev was_stopped : State ℕ ℕ
was_stopped = record stored { stop_requested = true; linked_ops = some 3 }

reset-stays_stopped_example :
    ((start emptied 5 (connect (reset was_stopped))).delivered 5 ≡ [] ++ set_stopped ∷ [])
    × ((start emptied 5 (connect (reset was_stopped))).single_starts ≡ 0)
    × ((start emptied 5 (connect (reset was_stopped))).linked_ops ≡ none)
reset-stays_stopped_example = reset-stays_stopped emptied was_stopped 5 refl
