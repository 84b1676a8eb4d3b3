-- ===== src/TimerManager/Invariant.antt =====
-- What holds of the timer manager between two critical sections, and that the operations keep it.
use mathlib.Core.List.{map}
use cpp_baremetal_senders_an.Base.{
  ℕ, ◌+◌, ◌≡◌, refl, ap, sym, subst, ◌∙◌, Bool, true, false, ◌&&◌, Option, none, some, List, [],
  ◌∷◌, arith, if◌then◌else◌, is_empty, bit, length, count, insert_at, update, update_same,
  bit-update-true, count-insert_at, length-insert_at,
}
use cpp_baremetal_senders_an.TimerManager.{
  HalCall, enable, enable_for, disable, set_event_time, Manager, Reading,
}
use cpp_baremetal_senders_an.TimerManager.Order.{
  IsSorted, first_above, insert_at-IsSorted, map-insert_at, map-update,
}

-- The event that the hardware is programmed for, after the calls made of it.
abbrev pub programmed : List HalCall → Option ℕ
programmed [] = none
programmed (enable ∷ cs) = programmed cs
programmed (enable_for d tp ∷ cs) = some tp
programmed (disable ∷ cs) = none
programmed (set_event_time tp ∷ cs) = some tp

abbrev pub first : List ℕ → Option ℕ
first [] = none
first (x ∷ xs) = some x

abbrev pub deadlines : Manager → List ℕ
deadlines m = map m.expiration_time m.task_queue

-- `running` is the number of tasks that are taken off and whose run is not over.
pub record Inv (running : ℕ) (m : Manager) : Type 0 where
  pub once : (t : ℕ) → count t m.task_queue ≡ bit (m.pending t)
  pub sorted : IsSorted (deadlines m)
  pub counted : m.task_count ≡ length m.task_queue + running
  pub armed : programmed m.hal ≡ first (deadlines m)

-- The queue with task `t` put in front of the first task that expires after `tp`.
unfoldable pub queue_with : Manager → ℕ → ℕ → List ℕ
queue_with m t tp = insert_at (first_above tp (deadlines m)) t m.task_queue

-- The manager after task `t` was scheduled for `tp`, with some calls of the hardware.
unfoldable pub placed : Manager → ℕ → ℕ → List HalCall → Manager
placed m t tp h = record m {
  task_queue = queue_with m t tp;
  expiration_time = update m.expiration_time t tp;
  pending = update m.pending t true;
  task_count = m.task_count + 1;
  hal = h;
}

abbrev pub first_deadline : Manager → ℕ → Option ℕ
first_deadline m tp = first (insert_at (first_above tp (deadlines m)) tp (deadlines m))

pub deadlines-placed :
    (m : Manager) (t tp : ℕ) (h : List HalCall)
    → count t m.task_queue ≡ 0
    → deadlines (placed m t tp h) ≡ insert_at (first_above tp (deadlines m)) tp (deadlines m)
unfolding queue_with placed
deadlines-placed m t tp h c =
    map-insert_at (update m.expiration_time t tp) _ t m.task_queue
    ∙ rw (update_same m.expiration_time t tp, map-update m.expiration_time t tp m.task_queue c)

pub nil_of_empty : (q : List ℕ) → is_empty q ≡ true → q ≡ []
nil_of_empty [] h = refl
nil_of_empty (x ∷ q) h = cc

-- The time point that `run_after` computes.
unfoldable pub expiry : Bool → ℕ → Reading → Manager → ℕ
expiry fused d r m = if is_empty m.task_queue && fused then r.enabled_until else r.now + d

pub absent : (r t : ℕ) (m : Manager) → Inv r m → m.pending t ≡ false → count t m.task_queue ≡ 0
absent r t m v idle = omega (arith, v.once t, ap bit idle)

pub placed-Inv :
    (r t tp : ℕ) (m : Manager) (h : List HalCall)
    → m.pending t ≡ false
    → programmed h ≡ first_deadline m tp
    → Inv r m
    → Inv r (placed m t tp h)
unfolding placed queue_with
placed-Inv r t tp m h idle p v = record {
  once = λ u. omega (
    arith,
    v.once u,
    count-insert_at u (first_above tp (deadlines m)) t m.task_queue,
    bit-update-true m.pending t u idle,
  );
  sorted =
      subst IsSorted (sym (deadlines-placed m t tp h (absent r t m v idle)))
        (insert_at-IsSorted tp (deadlines m) v.sorted);
  counted =
      omega (arith, v.counted, length-insert_at (first_above tp (deadlines m)) t m.task_queue);
  armed = p ∙ ap first (sym (deadlines-placed m t tp h (absent r t m v idle)));
}
