-- ===== src/Periodic.antt =====
-- include/async/periodic.hpp: the expiration providers and the operation state of `periodic`,
-- `periodic_until` and `periodic_n`. Time points and durations are numbers that do not wrap. What
-- `Hal::now()` returns is an argument, and the adapted sender is a parameter, by the completions
-- of its connections. A duration of 0 makes the quantized provider divide by 0, which is undefined
-- in C++; the theorems about it take a positive duration.
pub mod Grid
pub mod Completions
use cpp_baremetal_senders_an.Base.{
  ℕ, zero, suc, ◌+◌, ◌-◌, ◌*◌, ◌/◌, ◌≤◌, ◌<◌, Bool, true, false, Option, none, some, List, [], ◌∷◌,
  ◌++◌, ◌&&◌, if◌then◌else◌, ltb, max,
}
use cpp_baremetal_senders_an.Channel.{Completion, set_value, set_error, set_stopped}

-- `compute_expiration` of each provider: the duration, the last time point and the clock.
unfoldable pub first_expiration : ℕ → ℕ → ℕ
first_expiration d now = now + d

unfoldable pub unsafe_nth_expiration : ℕ → ℕ → ℕ → ℕ
unsafe_nth_expiration d tp now = tp + d

unfoldable pub safe_immediate_nth_expiration : ℕ → ℕ → ℕ → ℕ
safe_immediate_nth_expiration d tp now = let tp' = tp + d in max tp' now

unfoldable pub safe_quantized_nth_expiration : ℕ → ℕ → ℕ → ℕ
safe_quantized_nth_expiration d tp now =
    let tp' = tp + d in
    if ltb tp' now
    then (let diff = now - tp' - 1 in let num_ticks = diff / d + 1 in tp' + d * num_ticks)
    else tp'

pub data Expiry : Type 0 where
  unsafe_expiry safe_immediate_expiry safe_quantized_expiry : Expiry

unfoldable pub nth_expiration : Expiry → ℕ → ℕ → ℕ → ℕ
unfolding unsafe_nth_expiration safe_immediate_nth_expiration safe_quantized_nth_expiration
nth_expiration unsafe_expiry = unsafe_nth_expiration
nth_expiration safe_immediate_expiry = safe_immediate_nth_expiration
nth_expiration safe_quantized_expiry = safe_quantized_nth_expiration

-- The alternatives of `state`.
pub data State : Type 0 where
  idle first_run nth_run : State

-- `expirations` is the log of the time points for which the child was started, newest last.
pub record OpState (V E P : Type 0) : Type 0 where
  pub d : ℕ
  pub tp : ℕ
  pub state : State
  pub pred_state : P
  pub expirations : List ℕ
  pub delivered : List (Completion V E)

unfoldable pub new_op : {V E P : Type 0} → ℕ → P → OpState V E P
new_op d q = record {
  d = d;
  tp = 0;
  state = idle;
  pred_state = q;
  expirations = [];
  delivered = [];
}

module _ {V E P : Type 0} where
  unfoldable pub passthrough : Completion V E → OpState V E P → OpState V E P
  passthrough c s = record s { delivered = s.delivered ++ c ∷ []; state = idle }

  -- `start`: the child asks the first provider when it is started.
  unfoldable pub start : ℕ → OpState V E P → OpState V E P
  unfolding first_expiration
  start now s =
      let t = first_expiration s.d now in
      record s { state = first_run; tp = t; expirations = s.expirations ++ t ∷ [] }

  -- `checks` says that the adapted sender cannot be stopped, so that the loop asks the token.
  module _ (expiry : Expiry) (pred : List V → P → Bool × P) (checks : Bool) where
    unfoldable pub restart : Bool → ℕ → OpState V E P → OpState V E P
    unfolding passthrough nth_expiration
    restart stopped now s =
        let t = nth_expiration expiry s.d s.tp now in
        if checks && stopped
        then passthrough set_stopped s
        else record s { state = nth_run; tp = t; expirations = s.expirations ++ t ∷ [] }

    unfoldable pub repeat_step : Bool → ℕ → List V → OpState V E P → OpState V E P
    unfolding passthrough restart
    repeat_step stopped now vs s =
        let (stopping, q) = pred vs s.pred_state in
        let s' = record s { pred_state = q } in
        if stopping then passthrough (set_value vs) s' else restart stopped now s'

    -- The receiver of the child; the token and the clock are read when the completion comes.
    unfoldable pub receive : Bool → ℕ → Completion V E → OpState V E P → OpState V E P
    unfolding passthrough repeat_step
    receive stopped now (set_value vs) s = repeat_step stopped now vs s
    receive stopped now (set_error e) s = passthrough (set_error e) s
    receive stopped now set_stopped s = passthrough set_stopped s

    -- The child's completions, each with the token and the clock at its time, until none is left
    -- or the operation is over.
    unfoldable pub run : List (Bool × ℕ × Completion V E) → OpState V E P → OpState V E P
    unfolding receive
    run [] s = s
    run ((stopped, now, c) ∷ es) s = elim s.state [
      | idle ↦ s
      | first_run ↦ run es (receive stopped now c s)
      | nth_run ↦ run es (receive stopped now c s)
    ]
