-- ===== src/WhenAny.antt =====
-- include/async/when_any.hpp: the three policies and the operation states of `when_any`. The
-- children are numbered by their place in the argument list; `n` is `sizeof...(Sndrs)`.
-- `delivered` is the log of the completions that the downstream receiver was given.
pub mod Policies
pub mod Steps
pub mod Outcome
pub mod Empty
pub mod Completions
pub mod Replaced
pub mod Advertised
use cpp_baremetal_senders_an.Base.{
  ℕ, zero, suc, ◌+◌, ◌-◌, Bool, true, false, not, Option, none, some, List, [], ◌∷◌, ◌++◌, ◌==◌,
  if◌then◌else◌,
}
use cpp_baremetal_senders_an.Channel.{Completion, set_value, set_error, set_stopped}

pub data Policy : Type 0 where
  first_successful first_noncancelled first_complete : Policy

-- `completions`: `none` is the variant's `std::monostate`.
pub record OpState (V E : Type 0) : Type 0 where
  pub count : ℕ
  pub stop_requested : Bool
  pub stop_cb : Bool
  pub completions : Option (Completion V E)
  pub delivered : List (Completion V E)

module _ {V E : Type 0} where
  abbrev pub is_value : Completion V E → Bool
  is_value (set_value vs) = true
  is_value (set_error e) = false
  is_value set_stopped = false

  abbrev pub is_stopped : Completion V E → Bool
  is_stopped (set_value vs) = false
  is_stopped (set_error e) = false
  is_stopped set_stopped = true

  -- `should_store` of each policy: the completion that arrived, and what is stored.
  unfoldable pub should_store : Policy → Completion V E → Option (Completion V E) → Bool
  should_store first_successful c none = true
  should_store first_successful c (some d) = if is_value c then not (is_value d) else false
  should_store first_noncancelled c none = true
  should_store first_noncancelled c (some d) = if is_stopped c then false else is_stopped d
  should_store first_complete c none = true
  should_store first_complete c (some d) = false

  -- Whether the policy then asks the other children to stop.
  unfoldable pub stops : Policy → Completion V E → Bool
  stops first_successful c = is_value c
  stops first_noncancelled c = not (is_stopped c)
  stops first_complete c = true

  unfoldable pub store : Policy → Completion V E → Option (Completion V E) → Option (Completion V E)
  unfolding should_store
  store p c d = if should_store p c d then some c else d

  -- `StopPolicy::emplace`.
  unfoldable pub policy_emplace : Policy → Completion V E → OpState V E → OpState V E
  unfolding store stops
  policy_emplace p c s =
      let s' = record s { completions = store p c s.completions } in
      if stops p c then record s' { stop_requested = true } else s'

  deliver : Completion V E → OpState V E → OpState V E
  deliver c s = record s { delivered = s.delivered ++ c ∷ [] }

  deliver_stored : OpState V E → OpState V E
  unfolding deliver
  deliver_stored s = elim s.completions [ none ↦ s | some c ↦ deliver c s ]

  -- `op_state::complete`; `stopped` says whether the downstream token has been asked to stop.
  unfoldable pub complete : Bool → OpState V E → OpState V E
  unfolding deliver deliver_stored
  complete stopped s =
      let s' = record s { stop_cb = false } in
      if stopped then deliver set_stopped s' else deliver_stored s'

  -- `if (--count == 0) complete()`.
  unfoldable pub arrive : Bool → OpState V E → OpState V E
  unfolding complete
  arrive stopped s =
      let s' = record s { count = s.count - 1 } in if s'.count == 0 then complete stopped s' else s'

  -- `op_state::emplace`.
  unfoldable pub emplace : Policy → Bool → Completion V E → OpState V E → OpState V E
  unfolding policy_emplace arrive
  emplace p stopped c s = arrive stopped (policy_emplace p c s)

  unfoldable pub request_stop : OpState V E → OpState V E
  request_stop s = record s { stop_requested = true }

  -- `op_state::start`, up to the starting of the children; the second result says whether they are
  -- started.
  unfoldable pub start : ℕ → Bool → OpState V E → OpState V E × Bool
  unfolding request_stop deliver
  start n stopped s =
      let s1 = record s { stop_cb = true } in
      let s2 = if stopped then request_stop s1 else s1 in
      if s2.stop_requested then (deliver set_stopped s2, false) else (record s2 { count = n }, true)

  -- `nostop_op_state`: the stop source is a `never_stop_source`, and `complete` asks no token.
  unfoldable pub nostop_complete : OpState V E → OpState V E
  unfolding deliver_stored
  nostop_complete s = deliver_stored s

  unfoldable pub nostop_emplace : Policy → Completion V E → OpState V E → OpState V E
  unfolding store nostop_complete
  nostop_emplace p c s =
      let s' = record s { completions = store p c s.completions; count = s.count - 1 } in
      if s'.count == 0 then nostop_complete s' else s'

  unfoldable pub nostop_start : ℕ → OpState V E → OpState V E
  nostop_start n s = record s { count = n }

unfoldable pub new_op : {V E : Type 0} → OpState V E
new_op = record {
  count = 0;
  stop_requested = false;
  stop_cb = false;
  completions = none;
  delivered = [];
}
