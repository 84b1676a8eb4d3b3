-- ===== src/StopToken.antt =====
-- include/async/stop_token.hpp: the in-place stop source, its callbacks and its tokens.
-- A callback is named by its address. `called` is the log of the callbacks that were run, newest
-- last. The code of a callback is a parameter that gives the registrations and deregistrations
-- made while it runs. Each critical section, and each exchange of `requested`, is one step.
pub mod Invariant
pub mod RequestStop
use cpp_baremetal_senders_an.Base.{
  ℕ, zero, suc, ◌+◌, ◌-◌, Bool, true, false, not, Option, none, some, List, [], ◌∷◌, ◌++◌, ◌==◌,
  ◌&&◌, if◌then◌else◌, is_empty, update,
}
use cpp_baremetal_senders_an.Intrusive.{IntrusiveList}

pub record StopSource : Type 0 where
  pub requested : Bool
  pub callbacks : List ℕ
  pub pending : ℕ → Bool
  pub called : List ℕ

-- The two constructors: `inplace_stop_source(b)`, with false as the default.
unfoldable pub new_source : Bool → StopSource
new_source b = record { requested = b; callbacks = []; pending = λ _. false; called = [] }

-- `stop_token<inplace_stop_source>`: a pointer to a source, or null.
abbrev pub StopToken : Type 0
StopToken = Option ℕ

unfoldable pub stop_requested : (ℕ → StopSource) → StopToken → Bool
stop_requested sources none = false
stop_requested sources (some s) = (sources s).requested

unfoldable pub stop_possible : StopToken → Bool
stop_possible none = false
stop_possible (some s) = true

-- What the code of a callback may do: make a callback object, which registers itself, or destroy
-- one, which deregisters itself.
pub data Request : Type 0 where
  construct : ℕ → Request
  destroy : ℕ → Request

module _ (lists : IntrusiveList) where
  unfoldable pub register_callback : ℕ → StopSource → StopSource × Bool
  register_callback cb s =
      if not s.requested
      then (
        record s { callbacks = lists.push_back cb s.callbacks; pending = update s.pending cb true },
        true,
      )
      else (s, false)

  unfoldable pub unregister_callback : ℕ → StopSource → StopSource
  unregister_callback cb s =
      if s.pending cb
      then record s { pending = update s.pending cb false; callbacks = lists.remove cb s.callbacks }
      else s

  -- The constructor of `inplace_stop_callback`: where the source has been asked to stop already,
  -- the callback is called at once: that call is logged, and what its code does is left out.
  unfoldable pub construct_callback : ℕ → StopSource → StopSource
  unfolding register_callback
  construct_callback cb s =
      let (s', registered) = register_callback cb s in
      if not registered then record s' { called = s'.called ++ cb ∷ [] } else s'

  -- The destructor of `inplace_stop_callback`.
  unfoldable pub destroy_callback : ℕ → StopSource → StopSource
  unfolding unregister_callback
  destroy_callback cb s = unregister_callback cb s

  unfoldable pub request : Request → StopSource → StopSource
  unfolding construct_callback destroy_callback
  request (construct cb) s = construct_callback cb s
  request (destroy cb) s = destroy_callback cb s

  unfoldable pub request_all : List Request → StopSource → StopSource
  unfolding request
  request_all [] s = s
  request_all (c ∷ cs) s = request_all cs (request c s)

  -- `get_next_cb`.
  unfoldable pub next_callback : StopSource → Option (ℕ × StopSource)
  next_callback s =
      if is_empty s.callbacks
      then none
      else (let (cb, rest) = lists.pop_front s.callbacks in
          some (cb, record s { callbacks = rest; pending = update s.pending cb false }))

  module _ (run : ℕ → StopSource → List Request) where
    unfoldable pub call : ℕ → StopSource → StopSource
    unfolding request_all
    call cb s = let s' = record s { called = s.called ++ cb ∷ [] } in request_all (run cb s') s'

    -- The loop of `request_stop`; `none` is a loop that has used up its fuel.
    unfoldable pub drain : ℕ → StopSource → Option StopSource
    unfolding call next_callback
    drain zero s = none
    drain (suc fuel) s = elim (next_callback s) [
      | none ↦ some s
      | some (cb, s') ↦ drain fuel (call cb s')
    ]

    unfoldable pub request_stop : ℕ → StopSource → Option (StopSource × Bool)
    unfolding drain
    request_stop fuel s =
        if not s.requested
        then elim (drain fuel (record s { requested = true })) [
          | none ↦ none
          | some s' ↦ some (s', true)
        ]
        else some (s, false)

-- `never_stop_token` and `never_stop_source`: nothing is ever requested or registered.
unfoldable pub never_stop_requested : Bool
never_stop_requested = false

unfoldable pub never_request_stop : StopSource → StopSource × Bool
never_request_stop s = (s, false)

unfoldable pub never_register_callback : ℕ → StopSource → StopSource × Bool
never_register_callback cb s = (s, false)
