-- ===== src/StartDetached.antt =====
-- include/async/start_detached.hpp and allocator.hpp: operations that are started under one name and
-- left to themselves. The allocator is the concept `allocator`: a parameter. A type of operation
-- state, which goes with a type of sender, is a number. An operation state is named by the pointer
-- to it, which has that type; it is also the pointer to its stop source.
pub mod Stopping
pub mod Single
pub mod OneType
use cpp_baremetal_senders_an.Base.{
  ℕ, ◌≡◌, Bool, true, false, not, ◌&&◌, Option, none, some, ◌==◌, if◌then◌else◌, update,
}

-- What the code relies on of an allocator: an object is placed where none is, and with a limit of one
-- there is one object of a type at most. `limit` is the `allocation_limit` of the allocator that the
-- operations of a type use.
pub record Allocation : Type 1 where
  pub State : Type 0
  pub type_of : ℕ → ℕ
  pub limit : ℕ → ℕ
  pub used : State → ℕ → Bool
  pub construct : ℕ → State → Option ℕ × State
  pub destruct : ℕ → State → State
  pub construct_some :
      (ty : ℕ) (s : State) (p : ℕ)
      → (construct ty s).0 ≡ some p
      → (type_of p ≡ ty)
        × (used s p ≡ false)
        × ((q : ℕ) → used (construct ty s).1 q ≡ update (used s) p true q)
  pub construct_none : (ty : ℕ) (s : State) → (construct ty s).0 ≡ none → (construct ty s).1 ≡ s
  pub destruct_lem :
      (p : ℕ) (s : State)
      → used s p ≡ true
      → (q : ℕ) → used (destruct p s) q ≡ update (used s) p false q
  pub limit_one :
      (s : State) (p q : ℕ)
      → limit (type_of p) ≡ 1
      → type_of p ≡ type_of q
      → used s p ≡ true
      → used s q ≡ true
      → p ≡ q

-- `stop_source_for` is one variable for all the operations of the name, whatever their types.
pub record Detached (S : Type 0) : Type 0 where
  pub alloc : S
  pub stop_source_for : Option ℕ
  pub requested : ℕ → Bool

-- `stoppable` says of a type that its stop source is an `inplace_stop_source`, not a
-- `never_stop_source`.
module _ (allocation : Allocation) (stoppable : ℕ → Bool) where
  unfoldable pub use_single_stop_source : ℕ → Bool
  use_single_stop_source ty = stoppable ty && (allocation.limit ty == 1)

  unfoldable pub set_stop_source :
      ℕ → Option ℕ → Detached allocation.State → Detached allocation.State
  set_stop_source ty p d = if use_single_stop_source ty then record d { stop_source_for = p } else d

  -- `start`, up to the start of the operation that is constructed; the pointer that it returns.
  unfoldable pub start : ℕ → Detached allocation.State → Detached allocation.State × Option ℕ
  start ty d = elim ((allocation.construct ty d.alloc).0) [
    | none ↦ (record d { alloc = (allocation.construct ty d.alloc).1 }, none)
    | some p ↦ (
      set_stop_source ty (some p) (record d {
        alloc = (allocation.construct ty d.alloc).1;
        requested = update d.requested p false;
      }),
      some p,
    )
  ]

  -- A completion of the operation at `p`, by any channel.
  unfoldable pub die : ℕ → Detached allocation.State → Detached allocation.State
  die p d =
      let d' = set_stop_source (allocation.type_of p) none d in
      record d' { alloc = allocation.destruct p d'.alloc }

  -- `request_stop` of the stop source at `p`.
  unfoldable pub request_stop : ℕ → Detached allocation.State → Detached allocation.State × Bool
  request_stop p d =
      if stoppable (allocation.type_of p)
      then (record d { requested = update d.requested p true }, not (d.requested p))
      else (d, false)

  unfoldable pub stop_detached : Detached allocation.State → Detached allocation.State × Bool
  stop_detached d = elim d.stop_source_for [ none ↦ (d, false) | some p ↦ request_stop p d ]
