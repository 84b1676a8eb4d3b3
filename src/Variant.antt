-- ===== src/Variant.antt =====
-- include/async/variant_sender.hpp: the choice among options, the visit of a variant, and the
-- senders that they make. A variant is its index and its value; the types of the alternatives are
-- not distinguished. `w` is the width of `std::size_t`.
pub mod Matching
pub mod Completions
use cpp_baremetal_senders_an.Base.{
  ℕ, zero, suc, ◌+◌, ◌-◌, ◌%◌, ◌^◌, Bool, true, false, Option, none, some, List, [], ◌∷◌, ◌==◌,
  if◌then◌else◌, get_elem?, length,
}
use cpp_baremetal_senders_an.Channel.{set_value}
use cpp_baremetal_senders_an.Sender.{Run}

-- `match_option`: `match_if` is `test`.
pub record MatchOption (A R : Type 0) : Type 0 where
  pub test : A → Bool
  pub invoke : A → R

module _ {A R : Type 0} where
  -- `match(p) >> f` and `match(b) >> f`.
  unfoldable pub match_if : (A → Bool) → (A → R) → MatchOption A R
  match_if p f = record { test = p; invoke = f }

  unfoldable pub otherwise : (A → R) → MatchOption A R
  otherwise f = record { test = λ _. true; invoke = f }

  module _ (w : ℕ) where
    -- The fold over the options, which stops at the first test that is met.
    unfoldable pub next_index : ℕ → List (MatchOption A R) → A → ℕ
    next_index index [] a = index
    next_index index (o ∷ os) a =
        let index' = (index + 1) % 2 ^ w in
        let rest = next_index index' os a in if o.test a then index' else rest

    -- The index starts at the greatest number of its type.
    unfoldable pub first_matching_index : List (MatchOption A R) → A → ℕ
    unfolding next_index
    first_matching_index os a = next_index (2 ^ w - 1) os a

    -- `matcher::run`, and `make_variant`: `none` is an access outside the array of selectors.
    unfoldable pub run : List (MatchOption A R) → A → Option (ℕ × R)
    run os a =
        let i = first_matching_index os a in
        elim (get_elem? os i) [ none ↦ none | some o ↦ some (i, o.invoke a) ]

unfoldable pub select : {R : Type 0} → Bool → (Unit {0} → R) → (Unit {0} → R) → ℕ × R
select b f1 f2 = if b then (0, f1 tt) else (1, f2 tt)

-- `visit_workaround<N>`: `none` is what `stdx::unreachable` says cannot be.
unfoldable pub visit_workaround : {A R : Type 0} → ℕ → (A → R) → ℕ × A → Option R
visit_workaround zero f (i, v) = if 0 == i then some (f v) else none
visit_workaround (suc n) f (i, v) =
    let rest = visit_workaround n f (i, v) in if suc n == i then some (f v) else rest

module _ {V : Type 0} where
  -- `connect_impl` for `size` senders: the operation of the sender that is held, in the alternative
  -- of its type.
  unfoldable pub connect : ℕ → ℕ × Run V → Option (ℕ × Run V)
  connect size v = visit_workaround (size - 1) (λ r. (v.0, r)) v

  -- `start` of the operation state that `connect` gives.
  unfoldable pub start : ℕ → ℕ × Run V → Option (Run V)
  start size v = elim (connect size v) [
    | none ↦ none
    | some ops ↦ visit_workaround (size - 1) (λ r. r) ops
  ]

  -- A variant sender of the options, started: what starts it, and what it does.
  unfoldable pub start_matched :
      {A : Type 0} → ℕ → List (MatchOption A (Run V)) → A → Option (Run V)
  start_matched w os a = elim (run w os a) [ none ↦ none | some v ↦ start (length os) v ]

  -- `just<"opt-else">()` is the alternative of `make_optional_sender`.
  unfoldable pub make_optional_sender : Bool → (Unit {0} → Run V) → ℕ × Run V
  unfolding select
  make_optional_sender b f = select b f (λ _. record { started = []; completion = set_value [] })
