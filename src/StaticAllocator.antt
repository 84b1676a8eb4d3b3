-- ===== src/StaticAllocator.antt =====
-- include/async/static_allocator.hpp: allocation of objects of one type from a fixed array.
-- Addresses are numbers. `stdx::bitset` is third-party code: its operations are parameters over
-- the flags that it holds, and the laws are their documented behaviour.
pub mod Layout
pub mod Slots
use cpp_baremetal_senders_an.Base.{
  ℕ, zero, suc, ◌+◌, ◌-◌, ◌*◌, ◌/◌, ◌%◌, ◌≤◌, ◌<◌, ◌≡◌, Bool, true, false, not, Option, none, some,
  List, [], ◌∷◌, ◌==◌, if◌then◌else◌, update,
}

-- `lowest_unset n b` is N where all of the N flags are set.
pub record Bitset : Type 0 where
  pub lowest_unset : ℕ → (ℕ → Bool) → ℕ
  pub set : ℕ → (ℕ → Bool) → ℕ → Bool
  pub reset : ℕ → (ℕ → Bool) → ℕ → Bool
  pub lowest_unset-le : (n : ℕ) (b : ℕ → Bool) → lowest_unset n b ≤ n
  pub lowest_unset-unset :
      (n : ℕ) (b : ℕ → Bool) → lowest_unset n b < n → b (lowest_unset n b) ≡ false
  pub lowest_unset-least : (n : ℕ) (b : ℕ → Bool) (i : ℕ) → i < lowest_unset n b → b i ≡ true
  pub set_lem : (i : ℕ) (b : ℕ → Bool) (j : ℕ) → set i b j ≡ update b i true j
  pub reset_lem : (i : ℕ) (b : ℕ → Bool) (j : ℕ) → reset i b j ≡ update b i false j

unfoldable pub aligned_size : ℕ → ℕ → ℕ
aligned_size size alignment =
    if size % alignment == 0 then size else size + alignment - size % alignment

-- The allocator's state: the flags, and where the storage begins.
pub record Allocator : Type 0 where
  pub used : ℕ → Bool
  pub base : ℕ

module _ (bits : Bitset) (n size alignment : ℕ) where
  -- `none` is a null pointer.
  unfoldable pub construct : Allocator → Option ℕ × Allocator
  unfolding aligned_size
  construct a =
      let idx = bits.lowest_unset n a.used in
      let a' = if not (idx == n) then record a { used = bits.set idx a.used } else a in
      if idx == n then (none, a') else (some (a.base + idx * aligned_size size alignment), a')

  unfoldable pub destruct : ℕ → Allocator → Allocator
  unfolding aligned_size
  destruct ptr a =
      let idx = (ptr - a.base) / aligned_size size alignment in
      record a { used = bits.reset idx a.used }

-- The specialisation for one object: one atomic flag in place of the bit set.
pub record SingleAllocator : Type 0 where
  pub used : Bool
  pub base : ℕ

unfoldable pub construct_single : SingleAllocator → Option ℕ × SingleAllocator
construct_single a = if not a.used then (some a.base, record a { used = true }) else (none, a)

unfoldable pub destruct_single : ℕ → SingleAllocator → SingleAllocator
destruct_single ptr a = record a { used = false }

-- `static_allocator::construct`: the client's function is called with the new object, if there is
-- one; `use_object` is that function, over the client's state.
unfoldable pub construct_with {ℓ} : {S : Type ℓ} → (ℕ → S → S) → Option ℕ × S → S × Bool
construct_with use_object (none, s) = (s, false)
construct_with use_object (some t, s) = (use_object t s, true)
