-- ===== src/Examples/Allocation.antt =====
-- The static allocator for objects of six bytes, aligned to four.
use cpp_baremetal_senders_an.Base.{
  ℕ, zero, suc, ◌+◌, ◌%◌, ◌≤◌, ◌<◌, ◌≡◌, refl, Bool, true, false, some, arith, update, Bool-cases,
  inl, inr, if◌then◌else◌,
}
use cpp_baremetal_senders_an.StaticAllocator.{
  Bitset, Allocator, aligned_size, construct, destruct, SingleAllocator, construct_single,
  destruct_single,
}
use cpp_baremetal_senders_an.StaticAllocator.Layout.{aligned_size_lem}
use cpp_baremetal_senders_an.StaticAllocator.Slots.{
  destruct-slot, destruct-construct, Agree, single-refines, slot,
}

abbrev lowest : ℕ → (ℕ → Bool) → ℕ
lowest zero b = 0
lowest (suc n) b = if b 0 then suc (lowest n (λ i. b (suc i))) else 0

lowest-le : (n : ℕ) (b : ℕ → Bool) → lowest n b ≤ n
lowest-le zero b = omega arith
lowest-le (suc n) b = ground (arith, lowest-le n (λ i. b (suc i)))

lowest-unset : (n : ℕ) (b : ℕ → Bool) → lowest n b < n → b (lowest n b) ≡ false
lowest-unset zero b h = absurd (omega arith)
lowest-unset (suc n) b h = elim (Bool-cases (b 0)) [
  | inl e ↦ rw e (lowest-unset n (λ i. b (suc i)) (ground (arith, h, e)))
  | inr e ↦ rw e e
]

lowest-least : (n : ℕ) (b : ℕ → Bool) (i : ℕ) → i < lowest n b → b i ≡ true
lowest-least zero b i h = absurd (omega arith)
lowest-least (suc n) b zero h = ground (arith, h)
lowest-least (suc n) b (suc i) h = lowest-least n (λ j. b (suc j)) i (ground (arith, h))

-- A bit set that scans its flags.
abbrev scanned : Bitset
scanned = record {
  lowest_unset = lowest;
  set = λ i b. update b i true;
  reset = λ i b. update b i false;
  lowest_unset-le = lowest-le;
  lowest_unset-unset = lowest-unset;
  lowest_unset-least = lowest-least;
  set_lem = λ i b j. refl;
  reset_lem = λ i b j. refl;
}

-- The first of the slots is used.
abbrev first_used : Allocator
first_used = record { used = update (λ _. false) 0 true; base = 64 }

abbrev fresh : SingleAllocator
fresh = record { used = false; base = 64 }

abbrev fresh_slots : Allocator
fresh_slots = record { used = λ _. false; base = 64 }

construct_second : (construct scanned 3 6 4 first_used).0 ≡ some 72
unfolding construct aligned_size
construct_second = refl

aligned_size_lem_example :
    (aligned_size 6 4 % 4 ≡ 0) × (6 ≤ aligned_size 6 4) × (aligned_size 6 4 < 6 + 4)
aligned_size_lem_example = aligned_size_lem 6 4 (omega arith)

destruct-slot_example :
    (destruct scanned 3 6 4 (slot scanned 3 6 4 first_used 0) first_used).used 0
    ≡ update first_used.used 0 false 0
destruct-slot_example = destruct-slot scanned 3 6 4 first_used 0 0 (omega arith) (omega arith)

destruct-construct_example :
    (destruct scanned 3 6 4 72 (construct scanned 3 6 4 first_used).1).used 1 ≡ first_used.used 1
destruct-construct_example =
    destruct-construct scanned 3 6 4 first_used 72 (omega arith) (omega arith) construct_second 1

single-refines_example :
    ((construct_single fresh).0 ≡ (construct scanned 1 6 4 fresh_slots).0)
    × Agree (construct_single fresh).1 (construct scanned 1 6 4 fresh_slots).1
    × Agree (destruct_single 64 fresh) (destruct scanned 1 6 4 64 fresh_slots)
single-refines_example =
    single-refines scanned 6 4 fresh fresh_slots (omega arith) (omega arith)
      (record { same_used = refl; same_base = refl })
