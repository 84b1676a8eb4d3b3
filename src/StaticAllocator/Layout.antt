-- ===== src/StaticAllocator/Layout.antt =====
-- The layout of the storage: slots are aligned, and do not overlap.
use native.Mathlib.Nat.{mod-lt, div-add-mod, mul-mod_right, mul-div_cancel}
use cpp_baremetal_senders_an.Base.{
  ℕ, suc, ◌+◌, ◌-◌, ◌*◌, ◌/◌, ◌%◌, ◌≤◌, ◌<◌, ◌≡◌, ap, ◌∙◌, inl, inr, arith, Bool-cases, ◌==◌, ==→≡,
}
use cpp_baremetal_senders_an.StaticAllocator.{aligned_size}

aligned_size-zero : (size a : ℕ) → size % a ≡ 0 → aligned_size size a ≡ size
unfolding aligned_size
aligned_size-zero size a h = rw h

aligned_size-pos : (size a : ℕ) → 0 < size % a → aligned_size size a ≡ size + a - size % a
unfolding aligned_size
aligned_size-pos size a h = ground arith

-- For a positive alignment, the size of a slot is a multiple of the alignment, is not below the
-- size of the object, and exceeds it by less than the alignment.
pub aligned_size_lem :
    (size a : ℕ)
    → 0 < a
    → (aligned_size size a % a ≡ 0)
      × (size ≤ aligned_size size a)
      × (aligned_size size a < size + a)
aligned_size_lem size a pos = elim (Bool-cases (size % a == 0)) [
  | inl z ↦
      let e = aligned_size-zero size a (==→≡ _ _ z) in rw e (==→≡ _ _ z, omega arith, omega arith)
  | inr z ↦
      let p : 0 < size % a = ground arith in
      let below : size % a < a = mod-lt size pos in
      let e : aligned_size size a ≡ a * suc (size / a) =
        aligned_size-pos size a p ∙ grind (arith, div-add-mod size a) in
      (
        ap (λ n. n % a) e ∙ mul-mod_right a (suc (size / a)),
        omega (arith, aligned_size-pos size a p, below),
        omega (arith, aligned_size-pos size a p, below, p),
      )
]

-- The bytes of two objects in different slots do not overlap.
pub slots_disjoint :
    (size a i j : ℕ) → 0 < a → i < j → i * aligned_size size a + size ≤ j * aligned_size size a
slots_disjoint size a i j pos h =
    let fits : size ≤ aligned_size size a = (aligned_size_lem size a pos).1 in grind (arith, fits)

pub slot_index :
    (size a i base : ℕ)
    → 0 < aligned_size size a
    → (base + i * aligned_size size a - base) / aligned_size size a ≡ i
slot_index size a i base pos =
    ap (λ n. n / aligned_size size a) (omega arith) ∙ mul-div_cancel i pos

-- A slot of an aligned storage is aligned.
pub slot_aligned :
    (size a base i : ℕ) → 0 < a → base % a ≡ 0 → (base + i * aligned_size size a) % a ≡ 0
slot_aligned size a base i pos al =
    let s : ℕ = aligned_size size a in
    let whole : s ≡ a * (s / a) = omega (arith, div-add-mod s a, (aligned_size_lem size a pos).0) in
    let start : base ≡ a * (base / a) = omega (arith, div-add-mod base a, al) in
    let sum : base + i * s ≡ a * (base / a + i * (s / a)) =
      omega (arith, start, ap (λ (x : ℕ). i * x) whole) in
    ap (λ x. x % a) sum ∙ mul-mod_right a (base / a + i * (s / a))
