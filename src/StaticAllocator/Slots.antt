-- ===== src/StaticAllocator/Slots.antt =====
-- What `construct` and `destruct` do to the slots.
use native.Mathlib.Decide.{ℕ_discrete}
use cpp_baremetal_senders_an.Base.{
  ℕ, ◌+◌, ◌*◌, ◌%◌, ◌≤◌, ◌<◌, ◌≡◌, ◌↔◌, refl, ap, ◌∙◌, sym, inl, inr, Bool, true, false, arith,
  Bool-cases, ◌==◌, ==→≡, Option, none, some, update,
}
use cpp_baremetal_senders_an.StaticAllocator.{
  Bitset, Allocator, aligned_size, construct, destruct, SingleAllocator, construct_single,
  destruct_single,
}
use cpp_baremetal_senders_an.StaticAllocator.Layout.{
  aligned_size_lem, slots_disjoint, slot_index, slot_aligned,
}

not_above : (i k : ℕ) → ¬ (k < i) → i ≤ k
not_above i k h = ground arith

module _ (bits : Bitset) (n size alignment : ℕ) where
  -- The address of a slot.
  abbrev pub slot : Allocator → ℕ → ℕ
  slot a i = a.base + i * aligned_size size alignment

  construct-full :
      (a : Allocator)
      → bits.lowest_unset n a.used ≡ n
      → construct bits n size alignment a ≡ (none, a)
  unfolding construct
  construct-full a e = ground (arith, e)

  construct-free :
      (a : Allocator)
      → bits.lowest_unset n a.used < n
      → construct bits n size alignment a ≡ (
        some (slot a (bits.lowest_unset n a.used)),
        record a { used = bits.set (bits.lowest_unset n a.used) a.used },
      )
  unfolding construct
  construct-free a lt = ground (arith, lt)

  -- `construct` returns null exactly when all of the slots are used.
  pub construct-none :
      (a : Allocator)
      → ((construct bits n size alignment a).0 ≡ none) ↔ ((i : ℕ) → i < n → a.used i ≡ true)
  construct-none a = (to, from)
    where
      idx : ℕ
      idx = bits.lowest_unset n a.used

      to : (construct bits n size alignment a).0 ≡ none → (i : ℕ) → i < n → a.used i ≡ true
      to e i lt = elim (Bool-cases (idx == n)) [
        | inl z ↦ bits.lowest_unset-least n a.used i (omega (arith, ==→≡ idx n z))
        | inr z ↦ absurd (
            cc
              (ap (λ x. x.0) (construct-free a (ground (arith, bits.lowest_unset-le n a.used))), e))
      ]

      from : ((i : ℕ) → i < n → a.used i ≡ true) → (construct bits n size alignment a).0 ≡ none
      from all = elim (Bool-cases (idx == n)) [
        | inl z ↦ ap (λ x. x.0) (construct-full a (==→≡ idx n z))
        | inr z ↦
            let lt : idx < n = ground (arith, bits.lowest_unset-le n a.used) in
            absurd (cc (all idx lt, bits.lowest_unset-unset n a.used lt))
      ]

  -- In an aligned storage with a free slot, `construct` takes the first free one: it was unused,
  -- its address is aligned, its bytes lie in the storage, and only its flag changes.
  pub construct-some :
      (a : Allocator) (k : ℕ)
      → 0 < alignment
      → a.base % alignment ≡ 0
      → k < n
      → a.used k ≡ false
      → (i : ℕ) × ((construct bits n size alignment a).0 ≡ some (slot a i))
        × (a.used i ≡ false)
        × (i ≤ k)
        × (slot a i % alignment ≡ 0)
        × (slot a i + size ≤ a.base + n * aligned_size size alignment)
        × ((j : ℕ) → (construct bits n size alignment a).1.used j ≡ update a.used i true j)
  construct-some a k pos al lt free =
      let idx : ℕ = bits.lowest_unset n a.used in
      let first : idx ≤ k =
        not_above idx k (λ h. cc (bits.lowest_unset-least n a.used k h, free)) in
      let inside : idx < n = omega (arith, first) in
      let e = construct-free a inside in
      (
        idx,
        ap (λ x. x.0) e,
        bits.lowest_unset-unset n a.used inside,
        first,
        slot_aligned size alignment a.base idx pos al,
        omega (arith, slots_disjoint size alignment idx n pos inside),
        λ j. ap (λ (x : Option ℕ × Allocator). x.1.used j) e ∙ bits.set_lem idx a.used j,
      )

  -- `destruct` of the object in a slot frees that slot and no other.
  pub destruct-slot :
      (a : Allocator) (i j : ℕ)
      → 0 < size
      → 0 < alignment
      → (destruct bits n size alignment (slot a i) a).used j ≡ update a.used i false j
  unfolding destruct
  destruct-slot a i j s pos =
      rw
        (slot_index size alignment i a.base
          (omega (arith, (aligned_size_lem size alignment pos).1)))
        (bits.reset_lem i a.used j)

  -- An object of some size that is made and then destroyed leaves every flag as it was.
  pub destruct-construct :
      (a : Allocator) (t : ℕ)
      → 0 < size
      → 0 < alignment
      → (construct bits n size alignment a).0 ≡ some t
      → (j : ℕ)
      → (destruct bits n size alignment t (construct bits n size alignment a).1).used j ≡ a.used j
  destruct-construct a t s pos e j = elim (Bool-cases (bits.lowest_unset n a.used == n)) [
    | inl z ↦ absurd (cc (ap (λ x. x.0) (construct-full a (==→≡ _ n z)), e))
    | inr z ↦
        let idx : ℕ = bits.lowest_unset n a.used in
        let lt : idx < n = ground (arith, bits.lowest_unset-le n a.used) in
        let c = construct-free a lt in
        let at : t ≡ slot a idx = cc (ap (λ x. x.0) c, e) in
        rw (c, at)
          (destruct-slot (record a { used = bits.set idx a.used }) idx j s pos
            ∙ restored idx j (bits.lowest_unset-unset n a.used lt))
  ]
    where
      restored : (i j : ℕ) → a.used i ≡ false → update (bits.set i a.used) i false j ≡ a.used j
      restored i j free = ground (arith, bits.set_lem i a.used j)

-- The single allocator agrees with a general one of one slot.
pub record Agree (s : SingleAllocator) (a : Allocator) : Type 0 where
  pub same_used : s.used ≡ a.used 0
  pub same_base : s.base ≡ a.base

module _ (bits : Bitset) (size alignment : ℕ) where
  lowest_of_used : (b : ℕ → Bool) → b 0 ≡ true → bits.lowest_unset 1 b ≡ 1
  lowest_of_used b u = elim (ℕ_discrete (bits.lowest_unset 1 b) 0) [
    | yes z ↦ absurd (cc (sym (ap b z) ∙ bits.lowest_unset-unset 1 b (omega (arith, z)), u))
    | no ne ↦ omega (arith, bits.lowest_unset-le 1 b, ne)
  ]

  lowest_of_free : (b : ℕ → Bool) → b 0 ≡ false → bits.lowest_unset 1 b ≡ 0
  lowest_of_free b u = elim (ℕ_discrete (bits.lowest_unset 1 b) 0) [
    | yes z ↦ z
    | no ne ↦ absurd (cc (bits.lowest_unset-least 1 b 0 (omega (arith, ne)), u))
  ]

  -- For objects of some size, the specialisation for one object refines the general allocator with
  -- one slot: from agreeing states `construct` returns the same address or null, `destruct` is
  -- given the address of the slot, and the states agree after each.
  pub single-refines :
      (s : SingleAllocator) (a : Allocator)
      → 0 < size
      → 0 < alignment
      → Agree s a
      → ((construct_single s).0 ≡ (construct bits 1 size alignment a).0)
        × Agree (construct_single s).1 (construct bits 1 size alignment a).1
        × Agree (destruct_single s.base s) (destruct bits 1 size alignment s.base a)
  unfolding construct_single destruct_single destruct
  single-refines s a some_size pos v =
      (made.0, made.1, record { same_used = sym freed; same_base = v.same_base })
    where
      freed : (destruct bits 1 size alignment s.base a).used 0 ≡ false
      freed =
          ap (λ (t : ℕ). (destruct bits 1 size alignment t a).used 0) (omega (arith, v.same_base))
          ∙ destruct-slot bits 1 size alignment a 0 0 some_size pos

      made :
          ((construct_single s).0 ≡ (construct bits 1 size alignment a).0)
          × Agree (construct_single s).1 (construct bits 1 size alignment a).1
      made = elim (Bool-cases s.used) [
        | inl u ↦
            rw
              (
                u,
                construct_single,
                construct-full bits 1 size alignment a
                    (lowest_of_used a.used (cc (v.same_used, u))),
              )
              (refl, record { same_used = sym u ∙ v.same_used; same_base = v.same_base })
        | inr u ↦
            let z : bits.lowest_unset 1 a.used ≡ 0 = lowest_of_free a.used (cc (v.same_used, u)) in
            rw (u, construct_single, construct-free bits 1 size alignment a (omega (arith, z)), z)
              (
                ap some (omega (arith, v.same_base)),
                record { same_used = sym (bits.set_lem 0 a.used 0); same_base = v.same_base },
              )
      ]
