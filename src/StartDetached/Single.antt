-- ===== src/StartDetached/Single.antt =====
-- The static allocators for one object, of the types of operation that are started under a name, as
-- the allocator of operations that are started detached.
use cpp_baremetal_senders_an.Base.{
  ℕ, ◌≡◌, refl, sym, ap, ◌∙◌, Bool, true, false, Option, none, some, update, update-unchanged, inl,
  inr, Bool-cases,
}
use mathlib.Core.Path.{fun_ext}
use mathlib.Core.Option.{some-injective}
use cpp_baremetal_senders_an.StaticAllocator.{SingleAllocator, construct_single, destruct_single}
use cpp_baremetal_senders_an.StartDetached.{Allocation}

-- The allocators of a name, one for each type of operation state: which of them are in use. The
-- storage of each stays where it is; the pointer to it, which has the type, is the type's number.
abbrev pub Singles : Type 0
Singles = ℕ → Bool

abbrev pub cell : Singles → ℕ → SingleAllocator
cell s ty = record { used = s ty; base = ty }

unfoldable pub construct_in : ℕ → Singles → Option ℕ × Singles
construct_in ty s = let (p, a) = construct_single (cell s ty) in (p, update s ty a.used)

unfoldable pub destruct_in : ℕ → Singles → Singles
destruct_in p s = update s p (destruct_single p (cell s p)).used

pub construct_in-used :
    (ty : ℕ) (s : Singles) (p : ℕ)
    → (construct_in ty s).0 ≡ some p
    → (p ≡ ty) × (s p ≡ false) × ((q : ℕ) → (construct_in ty s).1 q ≡ update s p true q)
unfolding construct_in construct_single
construct_in-used ty s p e = elim (Bool-cases (s ty)) [
  | inl u ↦ absurd (cc (taken u, e))
  | inr u ↦
      let same : ty ≡ p = some-injective ty p (sym (fresh u) ∙ e) in
      (sym same, ap s (sym same) ∙ u, λ q. rw (sym same, u) refl)
]
  where
    taken : s ty ≡ true → (construct_in ty s).0 ≡ none
    taken u = rw u refl

    fresh : s ty ≡ false → (construct_in ty s).0 ≡ some ty
    fresh u = rw u refl

pub construct_in-full :
    (ty : ℕ) (s : Singles) → (construct_in ty s).0 ≡ none → (construct_in ty s).1 ≡ s
unfolding construct_in construct_single
construct_in-full ty s e = elim (Bool-cases (s ty)) [
  | inl u ↦ rw u (fun_ext (λ q. sym (update-unchanged s ty true u q)))
  | inr u ↦ absurd (cc (free u, e))
]
  where
    free : s ty ≡ false → (construct_in ty s).0 ≡ some ty
    free u = rw u refl

pub destruct_in-used :
    (p : ℕ) (s : Singles) → s p ≡ true → (q : ℕ) → destruct_in p s q ≡ update s p false q
unfolding destruct_in destruct_single
destruct_in-used p s h q = refl

abbrev pub singles : Allocation
singles = record {
  State = Singles;
  type_of = λ p. p;
  limit = λ _. 1;
  used = λ s. s;
  construct = construct_in;
  destruct = destruct_in;
  construct_some = construct_in-used;
  construct_none = construct_in-full;
  destruct_lem = destruct_in-used;
  limit_one = λ s p q _ same _ _. same;
}
