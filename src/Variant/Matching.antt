-- ===== src/Variant/Matching.antt =====
-- A variant sender runs the sender of the first option that matches.
use cpp_baremetal_senders_an.Base.{
  ℕ, zero, suc, ◌+◌, ◌-◌, ◌%◌, ◌^◌, ◌≤◌, ◌<◌, ◌≡◌, refl, ap, ◌∙◌, true, some, List, [], ◌∷◌, ◌==◌,
  if◌then◌else◌, get_elem?, arith, inl, inr, length, Bool-cases,
}
use native.Mathlib.Nat.{mod-eq_of_lt, mod_self}
use cpp_baremetal_senders_an.Sender.{Run}
use cpp_baremetal_senders_an.Variant.{
  MatchOption, next_index, first_matching_index, run, visit_workaround, connect, start,
  start_matched,
}

module _ {A R : Type 0} where
  -- The option that a plain reading of the list chooses: the first whose test is met, or the last,
  -- with its index.
  pub chosen : MatchOption A R → List (MatchOption A R) → A → ℕ × MatchOption A R
  chosen o [] a = (0, o)
  chosen o (o' ∷ os) a = let (i, p) = chosen o' os a in if o.test a then (0, o) else (suc i, p)

  next_index-chosen :
      (w i k : ℕ) (o : MatchOption A R) (os : List (MatchOption A R)) (a : A)
      → (i + 1) % 2 ^ w ≡ k
      → k + length (o ∷ os) ≤ 2 ^ w
      → next_index w i (o ∷ os) a ≡ k + (chosen o os a).0
  unfolding next_index chosen
  next_index-chosen w i k o [] a e h = elim (Bool-cases (o.test a)) [
    | inl t ↦ simp (next_index, chosen, t, e) (omega arith)
    | inr t ↦ simp (next_index, chosen, t, e) (omega arith)
  ]
  next_index-chosen w i k o (o' ∷ os) a e h = elim (Bool-cases (o.test a)) [
    | inl t ↦ rw (t, e) (omega arith)
    | inr t ↦
        rw (t, e)
          (next_index-chosen w k (suc k) o' os a (mod-eq_of_lt (omega (arith, h)) ∙ omega arith)
              (omega (arith, h))
            ∙ omega arith)
  ]

  get_elem?-chosen :
      (o : MatchOption A R) (os : List (MatchOption A R)) (a : A)
      → get_elem? (o ∷ os) (chosen o os a).0 ≡ some (chosen o os a).1
  unfolding chosen
  get_elem?-chosen o [] a = refl
  get_elem?-chosen o (o' ∷ os) a = elim (Bool-cases (o.test a)) [
    | inl t ↦ rw t refl
    | inr t ↦ rw t (get_elem?-chosen o' os a)
  ]

  chosen-lt :
      (o : MatchOption A R) (os : List (MatchOption A R)) (a : A) → (chosen o os a).0 ≤ length os
  unfolding chosen
  chosen-lt o [] a = omega arith
  chosen-lt o (o' ∷ os) a = elim (Bool-cases (o.test a)) [
    | inl t ↦ rw t (omega arith)
    | inr t ↦ rw t (omega (arith, chosen-lt o' os a))
  ]

  first_matching_index-chosen :
      (w : ℕ) (o : MatchOption A R) (os : List (MatchOption A R)) (a : A)
      → length (o ∷ os) ≤ 2 ^ w
      → first_matching_index w (o ∷ os) a ≡ (chosen o os a).0
  unfolding first_matching_index
  first_matching_index-chosen w o os a h =
      let around : (2 ^ w - 1 + 1) % 2 ^ w ≡ 0 =
        ap (λ x. x % 2 ^ w) (omega (arith, h)) ∙ mod_self (2 ^ w) in
      next_index-chosen w (2 ^ w - 1) 0 o os a around (omega (arith, h)) ∙ omega arith

  run-chosen :
      (w : ℕ) (o : MatchOption A R) (os : List (MatchOption A R)) (a : A)
      → length (o ∷ os) ≤ 2 ^ w
      → run w (o ∷ os) a ≡ some ((chosen o os a).0, (chosen o os a).1.invoke a)
  unfolding run
  run-chosen w o os a h =
      let e = first_matching_index-chosen w o os a h in
      rw (run, e, get_elem?-chosen o os a) (ap (λ i. some (i, (chosen o os a).1.invoke a)) e)

visit-index :
    {A R : Type 0} (n : ℕ) (f : A → R) (i : ℕ) (v : A)
    → i ≤ n
    → visit_workaround n f (i, v) ≡ some (f v)
unfolding visit_workaround
visit-index zero f i v h = let here : (0 == i) ≡ true = ground (arith, h) in rw here refl
visit-index (suc n) f i v h = elim (Bool-cases (suc n == i)) [
  | inl e ↦ rw e refl
  | inr e ↦ rw e (visit-index n f i v (ground (arith, h, e)))
]

connect-index : {V : Type 0} (size i : ℕ) (r : Run V) → i < size → connect size (i, r) ≡ some (i, r)
unfolding connect
connect-index {V = V} size i r h =
    let pair : Run V → ℕ × Run V = λ r. (i, r) in visit-index (size - 1) pair i r (omega (arith, h))

pub start-index : {V : Type 0} (size i : ℕ) (r : Run V) → i < size → start size (i, r) ≡ some r
unfolding start
start-index size i r h =
    rw (start, connect-index size i r h) (visit-index (size - 1) (λ r. r) i r (omega (arith, h)))

-- Where the options are at least one and no more than an index can count, a variant sender that is
-- started does what the sender does that the first option makes whose test the arguments meet, or
-- the last option where none is met: no access outside of the array of selectors and no unreachable
-- alternative comes up.
pub start-matched :
    {A V : Type 0} (w : ℕ) (o : MatchOption A (Run V)) (os : List (MatchOption A (Run V))) (a : A)
    → length (o ∷ os) ≤ 2 ^ w
    → start_matched w (o ∷ os) a ≡ some ((chosen o os a).1.invoke a)
unfolding start_matched
start-matched w o os a h =
    rw (start_matched, run-chosen w o os a h)
      (start-index (length (o ∷ os)) (chosen o os a).0 _ (omega (arith, chosen-lt o os a)))
