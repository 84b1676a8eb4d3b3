-- ===== src/TimerManager/Order.antt =====
-- Ascending lists of time points, and the place where a new one goes.
use mathlib.Core.List.{map}
use cpp_baremetal_senders_an.Base.{
  ℕ, zero, suc, ◌≤◌, ◌≡◌, refl, ap, inl, inr, List, [], ◌∷◌, arith, if◌then◌else◌, ltb, length,
  count, erase, insert_at, update, ltb→lt, ltb-false, Bool-cases,
}
use cpp_baremetal_senders_an.TimerManager.{find_later}

abbrev pub AtLeast : ℕ → List ℕ → Type 0
AtLeast k [] = Unit {0}
AtLeast k (x ∷ xs) = (k ≤ x) × AtLeast k xs

abbrev pub AtMost : ℕ → List ℕ → Type 0
AtMost k [] = Unit {0}
AtMost k (x ∷ xs) = (x ≤ k) × AtMost k xs

abbrev pub IsSorted : List ℕ → Type 0
IsSorted [] = Unit {0}
IsSorted (x ∷ xs) = AtLeast x xs × IsSorted xs

pub AtLeast-mono : (j k : ℕ) (xs : List ℕ) → j ≤ k → AtLeast k xs → AtLeast j xs
AtLeast-mono j k [] h a = tt
AtLeast-mono j k (x ∷ xs) h a = (omega arith, AtLeast-mono j k xs h a.1)

pub AtLeast-insert_at :
    (k n v : ℕ) (xs : List ℕ) → k ≤ v → AtLeast k xs → AtLeast k (insert_at n v xs)
AtLeast-insert_at k zero v xs h a = (h, a)
AtLeast-insert_at k (suc n) v [] h a = (h, tt)
AtLeast-insert_at k (suc n) v (x ∷ xs) h a = (a.0, AtLeast-insert_at k n v xs h a.1)

-- `find_later` over the time points themselves.
unfoldable pub first_above : ℕ → List ℕ → ℕ
first_above k [] = 0
first_above k (x ∷ xs) = if ltb k x then 0 else suc (first_above k xs)

pub find_later-map : (e : ℕ → ℕ) (k : ℕ) (q : List ℕ) → find_later e k q ≡ first_above k (map e q)
unfolding find_later first_above
find_later-map e k [] = refl
find_later-map e k (x ∷ q) = ground (arith, find_later-map e k q)

pub first_above-le : (k : ℕ) (xs : List ℕ) → first_above k xs ≤ length xs
unfolding first_above
first_above-le k [] = omega arith
first_above-le k (x ∷ xs) = ground (arith, first_above-le k xs)

pub insert_at-IsSorted :
    (k : ℕ) (xs : List ℕ) → IsSorted xs → IsSorted (insert_at (first_above k xs) k xs)
unfolding first_above
insert_at-IsSorted k [] s = (tt, tt)
insert_at-IsSorted k (x ∷ xs) s = elim (Bool-cases (ltb k x)) [
  | inl lt ↦
      rw (lt, first_above)
        ((omega (arith, ltb→lt k x lt), AtLeast-mono k x xs (omega (arith, ltb→lt k x lt)) s.0), s)
  | inr ge ↦
      rw (ge, first_above)
        (
          AtLeast-insert_at x (first_above k xs) k xs (ltb-false k x ge) s.0,
          insert_at-IsSorted k xs s.1,
        )
]

pub map-insert_at :
    (e : ℕ → ℕ) (n t : ℕ) (q : List ℕ) → map e (insert_at n t q) ≡ insert_at n (e t) (map e q)
map-insert_at e zero t q = refl
map-insert_at e (suc n) t [] = refl
map-insert_at e (suc n) t (x ∷ q) = ap (λ l. e x ∷ l) (map-insert_at e n t q)

pub map-update : (e : ℕ → ℕ) (t v : ℕ) (q : List ℕ) → count t q ≡ 0 → map (update e t v) q ≡ map e q
map-update e t v [] h = refl
map-update e t v (x ∷ q) h = ground (arith, map-update e t v q)

AtLeast-erase :
    (e : ℕ → ℕ) (k t : ℕ) (q : List ℕ) → AtLeast k (map e q) → AtLeast k (map e (erase t q))
AtLeast-erase e k t [] a = tt
AtLeast-erase e k t (x ∷ q) a = ground (arith, AtLeast-erase e k t q)

pub erase-IsSorted :
    (e : ℕ → ℕ) (t : ℕ) (q : List ℕ) → IsSorted (map e q) → IsSorted (map e (erase t q))
erase-IsSorted e t [] s = tt
erase-IsSorted e t (x ∷ q) s =
    ground (arith, erase-IsSorted e t q s.1, AtLeast-erase e (e x) t q s.0)

pub length-map : (e : ℕ → ℕ) (q : List ℕ) → length (map e q) ≡ length q
length-map e [] = refl
length-map e (x ∷ q) = ap suc (length-map e q)
