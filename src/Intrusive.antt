-- ===== src/Intrusive.antt =====
-- stdx::intrusive_list and stdx::intrusive_forward_list, which the managers and the stop source
-- keep their nodes in. The lists are third-party code: their operations are parameters of the
-- model, over the sequence of node addresses that a list links, and the laws are their documented
-- behaviour. Nothing is said of `pop_front` on an empty list, of removing a node that is not in
-- the list or of linking a node twice, which the library forbids.
use cpp_baremetal_senders_an.Base.{
  ℕ, ◌≤◌, ◌≡◌, refl, List, [], ◌∷◌, ◌++◌, length, count, erase, insert_at,
}

pub record IntrusiveList : Type 0 where
  pub push_back : ℕ → List ℕ → List ℕ
  pub pop_front : List ℕ → ℕ × List ℕ
  pub remove : ℕ → List ℕ → List ℕ
  -- Insertion before the node at a position, the end included.
  pub insert : ℕ → ℕ → List ℕ → List ℕ
  pub push_back_lem : (t : ℕ) (q : List ℕ) → count t q ≡ 0 → push_back t q ≡ q ++ t ∷ []
  pub pop_front_lem : (t : ℕ) (q : List ℕ) → pop_front (t ∷ q) ≡ (t, q)
  pub remove_lem : (t : ℕ) (q : List ℕ) → count t q ≡ 1 → remove t q ≡ erase t q
  pub insert_lem :
      (n t : ℕ) (q : List ℕ) → n ≤ length q → count t q ≡ 0 → insert n t q ≡ insert_at n t q

abbrev pop_first : List ℕ → ℕ × List ℕ
pop_first [] = (0, [])
pop_first (t ∷ q) = (t, q)

-- A list that meets the laws.
abbrev pub plain_list : IntrusiveList
plain_list = record {
  push_back = λ t q. q ++ t ∷ [];
  pop_front = pop_first;
  remove = erase;
  insert = insert_at;
  push_back_lem = λ t q _. refl;
  pop_front_lem = λ t q. refl;
  remove_lem = λ t q _. refl;
  insert_lem = λ n t q _ _. refl;
}
