-- ===== src/Examples/Gathering.antt =====
-- The signatures of the adaptors over several senders, at work. The type of every number is 7.
use mathlib.Core.List.Memᴰ
use cpp_baremetal_senders_an.Base.{
  sum_below, ◌<◌, ℕ, zero, suc, ◌≡◌, refl, ◌↔◌, ◌⊎◌, inl, inr, Bool, true, false, List, [], ◌∷◌,
  ◌∈◌, arith, subst,
}
use mathlib.Core.Option.{some-injective}
use cpp_baremetal_senders_an.Channel.{set_value, set_error, set_stopped}
use cpp_baremetal_senders_an.Sender.{error_tag, Signal, send}
use cpp_baremetal_senders_an.Signatures.{Signature, signature_of, sends_stopped, gather_signatures}
use cpp_baremetal_senders_an.WhenAll.{notify, request_stop, store_error, store}
use cpp_baremetal_senders_an.WhenAll.Steps as AllSteps
use cpp_baremetal_senders_an.WhenAll.Completions as AllC
use cpp_baremetal_senders_an.WhenAll.Advertised as AllA
use cpp_baremetal_senders_an.WhenAny.{first_successful, arrive, policy_emplace}
use cpp_baremetal_senders_an.WhenAny.Steps as AnySteps
use cpp_baremetal_senders_an.WhenAny.Completions as AnyC
use cpp_baremetal_senders_an.WhenAny.Advertised as AnyA
use cpp_baremetal_senders_an.TimeoutAfter as Timeout
use cpp_baremetal_senders_an.TimeoutAfter.Advertised as TimeoutA
use cpp_baremetal_senders_an.Examples.Types.{mps, mpt, mpss}

abbrev int : ℕ → ℕ
int v = 7

-- Two schedulers' senders, as their environment's token can be asked to stop or not.
abbrev scheduled : Bool → ℕ → List (Signature ℕ)
scheduled true i = set_value [] ∷ []
scheduled false i = set_value [] ∷ set_stopped ∷ []

-- The second child sends its value, and the first, that is asked to stop, is stopped; the environment
-- of the whole cannot be asked.
any_run : (w : AnySteps.World ℕ (List ℕ)) × AnyA.Kept mps int first_successful 2 true scheduled w
unfolding AnySteps.begun arrive policy_emplace
any_run =
    let k0 : AnyA.Kept mps int first_successful 2 true scheduled
        (AnySteps.begun first_successful 2) =
      AnyA.begun_kept in
    let k1 = AnyA.emplaced_kept 1 (set_value []) k0 (omega arith) refl (inl (Memᴰ.head refl)) in
    let k2 = AnyA.counted_kept 1 k1 (omega arith) refl in
    let k3 =
      AnyA.emplaced_kept 0 set_stopped k2 (omega arith) refl
        (inr (refl, Memᴰ.tail (Memᴰ.head refl))) in
    (_, AnyA.counted_kept 0 k3 (omega arith) refl)

any-advertised_example :
    ((any_run.0.op.delivered ≡ []) × (0 < sum_below 2 (λ i. AnySteps.left (any_run.0.phases i))))
    ⊎ ((c : Signal ℕ) × (any_run.0.op.delivered ≡ c ∷ [])
        × signature_of int c ∈ AnyC.get_completion_signatures mps (scheduled true) 2)
any-advertised_example =
    AnyA.any-advertised mps int first_successful 2 true scheduled
      (0, omega arith, Memᴰ.tail (Memᴰ.head refl)) any_run.1

abbrev forks : ℕ → Signal ℕ
forks i = set_value []

-- The sender fails at once, and the timeout, that was asked to stop, is stopped.
abbrev fails : Bool → List (Signature ℕ)
fails u = set_error (7 ∷ []) ∷ []

timeout_run :
    (w : AnySteps.World ℕ (List ℕ)) × AnyA.Kept mps int Timeout.stop_when_policy 2 false
      (λ u.
        Timeout.stop_when_children
          (Timeout.timeout_sender_completions mps error_tag (7 ∷ []) u)
          (fails u))
      w
unfolding AnySteps.begun arrive policy_emplace Timeout.stop_when_policy
timeout_run =
    let k0 : AnyA.Kept mps int Timeout.stop_when_policy 2 false
        (λ u.
          Timeout.stop_when_children (Timeout.timeout_sender_completions mps error_tag (7 ∷ []) u)
            (fails u))
        (AnySteps.begun Timeout.stop_when_policy 2) =
      AnyA.begun_kept in
    let k1 =
      AnyA.emplaced_kept 1 (set_error (9 ∷ [])) k0 (omega arith) refl (inl (Memᴰ.head refl)) in
    let k2 = AnyA.counted_kept 1 k1 (omega arith) refl in
    let k3 = AnyA.emplaced_kept 0 set_stopped k2 (omega arith) refl (
      inl (
        (TimeoutA.in_timeout_sender mps error_tag (7 ∷ []) false set_stopped).1
          (inl (refl, refl)))) in
    (_, AnyA.counted_kept 0 k3 (omega arith) refl)

timeout-advertised_example :
    (((timeout_run.0.op.delivered ≡ [])
        × (0 < sum_below 2 (λ i. AnySteps.left (timeout_run.0.phases i))))
      ⊎ ((c : Signal ℕ) × (timeout_run.0.op.delivered ≡ c ∷ [])
          × (((signature_of int c ≡ set_stopped) × (false ≡ false))
              ⊎ (signature_of int c ≡ send error_tag (7 ∷ []))
              ⊎ signature_of int c ∈ fails false)))
    × ((x : Signature ℕ)
        → x ∈ Timeout.timeout_completions mps error_tag (7 ∷ []) false (fails false) ↔ (
            ((x ≡ set_stopped) × (false ≡ false))
            ⊎ (x ≡ send error_tag (7 ∷ []))
            ⊎ x ∈ fails false))
timeout-advertised_example =
    TimeoutA.timeout-advertised mps error_tag (7 ∷ []) int false fails timeout_run.1

-- Two children that send a number, fail or are stopped: the first sends, the second fails.
abbrev child_sigs : ℕ → List (Signature ℕ)
child_sigs i = set_value (7 ∷ []) ∷ set_error (7 ∷ []) ∷ set_stopped ∷ []

abbrev first_of : List (List ℕ) → List ℕ
first_of [] = []
first_of (t ∷ ts) = t

abbrev both : ℕ → Bool
both = AllA.sends mps mpt mpss first_of (λ t ts h. refl) child_sigs 2 int

all_run : (w : AllSteps.World ℕ (List ℕ)) × AllSteps.Reach both 2 (AllSteps.begun 2) w
unfolding AllSteps.begun AllC.single_sender AllC.single_types gather_signatures
all_run =
    let w0 : AllSteps.World ℕ (List ℕ) = AllSteps.begun 2 in
    let r1 =
      AllSteps.next AllSteps.here (AllSteps.value_stored w0 0 (3 ∷ []) (omega arith) refl refl) in
    let r2 = AllSteps.next r1 (AllSteps.error_stored _ 1 (9 ∷ []) (omega arith) refl) in
    let r3 = AllSteps.next r2 (AllSteps.counted _ 0 (set_value (3 ∷ [])) (omega arith) refl) in
    (_, AllSteps.next r3 (AllSteps.counted _ 1 (set_error (9 ∷ [])) (omega arith) refl))

all_typed : AllA.Sent mps mpt mpss first_of (λ t ts h. refl) child_sigs 2 int all_run.0
unfolding all_run
all_typed zero c h e =
    subst (λ x. signature_of int x ∈ child_sigs 0) (some-injective _ _ e) (Memᴰ.head refl)
all_typed (suc zero) c h e =
    subst (λ x. signature_of int x ∈ child_sigs 1) (some-injective _ _ e)
      (Memᴰ.tail (Memᴰ.head refl))
all_typed (suc (suc i)) c h e = absurd (omega arith)

one_error : AllA.OneError mps mpt mpss first_of (λ t ts h. refl) child_sigs 2 (7 ∷ [])
unfolding AllC.single_types gather_signatures
one_error i ts h m = refl

delivered_error : set_error (9 ∷ []) ∈ all_run.0.op.delivered
unfolding all_run AllSteps.begun notify request_stop store_error store
delivered_error = Memᴰ.head refl

all-advertised_example :
    ((all_run.0.op.delivered ≡ []) × (0 < sum_below 2 (λ i. AllSteps.left (all_run.0.phases i))))
    ⊎ ((c : Signal ℕ) × (all_run.0.op.delivered ≡ c ∷ [])
        × signature_of int c ∈ AllC.get_completion_signatures mps mpt mpss first_of child_sigs 2)
unfolding sends_stopped
all-advertised_example =
    AllA.all-advertised mps mpt mpss first_of (λ t ts h. refl) child_sigs 2 int (7 ∷ []) one_error
      (0, omega arith, refl) all_run.1 all_typed
