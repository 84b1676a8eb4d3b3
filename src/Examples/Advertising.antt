-- ===== src/Examples/Advertising.antt =====
-- The signatures of the adaptors over one sender, at work. The type of every number is 7.
use mathlib.Core.List
use mathlib.Core.List.Memᴰ
use cpp_baremetal_senders_an.Base.{
  ℕ, zero, suc, ◌≡◌, refl, ◌↔◌, Bool, true, false, not, none, List, [], ◌∷◌, ◌++◌, ◌∈◌, length,
  arith,
}
use cpp_baremetal_senders_an.Channel.{set_value, set_error, set_stopped}
use cpp_baremetal_senders_an.Sender.{Tag, value_tag, stopped_tag, Signal, tag_of, Run, args_of}
use cpp_baremetal_senders_an.Signatures.{
  Signature, signature_of, any_tag, sends_stopped, transform_completion_signatures,
  default_set_error,
}
use cpp_baremetal_senders_an.Then.{handle}
use cpp_baremetal_senders_an.Then.Completions as Then
use cpp_baremetal_senders_an.Let
use cpp_baremetal_senders_an.Let.Completions as LetC
use cpp_baremetal_senders_an.Repeat
use cpp_baremetal_senders_an.Repeat.Exits as RepeatE
use cpp_baremetal_senders_an.Repeat.Completions as RepeatC
use cpp_baremetal_senders_an.Retry.Exits as RetryE
use cpp_baremetal_senders_an.Periodic
use cpp_baremetal_senders_an.Periodic.Completions as PeriodicC
use cpp_baremetal_senders_an.Split
use cpp_baremetal_senders_an.Split.Completions as SplitC
use cpp_baremetal_senders_an.Examples.Types.{mps, mpl, transformer, sig_discrete}

abbrev int : ℕ → ℕ
int v = 7

-- A sender of two numbers, or of an error, that can be stopped.
abbrev sigs : List (Signature ℕ)
sigs = set_value (7 ∷ 7 ∷ []) ∷ set_error (7 ∷ []) ∷ set_stopped ∷ []

-- A function that gives the number of its arguments.
abbrev counted : List ℕ → List ℕ
counted vs = length vs ∷ []

abbrev one_int : List ℕ → List ℕ
one_int ts = 7 ∷ []

handle-advertised_example :
    ((s : Signal ℕ)
      → signature_of int s ∈ sigs
      → signature_of int (handle stopped_tag value_tag counted s)
        ∈ Then.get_completion_signatures mps stopped_tag value_tag one_int sigs)
    × ((x : Signature ℕ)
        → x ∈ Then.get_completion_signatures mps stopped_tag value_tag one_int sigs
          ↔ ((sig : Signature ℕ) × sig ∈ sigs × (x ≡ handle stopped_tag value_tag one_int sig)))
handle-advertised_example =
    Then.handle-advertised int mps stopped_tag value_tag counted one_int sigs (λ vs. refl)

then_sigs :
    Then.get_completion_signatures mps value_tag value_tag one_int sigs
    ≡ set_value (7 ∷ []) ∷ set_error (7 ∷ []) ∷ set_stopped ∷ []
unfolding Then.get_completion_signatures transform_completion_signatures List.flatten
    default_set_error sig_discrete
then_sigs = refl

-- The senders that a function makes of a completion, by the types of their values: one that sends
-- what it is given, and fails where it is given two numbers.
abbrev completions_of : List ℕ → List (Signature ℕ)
completions_of ts = set_value ts ∷ []

abbrev again : Tag → List ℕ → Run ℕ
again t vs = record { started = 5 ∷ []; completion = set_value vs }

abbrev leaf : Run ℕ
leaf = record { started = 1 ∷ []; completion = set_value (3 ∷ 4 ∷ []) }

again_typed :
    (s : Signal ℕ)
    → any_tag (value_tag ∷ []) (tag_of s) ≡ true
    → signature_of int (again (tag_of s) (args_of s)).completion
      ∈ completions_of (args_of (signature_of int s))
again_typed (set_value vs) h = Memᴰ.head refl
again_typed (set_error vs) h = absurd (cc h)
again_typed set_stopped h = absurd (cc h)

start-advertised_example :
    ((c : Signal ℕ) × ((Let.start (any_tag (value_tag ∷ [])) again leaf Let.new_op).delivered
        ≡ c ∷ [])
      × signature_of int c
        ∈ LetC.get_completion_signatures mps mpl transformer transformer
            (value_tag ∷ [])
            args_of
            completions_of
            sigs)
    × ((x : Signature ℕ)
        → x
            ∈ LetC.get_completion_signatures mps mpl transformer transformer
                (value_tag ∷ [])
                args_of
                completions_of
                sigs
          ↔ ((sig : Signature ℕ) × sig ∈ sigs
              × LetC.Bound mps mpl transformer transformer
                  (value_tag ∷ [])
                  args_of
                  completions_of
                  sig
                  x))
start-advertised_example =
    LetC.start-advertised mps mpl transformer transformer (value_tag ∷ []) args_of completions_of
      int again sigs again_typed leaf (Memᴰ.head refl)

-- A sender that fails, after one of two numbers.
abbrev failing : Run ℕ
failing = record { started = 2 ∷ []; completion = set_error (9 ∷ []) }

-- A sender that cannot be stopped.
abbrev plain : List (Signature ℕ)
plain = set_value (7 ∷ []) ∷ set_error (7 ∷ []) ∷ []

abbrev not_asked : ℕ → Bool
not_asked k = false

abbrev sends_index : ℕ → Signal ℕ
sends_index k = set_value (k ∷ [])

abbrev second_time : {A : Type 0} → A → ℕ → Bool × ℕ
second_time a zero = (false, 1)
second_time a (suc q) = (true, 1)

repeats_twice :
    RepeatE.Exits second_time
      (not (sends_stopped mps plain))
      not_asked
      sends_index
      0
      0
      2
      (set_value (1 ∷ []))
unfolding sends_stopped
repeats_twice =
    RepeatE.again 0 0 (0 ∷ []) 1 (set_value (1 ∷ [])) refl refl refl
      (RepeatE.satisfied 1 1 (1 ∷ []) refl refl refl)

repeat-advertised_example :
    signature_of int (set_value (1 ∷ [])) ∈ RepeatC.get_completion_signatures mps false false plain
    × RepeatE.Ended second_time
        (not (sends_stopped mps plain))
        not_asked
        sends_index
        (Repeat.new_op 0)
        2
        (set_value (1 ∷ []))
        (Repeat.sync_start second_time
          (not (sends_stopped mps plain))
          not_asked
          sends_index
          4
          (Repeat.new_op 0))
    × RepeatE.Ended second_time
        (not (sends_stopped mps plain))
        not_asked
        sends_index
        (Repeat.new_op 0)
        2
        (set_value (1 ∷ []))
        (Repeat.async_start second_time
          (not (sends_stopped mps plain))
          not_asked
          sends_index
          4
          (Repeat.new_op 0))
repeat-advertised_example =
    RepeatC.repeat-advertised mps false false plain int second_time not_asked sends_index
      (λ k. Memᴰ.head refl) (λ h vs q. absurd (cc h)) (λ h k. refl) repeats_twice 4 (omega arith)

-- A sender that fails with the number of its connection.
abbrev fails_index : ℕ → Signal ℕ
fails_index k = set_error (k ∷ [])

retries_twice :
    RetryE.Exits second_time
      (not (sends_stopped mps plain))
      not_asked
      fails_index
      0
      0
      2
      (set_error (1 ∷ []))
unfolding sends_stopped
retries_twice =
    RetryE.again 0 0 (0 ∷ []) 1 (set_error (1 ∷ [])) refl refl refl
      (RetryE.given_up 1 1 (1 ∷ []) refl refl refl)

-- A split sender whose stop source was asked to stop.
abbrev asked_before : Split.State ℕ (List ℕ)
asked_before = record {
  values = none;
  linked_ops = none;
  single_ops = true;
  single_starts = 0;
  stop_requested = true;
  next_ops = λ t. none;
  stop_cb = λ t. false;
  started = λ t. false;
  asked = λ t. false;
  delivered = λ t. [];
}

split-unadvertised_example :
    (c : Signal ℕ) × ((Split.start (λ t s. s) 3 asked_before).delivered 3
      ≡ asked_before.delivered 3 ++ c ∷ [])
    × (signature_of int c ∈ SplitC.get_completion_signatures plain → ⊥)
unfolding sends_stopped
split-unadvertised_example =
    SplitC.split-unadvertised mps int (λ t s. s) plain asked_before 3 refl refl refl

-- A periodic sender whose sender cannot be stopped, at its first completion.
abbrev first_period : Periodic.OpState ℕ (List ℕ) ℕ
first_period = Periodic.start 100 (Periodic.new_op 10 0)

periodic-unadvertised_example :
    (c : Signal ℕ) × ((Periodic.receive Periodic.unsafe_expiry second_time
        (not (sends_stopped mps plain))
        true
        130
        (set_value (3 ∷ []))
        first_period).delivered
      ≡ first_period.delivered ++ c ∷ [])
    × (signature_of int c ∈ PeriodicC.get_completion_signatures mps false plain → ⊥)
unfolding sends_stopped Periodic.start Periodic.new_op
periodic-unadvertised_example =
    PeriodicC.periodic-unadvertised mps int false plain Periodic.unsafe_expiry second_time 130
      (3 ∷ []) first_period refl refl
