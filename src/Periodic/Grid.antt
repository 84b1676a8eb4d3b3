-- ===== src/Periodic/Grid.antt =====
-- When a periodic operation fires.
use native.Mathlib.Nat.{div-add-mod, mod-lt}
use cpp_baremetal_senders_an.Base.{
  ℕ, ◌+◌, ◌-◌, ◌*◌, ◌/◌, ◌≤◌, ◌<◌, ◌≡◌, refl, ◌∙◌, inl, inr, ◌⊎◌, Bool, List, [], ◌∷◌, ◌++◌, ◌&&◌,
  arith, ltb, Bool-cases, ltb→lt, ltb-false,
}
use cpp_baremetal_senders_an.Channel.{Completion, set_value, set_error, set_stopped}
use cpp_baremetal_senders_an.Periodic.{
  safe_quantized_nth_expiration, safe_immediate_nth_expiration, Expiry, unsafe_expiry,
  safe_quantized_expiry, safe_immediate_expiry, nth_expiration, OpState, new_op, State, idle,
  first_run, nth_run, start, restart, repeat_step, receive, run, passthrough,
}

quantized_late :
    (d tp now : ℕ)
    → tp + d < now
    → safe_quantized_nth_expiration d tp now ≡ tp + d + d * ((now - (tp + d) - 1) / d + 1)
unfolding safe_quantized_nth_expiration
quantized_late d tp now h = ground (arith, h)

quantized_on_time : (d tp now : ℕ) → now ≤ tp + d → safe_quantized_nth_expiration d tp now ≡ tp + d
unfolding safe_quantized_nth_expiration
quantized_on_time d tp now h = ground (arith, h)

-- For a positive duration, the quantized provider picks the first time point that is one or more
-- whole periods after the last one and does not lie in the past.
pub quantized_lem :
    (d tp now : ℕ)
    → 0 < d
    → (k : ℕ) × (safe_quantized_nth_expiration d tp now ≡ tp + d * (k + 1))
      × (now ≤ tp + d * (k + 1))
      × ((k ≡ 0) ⊎ (tp + d * k < now))
quantized_lem d tp now pos = elim (Bool-cases (ltb (tp + d) now)) [
  | inr early ↦
      let h = ltb-false _ _ early in
      (0, quantized_on_time d tp now h ∙ omega arith, omega (arith, h), inl refl)
  | inl late ↦
      let h = ltb→lt _ _ late in
      let diff : ℕ = now - (tp + d) - 1 in
      let split = div-add-mod diff d in
      let below = mod-lt diff pos in
      (
        diff / d + 1,
        quantized_late d tp now h ∙ omega arith,
        omega (arith, split, below, h),
        inr (omega (arith, split, below, h)),
      )
]

-- A time point that lies a whole number of periods after `t`.
abbrev pub OnGrid : ℕ → ℕ → ℕ → Type 0
OnGrid d t x = (k : ℕ) × (x ≡ t + d * k)

abbrev pub AllOnGrid : ℕ → ℕ → List ℕ → Type 0
AllOnGrid d t [] = Unit {0}
AllOnGrid d t (x ∷ xs) = OnGrid d t x × AllOnGrid d t xs

AllOnGrid-append :
    (d t : ℕ) (xs : List ℕ) (x : ℕ) → AllOnGrid d t xs → OnGrid d t x → AllOnGrid d t (xs ++ x ∷ [])
AllOnGrid-append d t [] x a o = (o, tt)
AllOnGrid-append d t (y ∷ xs) x a o = (a.0, AllOnGrid-append d t xs x a.1 o)

-- The two providers that keep the phase.
abbrev pub KeepsPhase : Expiry → Type 0
KeepsPhase unsafe_expiry = Unit {0}
KeepsPhase safe_immediate_expiry = ⊥
KeepsPhase safe_quantized_expiry = Unit {0}

nth-OnGrid :
    (x : Expiry) (d t tp now : ℕ)
    → KeepsPhase x
    → 0 < d
    → OnGrid d t tp
    → OnGrid d t (nth_expiration x d tp now)
unfolding nth_expiration
nth-OnGrid unsafe_expiry d t tp now kp pos (k, e) = (k + 1, omega (arith, e))
nth-OnGrid safe_immediate_expiry d t tp now kp pos o = absurd kp
nth-OnGrid safe_quantized_expiry d t tp now kp pos (k, e) =
    let (j, q, _, _) = quantized_lem d tp now pos in (k + j + 1, omega (arith, e, q))

module _ {V E P : Type 0} (x : Expiry) (pred : List V → P → Bool × P) (checks : Bool) (d t : ℕ)
    (kp : KeepsPhase x) (pos : 0 < d) where
  record Phased (s : OpState V E P) : Type 0 where
    period : s.d ≡ d
    last : OnGrid d t s.tp
    fired : AllOnGrid d t s.expirations

  restart-Phased :
      (stopped : Bool) (now : ℕ) (s : OpState V E P)
      → Phased s
      → Phased (restart x pred checks stopped now s)
  unfolding restart passthrough
  restart-Phased stopped now s v = elim (Bool-cases (checks && stopped)) [
    | inl h ↦ rw (h, restart) (record { period = v.period; last = v.last; fired = v.fired })
    | inr h ↦
        let next : OnGrid d t (nth_expiration x s.d s.tp now) =
          rw v.period (nth-OnGrid x d t s.tp now kp pos v.last) in
        rw (h, restart)
          (record {
            period = v.period;
            last = next;
            fired = AllOnGrid-append d t s.expirations _ v.fired next;
          })
  ]

  receive-Phased :
      (stopped : Bool) (now : ℕ) (c : Completion V E) (s : OpState V E P)
      → Phased s
      → Phased (receive x pred checks stopped now c s)
  unfolding receive repeat_step passthrough
  receive-Phased stopped now (set_error e) s v = record {
    period = v.period;
    last = v.last;
    fired = v.fired;
  }
  receive-Phased stopped now set_stopped s v = record {
    period = v.period;
    last = v.last;
    fired = v.fired;
  }
  receive-Phased stopped now (set_value vs) s v = elim (Bool-cases (pred vs s.pred_state).0) [
    | inl h ↦ rw (h, repeat_step) (record { period = v.period; last = v.last; fired = v.fired })
    | inr h ↦
        rw (h, repeat_step)
          (restart-Phased stopped now (record s { pred_state = (pred vs s.pred_state).1 })
            (record { period = v.period; last = v.last; fired = v.fired }))
  ]

  run-Phased :
      (es : List (Bool × ℕ × Completion V E)) (s : OpState V E P)
      → Phased s
      → Phased (run x pred checks es s)
  unfolding run
  run-Phased [] s v = v
  run-Phased ((stopped, now, c) ∷ es) s v =
      pick s.state (run-Phased es _ (receive-Phased stopped now c s v))
    where
      pick :
          (st : State)
          → Phased (run x pred checks es (receive x pred checks stopped now c s))
          → Phased (elim st [
            | idle ↦ s
            | first_run ↦ run x pred checks es (receive x pred checks stopped now c s)
            | nth_run ↦ run x pred checks es (receive x pred checks stopped now c s)
          ])
      pick idle again = v
      pick first_run again = again
      pick nth_run again = again

-- For a positive duration, a periodic operation under the unsafe or the quantized provider never
-- drifts: every time point that it fires for, over any sequence of completions and clock readings,
-- is a whole number of periods after the first.
pub run_on_grid :
    {V E P : Type 0} (x : Expiry) (pred : List V → P → Bool × P) (checks : Bool) (d now : ℕ) (q : P)
    (es : List (Bool × ℕ × Completion V E))
    → KeepsPhase x
    → 0 < d
    → AllOnGrid d (now + d) (run x pred checks es (start now (new_op d q))).expirations
unfolding start new_op
run_on_grid x pred checks d now q es kp pos =
    (run-Phased x pred checks d (now + d) kp pos es (start now (new_op d q))
      (record { period = refl; last = (0, omega arith); fired = ((0, omega arith), tt) })).fired

-- For a positive duration, the two safe providers never answer with a time point in the past, nor
-- with one less than a period after the last; the immediate one answers with the least that is
-- neither.
pub safe_expirations :
    (d tp now : ℕ)
    → 0 < d
    → ((now ≤ nth_expiration safe_quantized_expiry d tp now)
        × (tp + d ≤ nth_expiration safe_quantized_expiry d tp now))
      × (now ≤ nth_expiration safe_immediate_expiry d tp now)
      × (tp + d ≤ nth_expiration safe_immediate_expiry d tp now)
      × ((x : ℕ) → now ≤ x → tp + d ≤ x → nth_expiration safe_immediate_expiry d tp now ≤ x)
unfolding nth_expiration safe_immediate_nth_expiration
safe_expirations d tp now pos =
    let (k, e, late, _) = quantized_lem d tp now pos in
    ((omega (arith, e, late), omega (arith, e)), omega arith, omega arith, λ x a b. omega arith)
