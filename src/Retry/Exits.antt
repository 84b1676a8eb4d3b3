-- ===== src/Retry/Exits.antt =====
-- The specification of `retry_until`, and that both forms of the operation meet it.
use cpp_baremetal_senders_an.Base.{
  ℕ, zero, suc, ◌+◌, ◌≤◌, ◌≡◌, refl, ap, ◌∙◌, sym, inl, inr, Bool, true, false, Option, some, List,
  [], ◌∷◌, ◌++◌, ◌&&◌, arith, Bool-cases,
}
use cpp_baremetal_senders_an.Channel.{Completion, set_value, set_error, set_stopped}
use cpp_baremetal_senders_an.Retry.{
  OpState, new_op, setup, passthrough, retry_step, receive, begin_loop, sync_loop, sync_start,
  async_loop, async_start,
}

module _ {V E P : Type 0} (pred : E → P → Bool × P) (checks : Bool) (stop : ℕ → Bool)
    (child : ℕ → Completion V E) where
  -- From connection `k` and a state of the predicate, the child is started `m` times and the
  -- operation then completes with `c`.
  pub data Exits : ℕ → P → ℕ → Completion V E → Type 0 where
    cancelled : (k : ℕ) (q : P) → (checks && stop k) ≡ true → Exits k q 0 set_stopped
    succeeded :
        (k : ℕ) (q : P) (vs : List V)
        → (checks && stop k) ≡ false
        → child k ≡ set_value vs
        → Exits k q 1 (set_value vs)
    stopped :
        (k : ℕ) (q : P)
        → (checks && stop k) ≡ false
        → child k ≡ set_stopped
        → Exits k q 1 set_stopped
    given_up :
        (k : ℕ) (q : P) (e : E)
        → (checks && stop k) ≡ false
        → child k ≡ set_error e
        → (pred e q).0 ≡ true
        → Exits k q 1 (set_error e)
    again :
        (k : ℕ) (q : P) (e : E) (m : ℕ) (c : Completion V E)
        → (checks && stop k) ≡ false
        → child k ≡ set_error e
        → (pred e q).0 ≡ false
        → Exits (suc k) (pred e q).1 m c
        → Exits k q (suc m) c

  -- A form of the operation ended with `c` after `m` starts.
  abbrev pub Ended : OpState V E P → ℕ → Completion V E → Option (OpState V E P) → Type 0
  Ended s m c r =
      (s' : OpState V E P) × (r ≡ some s')
      × (s'.delivered ≡ s.delivered ++ c ∷ [])
      × (s'.starts ≡ s.starts + m)
      × (s'.has_state ≡ false)

  sync_over :
      (fuel k : ℕ) (s : OpState V E P)
      → s.has_state ≡ false
      → sync_loop pred checks stop child (suc fuel) k s ≡ some s
  unfolding sync_loop
  sync_over fuel k s h = rw h

  sync_on :
      (fuel k : ℕ) (s : OpState V E P)
      → s.has_state ≡ true
      → sync_loop pred checks stop child (suc fuel) k s
        ≡ sync_loop pred checks stop child fuel (suc k) (begin_loop pred checks stop child k s)
  unfolding sync_loop
  sync_on fuel k s h = rw h

  sync_end :
      (fuel k : ℕ) (s : OpState V E P)
      → s.has_state ≡ true
      → (begin_loop pred checks stop child k s).has_state ≡ false
      → sync_loop pred checks stop child (suc (suc fuel)) k s
        ≡ some (begin_loop pred checks stop child k s)
  sync_end fuel k s h e = sync_on (suc fuel) k s h ∙ sync_over fuel (suc k) _ e

  -- What `begin_loop` does where the token does not stop it.
  begun : OpState V E P → OpState V E P
  begun s = record s { starts = s.starts + 1 }

  begin_on :
      (k : ℕ) (s : OpState V E P) (c : Completion V E)
      → (checks && stop k) ≡ false
      → child k ≡ c
      → begin_loop pred checks stop child k s ≡ receive pred checks stop child c (begun s)
  unfolding begin_loop begun
  begin_on k s c st e = rw (st, e)

  receive_given_up :
      (e : E) (s : OpState V E P)
      → (pred e s.pred_state).0 ≡ true
      → receive pred checks stop child (set_error e) s
        ≡ passthrough (set_error e) (record s { pred_state = (pred e s.pred_state).1 })
  unfolding receive retry_step
  receive_given_up e s h = rw h

  receive_again :
      (e : E) (s : OpState V E P)
      → (pred e s.pred_state).0 ≡ false
      → receive pred checks stop child (set_error e) s
        ≡ setup (record s { pred_state = (pred e s.pred_state).1 })
  unfolding receive retry_step
  receive_again e s h = rw h

  -- The end of a form that has passed `c` through after one more start.
  ends_with :
      (s t : OpState V E P) (c : Completion V E) (r : Option (OpState V E P))
      → r ≡ some (passthrough c t)
      → t.delivered ≡ s.delivered
      → t.starts ≡ s.starts + 1
      → Ended s 1 c r
  unfolding passthrough
  ends_with s t c r e d st = (passthrough c t, e, ap (λ l. l ++ c ∷ []) d, st, refl)

  sync-Ended :
      {k : ℕ} {q : P} {m : ℕ} {c : Completion V E} (x : Exits k q m c) (fuel : ℕ)
      (s : OpState V E P)
      → m ≤ fuel
      → s.pred_state ≡ q
      → s.has_state ≡ true
      → Ended s m c (sync_loop pred checks stop child (suc (suc fuel)) k s)
  unfolding begin_loop passthrough begun receive setup
  sync-Ended (cancelled k q st) fuel s h e l =
      let b : begin_loop pred checks stop child k s ≡ passthrough set_stopped s = rw st in
      (
        passthrough set_stopped s,
        sync_end fuel k s l (rw b refl) ∙ ap some b,
        refl,
        omega arith,
        refl,
      )
  sync-Ended (succeeded k q vs st ch) fuel s h e l =
      let b = begin_on k s (set_value vs) st ch in
      ends_with s (begun s) (set_value vs) _ (sync_end fuel k s l (rw b refl) ∙ ap some b) refl refl
  sync-Ended (stopped k q st ch) fuel s h e l =
      let b = begin_on k s set_stopped st ch in
      ends_with s (begun s) set_stopped _ (sync_end fuel k s l (rw b refl) ∙ ap some b) refl refl
  sync-Ended (given_up k q er st ch p) fuel s h e l =
      let b =
        begin_on k s (set_error er) st ch
        ∙ receive_given_up er (begun s) (ap (λ x. (pred er x).0) e ∙ p) in
      ends_with s (record (begun s) { pred_state = (pred er s.pred_state).1 }) (set_error er) _
        (sync_end fuel k s l (rw b refl) ∙ ap some b) refl refl
  sync-Ended (again k q er m c st ch p x) zero s h e l = absurd (omega arith)
  sync-Ended (again k q er m c st ch p x) (suc fuel) s h e l =
      let b =
        begin_on k s (set_error er) st ch
        ∙ receive_again er (begun s) (ap (λ x. (pred er x).0) e ∙ p) in
      let t : OpState V E P = setup (record (begun s) { pred_state = (pred er s.pred_state).1 }) in
      let (s', r, d, n, f) = sync-Ended x fuel t (omega arith) (ap (λ x. (pred er x).1) e) refl in
      (
        s',
        sync_on (suc (suc fuel)) k s l
            ∙ ap (sync_loop pred checks stop child (suc (suc fuel)) (suc k)) b
            ∙ r,
        d,
        omega (arith, n),
        f,
      )

  async_end :
      (fuel k : ℕ) (s : OpState V E P)
      → (begin_loop pred checks stop child k s).has_state ≡ false
      → async_loop pred checks stop child (suc fuel) k s
        ≡ some (begin_loop pred checks stop child k s)
  unfolding async_loop
  async_end fuel k s h = rw h

  async_on :
      (fuel k : ℕ) (s : OpState V E P)
      → (begin_loop pred checks stop child k s).has_state ≡ true
      → async_loop pred checks stop child (suc fuel) k s
        ≡ async_loop pred checks stop child fuel (suc k) (begin_loop pred checks stop child k s)
  unfolding async_loop
  async_on fuel k s h = rw h

  -- The chain for asynchronous children does what the loop does, one round ahead of its test.
  async-sync :
      (fuel k : ℕ) (s : OpState V E P)
      → s.has_state ≡ true
      → async_loop pred checks stop child fuel k s ≡ sync_loop pred checks stop child (suc fuel) k s
  unfolding async_loop sync_loop
  async-sync zero k s h = rw h
  async-sync (suc fuel) k s h =
      elim (Bool-cases (begin_loop pred checks stop child k s).has_state) [
        | inl b ↦ async_on fuel k s b ∙ async-sync fuel (suc k) _ b ∙ sym (sync_on (suc fuel) k s h)
        | inr b ↦ async_end fuel k s b ∙ sym (sync_on (suc fuel) k s h ∙ sync_over fuel (suc k) _ b)
      ]

  -- The loop for synchronous children and the chain for asynchronous ones are the same function of
  -- the child's completions, the chain with one unit of fuel less.
  pub async_start-sync_start :
      (fuel : ℕ) (q : P)
      → async_start pred checks stop child fuel (new_op q)
        ≡ sync_start pred checks stop child (suc fuel) (new_op q)
  unfolding sync_start async_start setup
  async_start-sync_start fuel q = async-sync fuel 0 (setup (new_op q)) refl

  -- Where the specification of `retry_until` says that the child is started `m` times and the
  -- operation then completes with `c`, the loop for synchronous children and the chain for
  -- asynchronous ones both end with `m + 2` units of fuel, having started the child `m` times and
  -- delivered `c` alone.
  pub retry-Ended :
      {q : P} {m : ℕ} {c : Completion V E} (x : Exits 0 q m c) (fuel : ℕ)
      → m + 2 ≤ fuel
      → Ended (new_op q) m c (sync_start pred checks stop child fuel (new_op q))
        × Ended (new_op q) m c (async_start pred checks stop child fuel (new_op q))
  unfolding sync_start async_start setup new_op
  retry-Ended x zero h = absurd (omega arith)
  retry-Ended x (suc zero) h = absurd (omega arith)
  retry-Ended {q} x (suc (suc fuel)) h =
      let s : OpState V E P = setup (new_op q) in
      (
        sync-Ended x fuel s (omega arith) refl refl,
        (let (s', r, d, n, f) = sync-Ended x (suc fuel) s (omega arith) refl refl in
            (s', async-sync (suc (suc fuel)) 0 s refl ∙ r, d, n, f)),
      )
