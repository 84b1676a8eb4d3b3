-- ===== src/Repeat/Exits.antt =====
-- The specification of `repeat_until`, and that both forms of the operation meet it.
use cpp_baremetal_senders_an.Base.{
  ℕ, zero, suc, ◌+◌, ◌≤◌, ◌≡◌, refl, ap, ◌∙◌, Bool, true, false, Option, some, List, [], ◌∷◌, ◌++◌,
  ◌&&◌, arith,
}
use cpp_baremetal_senders_an.Channel.{Completion, set_value, set_error, set_stopped}
use cpp_baremetal_senders_an.Repeat.{
  OpState, new_op, setup, passthrough, repeat_step, receive, begin_loop, sync_loop, sync_start,
  async_loop, async_start, call_loop_fn,
}

module _ {V E P : Type 0} (pred : List V → P → Bool × P) (checks : Bool) (stop : ℕ → Bool)
    (child : ℕ → Completion V E) where
  -- From connection `k` and a state of the predicate, the child is started `m` times and the
  -- operation then completes with `c`.
  pub data Exits : ℕ → P → ℕ → Completion V E → Type 0 where
    cancelled : (k : ℕ) (q : P) → (checks && stop k) ≡ true → Exits k q 0 set_stopped
    failed :
        (k : ℕ) (q : P) (e : E)
        → (checks && stop k) ≡ false
        → child k ≡ set_error e
        → Exits k q 1 (set_error e)
    stopped :
        (k : ℕ) (q : P)
        → (checks && stop k) ≡ false
        → child k ≡ set_stopped
        → Exits k q 1 set_stopped
    satisfied :
        (k : ℕ) (q : P) (vs : List V)
        → (checks && stop k) ≡ false
        → child k ≡ set_value vs
        → (pred vs q).0 ≡ true
        → Exits k q 1 (set_value vs)
    again :
        (k : ℕ) (q : P) (vs : List V) (m : ℕ) (c : Completion V E)
        → (checks && stop k) ≡ false
        → child k ≡ set_value vs
        → (pred vs q).0 ≡ false
        → Exits (suc k) (pred vs q).1 m c
        → Exits k q (suc m) c

  -- A form of the operation ended with `c` after `m` starts.
  abbrev pub Ended : OpState V E P → ℕ → Completion V E → Option (OpState V E P) → Type 0
  Ended s m c r =
      (s' : OpState V E P) × (r ≡ some s')
      × (s'.delivered ≡ s.delivered ++ c ∷ [])
      × (s'.starts ≡ s.starts + m)
      × (s'.has_state ≡ false)

  sync_over :
      (fuel k : ℕ) (s : OpState V E P)
      → s.has_state ≡ false
      → sync_loop pred checks stop child (suc fuel) k s ≡ some s
  unfolding sync_loop
  sync_over fuel k s h = rw h

  sync_on :
      (fuel k : ℕ) (s : OpState V E P)
      → s.has_state ≡ true
      → sync_loop pred checks stop child (suc fuel) k s
        ≡ sync_loop pred checks stop child fuel (suc k) (begin_loop pred checks stop child k s)
  unfolding sync_loop
  sync_on fuel k s h = rw h

  sync_end :
      (fuel k : ℕ) (s : OpState V E P)
      → s.has_state ≡ true
      → (begin_loop pred checks stop child k s).has_state ≡ false
      → sync_loop pred checks stop child (suc (suc fuel)) k s
        ≡ some (begin_loop pred checks stop child k s)
  sync_end fuel k s h e = sync_on (suc fuel) k s h ∙ sync_over fuel (suc k) _ e

  -- What `begin_loop` does where the token does not stop it.
  begun : OpState V E P → OpState V E P
  begun s = record s { starts = s.starts + 1 }

  begin_on :
      (k : ℕ) (s : OpState V E P) (c : Completion V E)
      → (checks && stop k) ≡ false
      → child k ≡ c
      → begin_loop pred checks stop child k s ≡ receive pred checks stop child c (begun s)
  unfolding begin_loop begun
  begin_on k s c st e = rw (st, e)

  receive_satisfied :
      (vs : List V) (s : OpState V E P)
      → (pred vs s.pred_state).0 ≡ true
      → receive pred checks stop child (set_value vs) s
        ≡ passthrough (set_value vs) (record s { pred_state = (pred vs s.pred_state).1 })
  unfolding receive repeat_step
  receive_satisfied vs s h = rw h

  receive_again :
      (vs : List V) (s : OpState V E P)
      → (pred vs s.pred_state).0 ≡ false
      → receive pred checks stop child (set_value vs) s
        ≡ setup (record s { pred_state = (pred vs s.pred_state).1 })
  unfolding receive repeat_step
  receive_again vs s h = rw h

  -- The end of a form that has passed `c` through after one more start.
  ends_with :
      (s t : OpState V E P) (c : Completion V E) (r : Option (OpState V E P))
      → r ≡ some (passthrough c t)
      → t.delivered ≡ s.delivered
      → t.starts ≡ s.starts + 1
      → Ended s 1 c r
  unfolding passthrough
  ends_with s t c r e d st = (passthrough c t, e, ap (λ l. l ++ c ∷ []) d, st, refl)

  sync-Ended :
      {k : ℕ} {q : P} {m : ℕ} {c : Completion V E} (x : Exits k q m c) (fuel : ℕ)
      (s : OpState V E P)
      → m ≤ fuel
      → s.pred_state ≡ q
      → s.has_state ≡ true
      → Ended s m c (sync_loop pred checks stop child (suc (suc fuel)) k s)
  unfolding begin_loop passthrough begun receive setup
  sync-Ended (cancelled k q st) fuel s h e l =
      let b : begin_loop pred checks stop child k s ≡ passthrough set_stopped s = rw st in
      (
        passthrough set_stopped s,
        sync_end fuel k s l (rw b refl) ∙ ap some b,
        refl,
        omega arith,
        refl,
      )
  sync-Ended (failed k q er st ch) fuel s h e l =
      let b = begin_on k s (set_error er) st ch in
      ends_with s (begun s) (set_error er) _ (sync_end fuel k s l (rw b refl) ∙ ap some b) refl refl
  sync-Ended (stopped k q st ch) fuel s h e l =
      let b = begin_on k s set_stopped st ch in
      ends_with s (begun s) set_stopped _ (sync_end fuel k s l (rw b refl) ∙ ap some b) refl refl
  sync-Ended (satisfied k q vs st ch p) fuel s h e l =
      let b =
        begin_on k s (set_value vs) st ch
        ∙ receive_satisfied vs (begun s) (ap (λ x. (pred vs x).0) e ∙ p) in
      ends_with s (record (begun s) { pred_state = (pred vs s.pred_state).1 }) (set_value vs) _
        (sync_end fuel k s l (rw b refl) ∙ ap some b) refl refl
  sync-Ended (again k q vs m c st ch p x) zero s h e l = absurd (omega arith)
  sync-Ended (again k q vs m c st ch p x) (suc fuel) s h e l =
      let b =
        begin_on k s (set_value vs) st ch
        ∙ receive_again vs (begun s) (ap (λ x. (pred vs x).0) e ∙ p) in
      let t : OpState V E P = setup (record (begun s) { pred_state = (pred vs s.pred_state).1 }) in
      let (s', r, d, n, f) = sync-Ended x fuel t (omega arith) (ap (λ x. (pred vs x).1) e) refl in
      (
        s',
        sync_on (suc (suc fuel)) k s l
            ∙ ap (sync_loop pred checks stop child (suc (suc fuel)) (suc k)) b
            ∙ r,
        d,
        omega (arith, n),
        f,
      )

  async_cancelled :
      (fuel k : ℕ) (s : OpState V E P)
      → (checks && stop k) ≡ true
      → async_loop pred checks stop child (suc fuel) k s ≡ some (passthrough set_stopped s)
  unfolding async_loop
  async_cancelled fuel k s st = rw st

  async_end :
      (fuel k : ℕ) (s t : OpState V E P) (c : Completion V E)
      → (checks && stop k) ≡ false
      → child k ≡ c
      → receive pred checks stop child c (begun s) ≡ t
      → t.has_state ≡ false
      → async_loop pred checks stop child (suc fuel) k s ≡ some t
  unfolding async_loop begun
  async_end fuel k s t c st ch e f = rw (st, ch, e, f) refl

  async_on :
      (fuel k : ℕ) (s t : OpState V E P) (c : Completion V E)
      → (checks && stop k) ≡ false
      → child k ≡ c
      → receive pred checks stop child c (begun s) ≡ t
      → t.has_state ≡ true
      → async_loop pred checks stop child (suc fuel) k s
        ≡ async_loop pred checks stop child fuel
            (suc k)
            (call_loop_fn pred checks stop child (suc k) c t)
  unfolding async_loop begun
  async_on fuel k s t c st ch e f = rw (st, ch, e, f) refl

  call_loop_fn-keeps :
      (k : ℕ) (c : Completion V E) (s : OpState V E P)
      → let s' = call_loop_fn pred checks stop child k c s in
        (s'.pred_state ≡ s.pred_state)
        × (s'.has_state ≡ s.has_state)
        × (s'.starts ≡ s.starts)
        × (s'.delivered ≡ s.delivered)
  unfolding call_loop_fn
  call_loop_fn-keeps k (set_value vs) s = ground arith
  call_loop_fn-keeps k (set_error e) s = (refl, refl, refl, refl)
  call_loop_fn-keeps k set_stopped s = (refl, refl, refl, refl)

  async-Ended :
      {k : ℕ} {q : P} {m : ℕ} {c : Completion V E} (x : Exits k q m c) (fuel : ℕ)
      (s : OpState V E P)
      → m ≤ fuel
      → s.pred_state ≡ q
      → Ended s m c (async_loop pred checks stop child (suc fuel) k s)
  unfolding passthrough begun receive setup
  async-Ended (cancelled k q st) fuel s h e =
      (passthrough set_stopped s, async_cancelled fuel k s st, refl, omega arith, refl)
  async-Ended (failed k q er st ch) fuel s h e =
      ends_with s (begun s) (set_error er) _ (async_end fuel k s _ (set_error er) st ch refl refl)
        refl refl
  async-Ended (stopped k q st ch) fuel s h e =
      ends_with s (begun s) set_stopped _ (async_end fuel k s _ set_stopped st ch refl refl) refl
        refl
  async-Ended (satisfied k q vs st ch p) fuel s h e =
      let b = receive_satisfied vs (begun s) (ap (λ x. (pred vs x).0) e ∙ p) in
      ends_with s (record (begun s) { pred_state = (pred vs s.pred_state).1 }) (set_value vs) _
        (async_end fuel k s _ (set_value vs) st ch b refl) refl refl
  async-Ended (again k q vs m c st ch p x) zero s h e = absurd (omega arith)
  async-Ended (again k q vs m c st ch p x) (suc fuel) s h e =
      let t : OpState V E P = setup (record (begun s) { pred_state = (pred vs s.pred_state).1 }) in
      let b = receive_again vs (begun s) (ap (λ x. (pred vs x).0) e ∙ p) in
      let (ps, hs, ss, ds) = call_loop_fn-keeps (suc k) (set_value vs) t in
      let (s', r, d, n, f) =
        async-Ended x fuel (call_loop_fn pred checks stop child (suc k) (set_value vs) t)
          (omega arith) (ps ∙ ap (λ x. (pred vs x).1) e) in
      (
        s',
        async_on (suc fuel) k s t (set_value vs) st ch b refl ∙ r,
        d ∙ ap (λ l. l ++ c ∷ []) ds,
        omega (arith, n, ss),
        f,
      )

  -- Where the specification of `repeat_until` says that the child is started `m` times and the
  -- operation then completes with `c`, the loop for synchronous children and the chain for
  -- asynchronous ones both end with `m + 2` units of fuel, having started the child `m` times and
  -- delivered `c` alone.
  pub start-Ended :
      {q : P} {m : ℕ} {c : Completion V E} (x : Exits 0 q m c) (fuel : ℕ)
      → m + 2 ≤ fuel
      → Ended (new_op q) m c (sync_start pred checks stop child fuel (new_op q))
        × Ended (new_op q) m c (async_start pred checks stop child fuel (new_op q))
  unfolding sync_start async_start setup new_op
  start-Ended x zero h = absurd (omega arith)
  start-Ended x (suc zero) h = absurd (omega arith)
  start-Ended {q} x (suc (suc fuel)) h =
      let s : OpState V E P = setup (new_op q) in
      (sync-Ended x fuel s (omega arith) refl refl, async-Ended x (suc fuel) s (omega arith) refl)
