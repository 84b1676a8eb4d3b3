-- ===== src/StopToken/RequestStop.antt =====
-- `request_stop`: which callbacks it calls, and that it returns.
use cpp_baremetal_senders_an.Base.{
  ℕ, zero, suc, ◌≤◌, ◌<◌, ◌≡◌, refl, ap, sym, ◌∙◌, true, false, inl, inr, none, some, List, [], ◌∷◌,
  ◌++◌, arith, bit, length, count, update, Bool-cases, bit-update-false, count-erase, length-erase,
  ==_refl, append_assoc, append-nil, flag_of_count,
}
use cpp_baremetal_senders_an.Intrusive.{IntrusiveList}
use cpp_baremetal_senders_an.StopToken.{
  StopSource, Request, construct, destroy, register_callback, unregister_callback,
  construct_callback, destroy_callback, request, request_all, next_callback, call, drain,
  request_stop,
}
use cpp_baremetal_senders_an.StopToken.Invariant.{Inv}

-- What holds while the callbacks are being called.
abbrev pub Stopping : StopSource → Type 0
Stopping s = Inv s × (s.requested ≡ true)

module _ (lists : IntrusiveList) where
  -- No request of a callback can link anything any more.
  request-Stopping :
      (c : Request) (s : StopSource)
      → Stopping s
      → Stopping (request lists c s) × (length (request lists c s).callbacks ≤ length s.callbacks)
  unfolding request construct_callback destroy_callback register_callback unregister_callback
  request-Stopping (construct cb) s (v, r) =
      rw (r, request, construct_callback, register_callback)
        ((record { once = v.once }, refl), omega arith)
  request-Stopping (destroy cb) s (v, r) = elim (Bool-cases (s.pending cb)) [
    | inr p ↦ rw (p, request, destroy_callback, unregister_callback) ((v, r), omega arith)
    | inl p ↦
        let linked : count cb s.callbacks ≡ 1 = v.once cb ∙ ap bit p in
        rw
          (
            p,
            request,
            destroy_callback,
            unregister_callback,
            lists.remove_lem cb s.callbacks linked,
          )
          (
            (
              record {
                once = λ u. omega (
                  arith,
                  v.once u,
                  count-erase u cb s.callbacks (omega arith),
                  bit-update-false s.pending cb u p,
                );
              },
              r,
            ),
            omega (arith, length-erase cb s.callbacks (omega arith)),
          )
  ]

  request_all-Stopping :
      (cs : List Request) (s : StopSource)
      → Stopping s
      → Stopping (request_all lists cs s)
        × (length (request_all lists cs s).callbacks ≤ length s.callbacks)
  unfolding request_all
  request_all-Stopping [] s v = (v, omega arith)
  request_all-Stopping (c ∷ cs) s v =
      let (w, l) = request-Stopping c s v in
      let (w', l') = request_all-Stopping cs (request lists c s) w in (w', omega (arith, l, l'))

  next_callback-empty : (s : StopSource) → s.callbacks ≡ [] → next_callback lists s ≡ none
  unfolding next_callback
  next_callback-empty s e = rw e

  -- The source once `cb`, the first in its list, is taken off.
  abbrev taken : ℕ → List ℕ → StopSource → StopSource
  taken cb q s = record s { callbacks = q; pending = update s.pending cb false }

  next_callback-cons :
      (cb : ℕ) (q : List ℕ) (s : StopSource)
      → s.callbacks ≡ cb ∷ q
      → next_callback lists s ≡ some (cb, taken cb q s)
  unfolding next_callback
  next_callback-cons cb q s e = rw (e, lists.pop_front_lem cb q)

  taken-Stopping :
      (cb : ℕ) (q : List ℕ) (s : StopSource)
      → s.callbacks ≡ cb ∷ q
      → Stopping s
      → Stopping (taken cb q s)
  taken-Stopping cb q s e (v, r) = (
    record {
      once = λ u. omega (
        arith,
        v.once u,
        ap (count u) e,
        bit-update-false s.pending cb u (
            flag_of_count (s.pending cb)
              (omega (arith, v.once cb, ap (count cb) e, ap bit (==_refl cb)))),
      );
    },
    r,
  )

  module _ (run : ℕ → StopSource → List Request) where
    call-Stopping :
        (cb : ℕ) (s : StopSource)
        → Stopping s
        → Stopping (call lists run cb s)
          × (length (call lists run cb s).callbacks ≤ length s.callbacks)
    unfolding call
    call-Stopping cb s (v, r) =
        let s' : StopSource = record s { called = s.called ++ cb ∷ [] } in
        request_all-Stopping (run cb s') s' (record { once = v.once }, r)

    drain_lem :
        (fuel : ℕ) (q : List ℕ) (s : StopSource)
        → s.callbacks ≡ q
        → length q < fuel
        → Stopping s
        → (s' : StopSource) × (drain lists run fuel s ≡ some s') × Stopping s' × (s'.callbacks ≡ [])
    unfolding drain
    drain_lem zero q s e h v = absurd (omega arith)
    drain_lem (suc fuel) [] s e h v = (s, rw (drain, next_callback-empty s e) refl, v, e)
    drain_lem (suc fuel) (cb ∷ q) s e h v =
        let (w, l) = call-Stopping cb (taken cb q s) (taken-Stopping cb q s e v) in
        let (s', r, w', done) =
          drain_lem fuel _ (call lists run cb (taken cb q s)) refl (omega (arith, l)) w in
        (s', rw (drain, next_callback-cons cb q s e) r, w', done)

    -- On a well-formed source that was not asked to stop, `request_stop` returns true, whatever its
    -- callbacks construct or destroy: with fuel for one round more than there are callbacks it
    -- ends, with the source well formed and asked to stop, and no callback linked. A second call
    -- returns false and changes nothing.
    pub request_stop-once :
        (fuel : ℕ) (s : StopSource)
        → s.requested ≡ false
        → length s.callbacks < fuel
        → Inv s
        → (s' : StopSource) × (request_stop lists run fuel s ≡ some (s', true))
          × (s'.requested ≡ true)
          × (s'.callbacks ≡ [])
          × Inv s'
          × (request_stop lists run fuel s' ≡ some (s', false))
    unfolding request_stop
    request_stop-once fuel s live h v =
        let s1 : StopSource = record s { requested = true } in
        let (s', r, w, done) =
          drain_lem fuel s.callbacks s1 refl h (record { once = v.once }, refl) in
        (s', rw (live, r) refl, w.1, done, w.0, rw w.1 refl)

    -- The loop, where the callbacks make no requests.
    drain-quiet :
        (fuel : ℕ) (q : List ℕ) (s : StopSource)
        → ((cb : ℕ) (s : StopSource) → run cb s ≡ [])
        → s.callbacks ≡ q
        → length q < fuel
        → Stopping s
        → (s' : StopSource) × (drain lists run fuel s ≡ some s') × (s'.called ≡ s.called ++ q)
    unfolding drain call request_all
    drain-quiet zero q s quiet e h v = absurd (omega arith)
    drain-quiet (suc fuel) [] s quiet e h v =
        (s, rw (drain, next_callback-empty s e) refl, sym (append-nil s.called))
    drain-quiet (suc fuel) (cb ∷ q) s quiet e h v =
        let s1 : StopSource = record (taken cb q s) { called = s.called ++ cb ∷ [] } in
        let (s', r, l) =
          drain-quiet fuel q s1 quiet refl (omega arith)
            (record { once = (taken-Stopping cb q s e v).0.once }, v.1) in
        (
          s',
          rw (drain, next_callback-cons cb q s e, quiet cb s1, request_all) r,
          l ∙ append_assoc s.called (cb ∷ []) q,
        )

    -- On a well-formed source that was not asked to stop, whose callbacks neither construct nor
    -- destroy callbacks, `request_stop` calls each callback that is linked, once, in the order of
    -- the list.
    pub request_stop-calls :
        (fuel : ℕ) (s : StopSource)
        → ((cb : ℕ) (s : StopSource) → run cb s ≡ [])
        → s.requested ≡ false
        → length s.callbacks < fuel
        → Inv s
        → (s' : StopSource) × (request_stop lists run fuel s ≡ some (s', true))
          × (s'.called ≡ s.called ++ s.callbacks)
    unfolding request_stop
    request_stop-calls fuel s quiet live h v =
        let s1 : StopSource = record s { requested = true } in
        let (s', r, l) =
          drain-quiet fuel s.callbacks s1 quiet refl h (record { once = v.once }, refl) in
        (s', rw (live, r) refl, l)
