-- ===== src/WhenAll/Variants.antt =====
-- The three operation states of `when_all` agree where no child stops: the one for children that
-- can be stopped, the one for children that cannot, and the one for synchronous children.
use cpp_baremetal_senders_an.Base.{
  ℕ, suc, ◌-◌, ◌≤◌, ◌≡◌, ◌≢◌, refl, ap, ◌∙◌, sym, inl, inr, Bool, true, false, none, some, List, [],
  ◌∷◌, arith, ◌==◌, update, Bool-cases, length,
}
use cpp_baremetal_senders_an.WhenAll.{
  OpState, store, store_error, request_stop, notify, complete, new_op, start, load_all,
  emplace_value, notify_error, nostop_notify, nostop_notify_error, nostop_complete, nostop_start,
  nostop_emplace_value, sync_emplace_value, sync_notify_error, sync_complete, sync_start,
}

-- A child's completion, by a value or an error.
pub data Event (V E : Type 0) : Type 0 where
  value : ℕ → List V → Event V E
  error : E → Event V E

module _ {V E : Type 0} (sends : ℕ → Bool) (n : ℕ) where
  unfoldable pub on_op : List (Event V E) → OpState V E → OpState V E
  on_op [] s = s
  on_op (value i vs ∷ es) s = on_op es (emplace_value sends n i vs s)
  on_op (error e ∷ es) s = on_op es (notify_error sends n e s)

  unfoldable pub on_nostop : List (Event V E) → OpState V E → OpState V E
  on_nostop [] s = s
  on_nostop (value i vs ∷ es) s = on_nostop es (nostop_emplace_value sends n i vs s)
  on_nostop (error e ∷ es) s = on_nostop es (nostop_notify_error sends n e s)

  unfoldable pub on_sync : List (Event V E) → OpState V E → OpState V E
  on_sync [] s = s
  on_sync (value i vs ∷ es) s = on_sync es (sync_emplace_value sends n i vs s)
  on_sync (error e ∷ es) s = on_sync es (sync_notify_error sends n e s)

  -- The stoppable state `s` beside the other one: it asks its children to stop only after an error.
  record Same (s t : OpState V E) : Type 0 where
    same_count : s.count ≡ t.count
    same_error : s.caught_error ≡ t.caught_error
    same_values : s.values ≡ t.values
    same_delivered : s.delivered ≡ t.delivered
    stop_error : s.stop_requested ≡ true → s.caught_error ≢ none

  complete-Same :
      (s t : OpState V E) → Same s t → Same (complete sends n s) (nostop_complete sends n t)
  unfolding complete nostop_complete
  complete-Same s t v = record {
    same_count = ground (arith, ap (λ f. load_all sends f n) v.same_values);
    same_error = ground (arith, ap (λ f. load_all sends f n) v.same_values);
    same_values = ground (arith, ap (λ f. load_all sends f n) v.same_values);
    same_delivered = ground (arith, ap (λ f. load_all sends f n) v.same_values);
    stop_error = λ h. ground (arith, v.stop_error);
  }

  counted-Same :
      (s t : OpState V E)
      → Same s t
      → Same (record s { count = s.count - 1 }) (record t { count = t.count - 1 })
  counted-Same s t v = record {
    same_count = ap (λ (k : ℕ). k - 1) v.same_count;
    same_error = v.same_error;
    same_values = v.same_values;
    same_delivered = v.same_delivered;
    stop_error = v.stop_error;
  }

  notify-Same : (s t : OpState V E) → Same s t → Same (notify sends n s) (nostop_notify sends n t)
  unfolding notify nostop_notify
  notify-Same s t v =
      let w = counted-Same s t v in
      elim (Bool-cases (s.count - 1 == 0)) [
        | inl z ↦
            rw (z, notify, nostop_notify, ap (λ (k : ℕ). k - 1 == 0) (sym v.same_count) ∙ z)
              (complete-Same _ _ w)
        | inr z ↦ rw (z, notify, nostop_notify, ap (λ (k : ℕ). k - 1 == 0) (sym v.same_count) ∙ z) w
      ]

  store-Same :
      (i : ℕ) (vs : List V) (s t : OpState V E)
      → Same s t
      → Same (store sends i vs s) (store sends i vs t)
  unfolding store
  store-Same i vs s t v = elim (Bool-cases (sends i)) [
    | inr off ↦ rw (off, store) v
    | inl on ↦
        rw (on, store)
          record {
            same_count = v.same_count;
            same_error = v.same_error;
            same_values = ap (λ f. update f i (some vs)) v.same_values;
            same_delivered = v.same_delivered;
            stop_error = v.stop_error;
          }
  ]

  error-Same :
      (e : E) (s t : OpState V E)
      → Same s t
      → Same (request_stop (store_error e s)) (store_error e t)
  unfolding store_error request_stop
  error-Same e s t v = record {
    same_count = ground arith;
    same_error = ground arith;
    same_values = ground arith;
    same_delivered = ground arith;
    stop_error = λ h. ground arith;
  }

  on-Same :
      (es : List (Event V E)) (s t : OpState V E) → Same s t → Same (on_op es s) (on_nostop es t)
  unfolding on_op on_nostop emplace_value nostop_emplace_value notify_error nostop_notify_error
  on-Same [] s t v = v
  on-Same (value i vs ∷ es) s t v = on-Same es _ _ (notify-Same _ _ (store-Same i vs s t v))
  on-Same (error e ∷ es) s t v = on-Same es _ _ (notify-Same _ _ (error-Same e s t v))

  -- An operation that could stop its children and one that could not deliver the same, where the
  -- children send the same values and errors in the same order, none is stopped, and the downstream
  -- token was not asked to stop.
  pub nostop-agrees :
      (es : List (Event V E))
      → (on_op es (start sends n false new_op).0).delivered
        ≡ (on_nostop es (nostop_start sends n new_op)).delivered
  unfolding start nostop_start new_op
  nostop-agrees es =
      (on-Same es (start sends n false new_op).0 (nostop_start sends n new_op) (record {
        same_count = refl;
        same_error = refl;
        same_values = refl;
        same_delivered = refl;
        stop_error = λ h. absurd (cc);
      })).same_delivered

  -- The synchronous state beside the one that counts.
  record Beside (s t : OpState V E) : Type 0 where
    beside_error : s.caught_error ≡ t.caught_error
    beside_values : s.values ≡ t.values
    beside_delivered : s.delivered ≡ t.delivered

  complete-Beside :
      (s t : OpState V E)
      → Beside s t
      → (nostop_complete sends n s).delivered ≡ (sync_complete sends n t).delivered
  unfolding nostop_complete sync_complete
  complete-Beside s t v = ground (arith, ap (λ f. load_all sends f n) v.beside_values)

  Beside-one :
      (s t : OpState V E)
      → Beside s t
      → s.count ≡ 1
      → (nostop_notify sends n s).delivered ≡ (sync_complete sends n t).delivered
  unfolding nostop_notify
  Beside-one s t v one =
      let e : (s.count - 1 == 0) ≡ true = ground (arith, one) in
      rw (e, nostop_notify)
        (complete-Beside (record s { count = s.count - 1 }) t
          (record {
            beside_error = v.beside_error;
            beside_values = v.beside_values;
            beside_delivered = v.beside_delivered;
          }))

  Beside-more :
      (k : ℕ) (s t : OpState V E)
      → Beside s t
      → s.count ≡ suc (suc k)
      → Beside (nostop_notify sends n s) t × ((nostop_notify sends n s).count ≡ suc k)
  unfolding nostop_notify
  Beside-more k s t v more =
      let e : (s.count - 1 == 0) ≡ false = ground (arith, more) in
      rw (e, nostop_notify)
        (
          record {
            beside_error = v.beside_error;
            beside_values = v.beside_values;
            beside_delivered = v.beside_delivered;
          },
          omega (arith, more),
        )

  store-Beside :
      (i : ℕ) (vs : List V) (s t : OpState V E)
      → Beside s t
      → Beside (store sends i vs s) (store sends i vs t) × ((store sends i vs s).count ≡ s.count)
  unfolding store
  store-Beside i vs s t v = elim (Bool-cases (sends i)) [
    | inr off ↦ rw (off, store) (v, refl)
    | inl on ↦
        rw (on, store)
          (
            record {
              beside_error = v.beside_error;
              beside_values = ap (λ f. update f i (some vs)) v.beside_values;
              beside_delivered = v.beside_delivered;
            },
            refl,
          )
  ]

  error-Beside :
      (e : E) (s t : OpState V E)
      → Beside s t
      → Beside (store_error e s) (store_error e t) × ((store_error e s).count ≡ s.count)
  unfolding store_error
  error-Beside e s t v = (
    record {
      beside_error = ground arith;
      beside_values = ground arith;
      beside_delivered = ground arith;
    },
    ground arith,
  )

  on-Beside :
      (es : List (Event V E)) (s t : OpState V E)
      → Beside s t
      → 1 ≤ length es
      → s.count ≡ length es
      → (on_nostop es s).delivered ≡ (sync_complete sends n (on_sync es t)).delivered
  unfolding on_nostop on_sync nostop_emplace_value nostop_notify_error sync_emplace_value
      sync_notify_error
  on-Beside [] s t v h c = absurd (omega arith)
  on-Beside (value i vs ∷ []) s t v h c =
      let (b, k) = store-Beside i vs s t v in Beside-one _ _ b (k ∙ c)
  on-Beside (error e ∷ []) s t v h c = let (b, k) = error-Beside e s t v in Beside-one _ _ b (k ∙ c)
  on-Beside (value i vs ∷ f ∷ es) s t v h c =
      let (b, k) = store-Beside i vs s t v in
      let (b', k') = Beside-more (length es) _ _ b (k ∙ c) in
      on-Beside (f ∷ es) _ _ b' (omega arith) k'
  on-Beside (error e ∷ f ∷ es) s t v h c =
      let (b, k) = error-Beside e s t v in
      let (b', k') = Beside-more (length es) _ _ b (k ∙ c) in
      on-Beside (f ∷ es) _ _ b' (omega arith) k'

  -- Where each of at least one synchronous child completes once while it is started, by values or
  -- an error, the state for synchronous children delivers what the state that counts them delivers.
  pub sync-agrees :
      (es : List (Event V E))
      → 1 ≤ n
      → length es ≡ n
      → (sync_start sends n (on_sync es) new_op).delivered
        ≡ (on_nostop es (nostop_start sends n new_op)).delivered
  unfolding sync_start nostop_start
  sync-agrees es pos all = sym (
      on-Beside es (nostop_start sends n new_op) new_op
        (record { beside_error = refl; beside_values = refl; beside_delivered = refl })
        (omega (arith, all)) (sym all))
