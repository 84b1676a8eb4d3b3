-- ===== src/WhenAny/Empty.antt =====
-- include/async/when_any.hpp and when_all.hpp: the operation states of no senders. One of `when_any`
-- completes only when it is asked to stop; one of `when_all` completes at once.
use cpp_baremetal_senders_an.Base.{
  ◌≡◌, refl, ap, Bool, true, false, List, [], ◌∷◌, ◌++◌, if◌then◌else◌,
}
use cpp_baremetal_senders_an.Channel.{Completion, set_value, set_stopped}

-- `asked` says whether the receiver's token has been asked to stop, `stop_cb` that the callback is
-- registered, `delivered` what the receiver was given.
pub record EmptyState (V E : Type 0) : Type 0 where
  pub started : Bool
  pub asked : Bool
  pub stop_cb : Bool
  pub delivered : List (Completion V E)

module _ {V E : Type 0} where
  -- `when_all` of no senders.
  unfoldable pub start_all : EmptyState V E → EmptyState V E
  start_all s = record s {
    started = true;
    delivered = s.delivered ++ (if s.asked then set_stopped else set_value []) ∷ [];
  }

  -- `stop_callback_fn`.
  unfoldable pub callback : EmptyState V E → EmptyState V E
  callback s = record s { delivered = s.delivered ++ set_stopped ∷ []; stop_cb = false }

  -- `start` of `when_any`: where the token was asked to stop the callback is called as it is made, and
  -- `stop_cb` is set after.
  unfoldable pub start : EmptyState V E → EmptyState V E
  unfolding callback
  start s =
      let s' = record s { started = true } in
      let called = callback s' in
      let s'' = if s.asked then called else s' in record s'' { stop_cb = true }

  -- The token is asked to stop, for the first time.
  unfoldable pub ask : EmptyState V E → EmptyState V E
  unfolding callback
  ask s =
      let s' = record s { asked = true } in
      let called = callback s' in if s.stop_cb then called else s'

  pub data Step : EmptyState V E → EmptyState V E → Type 0 where
    starts : (s : EmptyState V E) → s.started ≡ false → Step s (start s)
    asks : (s : EmptyState V E) → s.asked ≡ false → Step s (ask s)

  pub data Reach (s : EmptyState V E) : EmptyState V E → Type 0 where
    here : Reach s s
    next : {u v : EmptyState V E} → Reach s u → Step u v → Reach s v

  -- Completed, as stopped, exactly where it was started and asked to stop.
  pub record Inv (s : EmptyState V E) : Type 0 where
    pub registered : s.asked ≡ false → s.stop_cb ≡ s.started
    pub unregistered : s.started ≡ false → s.stop_cb ≡ false
    pub outcome :
        s.delivered ≡ (if s.started then (if s.asked then set_stopped ∷ [] else []) else [])

  abbrev op : Bool → Bool → Bool → List (Completion V E) → EmptyState V E
  op b a c d = record { started = b; asked = a; stop_cb = c; delivered = d }

  start-Inv :
      (b a c : Bool) (d : List (Completion V E))
      → b ≡ false
      → Inv (op b a c d)
      → Inv (start (op b a c d))
  unfolding start callback
  start-Inv true a c d f v = absurd (cc f)
  start-Inv false true c d f v = record {
    registered = λ h. refl;
    unregistered = λ h. absurd (cc h);
    outcome = ap (λ l. l ++ set_stopped ∷ []) v.outcome;
  }
  start-Inv false false c d f v = record {
    registered = λ h. refl;
    unregistered = λ h. absurd (cc h);
    outcome = v.outcome;
  }

  ask-Inv :
      (b a c : Bool) (d : List (Completion V E))
      → a ≡ false
      → Inv (op b a c d)
      → Inv (ask (op b a c d))
  unfolding ask callback
  ask-Inv b true c d f v = absurd (cc f)
  ask-Inv true false true d f v = record {
    registered = λ h. absurd (cc h);
    unregistered = λ h. refl;
    outcome = ap (λ l. l ++ set_stopped ∷ []) v.outcome;
  }
  ask-Inv false false false d f v = record {
    registered = λ h. absurd (cc h);
    unregistered = λ h. refl;
    outcome = v.outcome;
  }
  ask-Inv true false false d f v = absurd (cc (v.registered refl))
  ask-Inv false false true d f v = absurd (cc (v.registered refl))

  Step-Inv : {s s' : EmptyState V E} → Step s s' → Inv s → Inv s'
  Step-Inv (starts s f) v = start-Inv s.started s.asked s.stop_cb s.delivered f v
  Step-Inv (asks s f) v = ask-Inv s.started s.asked s.stop_cb s.delivered f v

  Reach-Inv : {s s' : EmptyState V E} → Inv s → Reach s s' → Inv s'
  Reach-Inv v here = v
  Reach-Inv v (next r st) = Step-Inv st (Reach-Inv v r)

  unfoldable pub new_empty : EmptyState V E
  new_empty = record { started = false; asked = false; stop_cb = false; delivered = [] }

  -- In whatever order it is started and asked to stop, a `when_any` of no senders is completed once,
  -- as stopped, when both have come, and not before.
  pub any_empty :
      {s : EmptyState V E}
      → Reach new_empty s
      → s.delivered ≡ (if s.started then (if s.asked then set_stopped ∷ [] else []) else [])
  unfolding new_empty
  any_empty r =
      (Reach-Inv (record { registered = λ _. refl; unregistered = λ _. refl; outcome = refl })
        r).outcome
