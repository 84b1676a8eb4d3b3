-- ===== src/Let/Binding.antt =====
-- `let` as the binding of one sender's completion in the next.
use cpp_baremetal_senders_an.Base.{
  Bool, true, false, List, [], ◌∷◌, ◌++◌, ◌≡◌, refl, ap, sym, ◌∙◌, inl, inr, append_assoc,
  Bool-cases, if◌then◌else◌,
}
use cpp_baremetal_senders_an.Sender.{Tag, tag_of, args_of, Run}
use cpp_baremetal_senders_an.Let.{new_op, start}

module _ {V : Type 0} (handled : Tag → Bool) where
  -- The specification: the first sender is run, and where its completion is on a handled channel
  -- the sender that the function makes of it is run next.
  unfoldable pub bind : Run V → (Tag → List V → Run V) → Run V
  bind r fn =
      let next = fn (tag_of r.completion) (args_of r.completion) in
      if handled (tag_of r.completion)
      then record { started = r.started ++ next.started; completion = next.completion }
      else r

  -- The operation starts just the senders that the specification runs, in order, and delivers its
  -- completion alone.
  pub start-bind :
      (fn : Tag → List V → Run V) (r : Run V)
      → ((start handled fn r new_op).started ≡ (bind r fn).started)
        × ((start handled fn r new_op).delivered ≡ (bind r fn).completion ∷ [])
  unfolding start new_op bind
  start-bind fn r = elim (Bool-cases (handled (tag_of r.completion))) [
    | inl h ↦ rw (h, start, bind) (refl, refl)
    | inr h ↦ rw (h, start, bind) (refl, refl)
  ]

  bind-handled :
      (r : Run V) (fn : Tag → List V → Run V)
      → handled (tag_of r.completion) ≡ true
      → bind r fn ≡ record {
        started = r.started ++ (fn (tag_of r.completion) (args_of r.completion)).started;
        completion = (fn (tag_of r.completion) (args_of r.completion)).completion;
      }
  unfolding bind
  bind-handled r fn h = rw h refl

  bind-unhandled :
      (r : Run V) (fn : Tag → List V → Run V)
      → handled (tag_of r.completion) ≡ false
      → bind r fn ≡ r
  unfolding bind
  bind-unhandled r fn h = rw h refl

  bind_assoc :
      (r : Run V) (f g : Tag → List V → Run V)
      → bind (bind r f) g ≡ bind r (λ t vs. bind (f t vs) g)
  bind_assoc r f g = elim (Bool-cases (handled (tag_of r.completion))) [
    | inr h ↦
        ap (λ x. bind x g) (bind-unhandled r f h)
        ∙ bind-unhandled r g h
        ∙ sym (bind-unhandled r (λ t vs. bind (f t vs) g) h)
    | inl h ↦
        let n : Run V = f (tag_of r.completion) (args_of r.completion) in
        let joined : Run V = record {
          started = r.started ++ n.started;
          completion = n.completion;
        } in
        let left = ap (λ x. bind x g) (bind-handled r f h) in
        let right = bind-handled r (λ t vs. bind (f t vs) g) h in
        elim (Bool-cases (handled (tag_of n.completion))) [
          | inr k ↦
              left
              ∙ bind-unhandled joined g k
              ∙ sym (
                  right
                  ∙ ap (λ x. record { started = r.started ++ x.started; completion = x.completion })
                      (bind-unhandled n g k))
          | inl k ↦
              left
              ∙ bind-handled joined g k
              ∙ ap
                  (λ l. record {
                    started = l;
                    completion = (g (tag_of n.completion) (args_of n.completion)).completion;
                  })
                  (append_assoc r.started n.started _)
              ∙ sym (
                  right
                  ∙ ap (λ x. record { started = r.started ++ x.started; completion = x.completion })
                      (bind-handled n g k))
        ]
  ]

  -- Operations nest either way: a `let` of a `let` starts the same senders in the same order, and
  -- delivers the same completion alone, as a `let` whose function makes a `let`.
  pub start_assoc :
      (r : Run V) (f g : Tag → List V → Run V)
      → ((start handled g (bind r f) new_op).started
          ≡ (start handled (λ t vs. bind (f t vs) g) r new_op).started)
        × ((start handled g (bind r f) new_op).delivered
            ≡ (start handled (λ t vs. bind (f t vs) g) r new_op).delivered)
  start_assoc r f g = (
    (start-bind g (bind r f)).0
        ∙ ap (λ x. x.started) (bind_assoc r f g)
        ∙ sym (start-bind (λ t vs. bind (f t vs) g) r).0,
    (start-bind g (bind r f)).1
        ∙ ap (λ x. x.completion ∷ []) (bind_assoc r f g)
        ∙ sym (start-bind (λ t vs. bind (f t vs) g) r).1,
  )
