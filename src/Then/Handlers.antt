-- ===== src/Then/Handlers.antt =====
-- How handlers of different channels combine.
use cpp_baremetal_senders_an.Base.{List, [], ◌≡◌, ◌≢◌, refl}
use cpp_baremetal_senders_an.Channel.{set_value, set_error, set_stopped}
use cpp_baremetal_senders_an.Sender.{Tag, value_tag, error_tag, stopped_tag, Signal, send, tag_of}
use cpp_baremetal_senders_an.Then.{handle, then, upon_error, then_error, transform_error}

module _ {V : Type 0} where
  tag_of-send : (c : Tag) (vs : List V) → tag_of (send c vs) ≡ c
  unfolding send
  tag_of-send value_tag vs = refl
  tag_of-send error_tag vs = refl
  tag_of-send stopped_tag vs = refl

  -- An adaptor that completes on another channel than it handles closes the handled channel:
  -- whatever the sender sends, the adapted one never completes on that channel.
  pub handle-closes :
      (h c : Tag) (f : List V → List V) (s : Signal V) → c ≢ h → tag_of (handle h c f s) ≢ h
  unfolding handle
  handle-closes value_tag c f (set_value vs) ne e = ne (cc (tag_of-send c (f vs), e))
  handle-closes value_tag c f (set_error vs) ne e = absurd (cc e)
  handle-closes value_tag c f set_stopped ne e = absurd (cc e)
  handle-closes error_tag c f (set_value vs) ne e = absurd (cc e)
  handle-closes error_tag c f (set_error vs) ne e = ne (cc (tag_of-send c (f vs), e))
  handle-closes error_tag c f set_stopped ne e = absurd (cc e)
  handle-closes stopped_tag c f (set_value vs) ne e = absurd (cc e)
  handle-closes stopped_tag c f (set_error vs) ne e = absurd (cc e)
  handle-closes stopped_tag c f set_stopped ne e = ne (cc (tag_of-send c (f []), e))

  -- `then` and `transform_error` can be exchanged, and two of either in a row are one with the
  -- composed function; `upon_error` after `then_error` of a sender is `then` of the composed
  -- function where the sender sends a value.
  pub then-transform_error :
      (f g : List V → List V) (s : Signal V)
      → (then f (transform_error g s) ≡ transform_error g (then f s))
        × (then g (then f s) ≡ then (λ vs. g (f vs)) s)
        × (transform_error g (transform_error f s) ≡ transform_error (λ vs. g (f vs)) s)
        × (tag_of s ≡ value_tag → upon_error g (then_error f s) ≡ then (λ vs. g (f vs)) s)
  unfolding then transform_error upon_error then_error
  then-transform_error f g (set_value vs) = (refl, refl, refl, λ e. refl)
  then-transform_error f g (set_error vs) = (refl, refl, refl, λ e. absurd (cc e))
  then-transform_error f g set_stopped = (refl, refl, refl, λ e. absurd (cc e))
