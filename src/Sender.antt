-- ===== src/Sender.antt =====
-- What the adaptors over one sender are given: a sender by what it does when it is started, and
-- the channels of include/async/completion_tags.hpp. An argument pack is a list, on each channel.
use cpp_baremetal_senders_an.Base.{ℕ, List, []}
use cpp_baremetal_senders_an.Channel.{Completion, set_value, set_error, set_stopped}

pub data Tag : Type 0 where
  value_tag error_tag stopped_tag : Tag

abbrev pub Signal : Type 0 → Type 0
Signal V = Completion V (List V)

module _ {V : Type 0} where
  abbrev pub tag_of : Signal V → Tag
  tag_of (set_value vs) = value_tag
  tag_of (set_error vs) = error_tag
  tag_of set_stopped = stopped_tag

  abbrev pub args_of : Signal V → List V
  args_of (set_value vs) = vs
  args_of (set_error vs) = vs
  args_of set_stopped = []

  -- `Tag{}(r, args...)`; `set_stopped` takes no arguments.
  unfoldable pub send : Tag → List V → Signal V
  send value_tag vs = set_value vs
  send error_tag vs = set_error vs
  send stopped_tag vs = set_stopped

-- The names of the leaf senders that are started, in order, and the completion that is sent.
pub record Run (V : Type 0) : Type 0 where
  pub started : List ℕ
  pub completion : Signal V
