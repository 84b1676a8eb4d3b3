-- ===== src/Channel.antt =====
-- include/async/completion_tags.hpp: the three channels by which an operation completes. A value
-- completion carries a list of values, in place of the C++ argument pack.
use cpp_baremetal_senders_an.Base.{List}

pub data Completion (V E : Type 0) : Type 0 where
  set_value : List V → Completion V E
  set_error : E → Completion V E
  set_stopped : Completion V E
