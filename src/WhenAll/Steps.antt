-- ===== src/WhenAll/Steps.antt =====
-- The interleavings of the children of one `when_all` operation. A child's handler is more than
-- one step, since `request_stop` may run the other children's stop callbacks, and they may
-- complete, before the handler counts its own child down.
use cpp_baremetal_senders_an.Base.{ℕ, ◌<◌, ◌≡◌, Bool, true, false, List, update}
use cpp_baremetal_senders_an.Channel.{Completion, set_value, set_error, set_stopped}
use cpp_baremetal_senders_an.WhenAll.{OpState, store, store_error, request_stop, notify, new_op}

-- A child: running, in its handler with the completion that it sent, or counted down.
pub data Phase (V E : Type 0) : Type 0 where
  running : Phase V E
  arriving : Completion V E → Phase V E
  done : Completion V E → Phase V E

-- `downstream` says whether the downstream token has been asked to stop since the start.
pub record World (V E : Type 0) : Type 0 where
  pub op : OpState V E
  pub phases : ℕ → Phase V E
  pub downstream : Bool

module _ {V E : Type 0} (sends : ℕ → Bool) (n : ℕ) where
  -- One step of some child, or of the downstream token.
  pub data Step : World V E → World V E → Type 0 where
    value_stored :
        (w : World V E) (i : ℕ) (vs : List V)
        → i < n
        → w.phases i ≡ running
        → sends i ≡ true
        → Step w (record w {
          op = store sends i vs w.op;
          phases = update w.phases i (arriving (set_value vs));
        })
    error_stored :
        (w : World V E) (i : ℕ) (e : E)
        → i < n
        → w.phases i ≡ running
        → Step w (record w {
          op = request_stop (store_error e w.op);
          phases = update w.phases i (arriving (set_error e));
        })
    stopped_child :
        (w : World V E) (i : ℕ)
        → i < n
        → w.phases i ≡ running
        → Step w
            (record w { op = request_stop w.op; phases = update w.phases i (arriving set_stopped) })
    counted :
        (w : World V E) (i : ℕ) (c : Completion V E)
        → i < n
        → w.phases i ≡ arriving c
        → Step w (record w { op = notify sends n w.op; phases = update w.phases i (done c) })
    stopped_downstream :
        (w : World V E)
        → w.op.stop_cb ≡ true
        → Step w (record w { op = request_stop w.op; downstream = true })

  pub data Reach (w : World V E) : World V E → Type 0 where
    here : Reach w w
    next : {u v : World V E} → Reach w u → Step u v → Reach w v

abbrev pub left : {V E : Type 0} → Phase V E → ℕ
left running = 1
left (arriving c) = 1
left (done c) = 0

-- The operation when its children have been started.
unfoldable pub begun : {V E : Type 0} → ℕ → World V E
unfolding new_op
begun n = record {
  op = record new_op { stop_cb = true; count = n };
  phases = λ _. running;
  downstream = false;
}
