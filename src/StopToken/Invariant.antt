-- ===== src/StopToken/Invariant.antt =====
-- What holds of a stop source between two steps, and the laws of registration.
use cpp_baremetal_senders_an.Base.{
  erase_absent, ℕ, ◌≡◌, refl, ap, sym, ◌∙◌, Bool, false, inl, inr, [], ◌∷◌, ◌++◌, arith, bit, count,
  erase, Bool-cases, bit-update-true, bit-update-false, count-erase, count-append, ==_refl,
}
use cpp_baremetal_senders_an.Intrusive.{IntrusiveList}
use cpp_baremetal_senders_an.StopToken.{
  StopSource, register_callback, unregister_callback, construct_callback, destroy_callback,
  new_source,
}

-- A callback is linked, and once, exactly while it is pending.
pub record Inv (s : StopSource) : Type 0 where
  pub once : (cb : ℕ) → count cb s.callbacks ≡ bit (s.pending cb)

pub new_source-Inv : (b : Bool) → Inv (new_source b)
unfolding new_source
new_source-Inv b = record { once = λ cb. refl }

module _ (lists : IntrusiveList) where
  -- A callback object that is new to a source not asked to stop is linked at the end, and is not
  -- called.
  pub construct_callback-registers :
      (cb : ℕ) (s : StopSource)
      → s.requested ≡ false
      → s.pending cb ≡ false
      → Inv s
      → ((construct_callback lists cb s).callbacks ≡ s.callbacks ++ cb ∷ [])
        × ((construct_callback lists cb s).called ≡ s.called)
        × Inv (construct_callback lists cb s)
  unfolding construct_callback
  construct_callback-registers cb s live new v =
      let linked = lists.push_back_lem cb s.callbacks (v.once cb ∙ ap bit new) in
      rw (live, construct_callback, register_callback, linked)
        (
          refl,
          refl,
          record {
            once = λ u. omega (
              arith,
              v.once u,
              count-append u s.callbacks (cb ∷ []),
              bit-update-true s.pending cb u new,
            );
          },
        )

  -- Destroying a callback object of a well-formed source takes it out of the callbacks wherever it
  -- stands, leaves it not pending, and keeps the source well formed.
  pub destroy_callback-Inv :
      (cb : ℕ) (s : StopSource)
      → Inv s
      → ((destroy_callback lists cb s).callbacks ≡ erase cb s.callbacks)
        × ((destroy_callback lists cb s).pending cb ≡ false)
        × Inv (destroy_callback lists cb s)
  unfolding destroy_callback
  destroy_callback-Inv cb s v = elim (Bool-cases (s.pending cb)) [
    | inl p ↦
        rw
          (
            p,
            destroy_callback,
            unregister_callback,
            lists.remove_lem cb s.callbacks (v.once cb ∙ ap bit p),
          )
          (
            refl,
            rw (==_refl cb) refl,
            record {
              once = λ u. omega (
                arith,
                v.once u,
                count-erase u cb s.callbacks (omega (arith, v.once cb, ap bit p)),
                bit-update-false s.pending cb u p,
              );
            },
          )
    | inr p ↦
        rw (p, destroy_callback, unregister_callback)
          (sym (erase_absent cb s.callbacks (v.once cb ∙ ap bit p)), p, v)
  ]
