-- ===== src/Signatures/Transformed.antt =====
-- What is advertised after a transformation, and the signatures that it comes from.
use cpp_baremetal_senders_an.Base.{
  Bool, true, false, not, List, [], ◌∷◌, ◌≡◌, refl, sym, subst, ◌↔◌, ◌⊎◌, inl, inr, ◌∈◌, map,
  Bool-cases, if◌then◌else◌,
}
use mathlib.Core.List.Memᴰ
use cpp_baremetal_senders_an.Channel.{set_value, set_error, set_stopped}
use cpp_baremetal_senders_an.Sender.{Tag, value_tag, error_tag, tag_of, args_of}
use cpp_baremetal_senders_an.Mp11.{Mp11, in_append, Entry, elements}
use cpp_baremetal_senders_an.Signatures.{
  Signature, tuplify, variantify, signatures_by_tag, gather_signatures, sends_stopped, stopped_list,
  transform_completion_signatures,
}
use cpp_baremetal_senders_an.Signatures.Tagged.{in_by_tag, no_stopped, has_stopped}

-- What the arguments of a transformation make of a signature.
abbrev pub image :
    {T : Type 0}
    → (List T → Entry (Signature T))
    → (List T → Entry (Signature T))
    → List (Signature T)
    → Signature T
    → List (Signature T)
image value error stopped (set_value ts) = elements (value ts)
image value error stopped (set_error ts) = elements (error ts)
image value error stopped set_stopped = stopped

module _ {T : Type 0} (mp : Mp11 (Signature T)) where
  in_gathered :
      (sigs : List (Signature T)) (t : Tag) (entry : List T → Entry (Signature T)) (x : Signature T)
      → x ∈ mp.flatten (gather_signatures mp t sigs entry (λ es. es))
        ↔ ((sig : Signature T) × sig ∈ sigs × (t ≡ tag_of sig) × x ∈ elements (entry (args_of sig)))
  unfolding gather_signatures variantify tuplify
  in_gathered sigs t entry x =
      let law = mp.in_flatten x (map (tuplify entry) (signatures_by_tag mp sigs t)) in
      (
        λ m.
            let (e, i, h) = law.0 m in
            let (sig, j, k) = Memᴰ.of_map (tuplify entry) (signatures_by_tag mp sigs t) i in
            let (l, tg) = (in_by_tag mp sigs t sig).0 j in
            (sig, l, tg, subst (λ es. x ∈ elements es) (sym k) h),
        λ (sig, l, tg, h). law.1 (
          entry (args_of sig),
          Memᴰ.map (tuplify entry) ((in_by_tag mp sigs t sig).1 (l, tg)),
          h,
        ),
      )

  stopped_list-sends_stopped :
      (sigs stopped : List (Signature T))
      → stopped_list mp sigs stopped ≡ (if sends_stopped mp sigs then stopped else [])
  unfolding stopped_list sends_stopped
  stopped_list-sends_stopped sigs stopped = exchanged _
    where
      exchanged : (b : Bool) → (if b then [] else stopped) ≡ (if not b then stopped else [])
      exchanged true = refl
      exchanged false = refl

  in_stopped_list :
      (sigs stopped : List (Signature T)) (x : Signature T)
      → x ∈ stopped_list mp sigs stopped ↔ (set_stopped ∈ sigs × x ∈ stopped)
  in_stopped_list sigs stopped x =
      rw (stopped_list-sends_stopped sigs stopped) (elim (Bool-cases (sends_stopped mp sigs)) [
        | inl e ↦ rw e (λ m. (has_stopped mp sigs e, m), λ (i, m). m)
        | inr e ↦ rw e (λ m. absurd (Memᴰ.not-nil m), λ (i, m). absurd (no_stopped mp sigs e i))
      ])

  module _ (sigs additional : List (Signature T)) (value error : List T → Entry (Signature T))
      (stopped : List (Signature T)) (x : Signature T) where
    FromSignature : Type 0
    FromSignature = (sig : Signature T) × sig ∈ sigs × x ∈ image value error stopped sig

    from_value :
        (sig : Signature T)
        → sig ∈ sigs
        → value_tag ≡ tag_of sig
        → x ∈ elements (value (args_of sig))
        → FromSignature
    unfolding FromSignature
    from_value (set_value ts) m e h = (set_value ts, m, h)
    from_value (set_error ts) m e h = absurd (cc e)
    from_value set_stopped m e h = absurd (cc e)

    from_error :
        (sig : Signature T)
        → sig ∈ sigs
        → error_tag ≡ tag_of sig
        → x ∈ elements (error (args_of sig))
        → FromSignature
    unfolding FromSignature
    from_error (set_value ts) m e h = absurd (cc e)
    from_error (set_error ts) m e h = (set_error ts, m, h)
    from_error set_stopped m e h = absurd (cc e)

    parts : List (List (Signature T))
    parts =
        additional
        ∷ mp.flatten (gather_signatures mp value_tag sigs value (λ es. es))
        ∷ mp.flatten (gather_signatures mp error_tag sigs error (λ es. es))
        ∷ stopped_list mp sigs stopped
        ∷ []

    from_parts : (l : List (Signature T)) → l ∈ parts → x ∈ l → x ∈ additional ⊎ FromSignature
    unfolding parts FromSignature
    from_parts l (Memᴰ.head e) h = inl (subst (λ k. x ∈ k) e h)
    from_parts l (Memᴰ.tail (Memᴰ.head e)) h =
        let (sig, i, t, k) = (in_gathered sigs value_tag value x).0 (subst (λ k. x ∈ k) e h) in
        inr (from_value sig i t k)
    from_parts l (Memᴰ.tail (Memᴰ.tail (Memᴰ.head e))) h =
        let (sig, i, t, k) = (in_gathered sigs error_tag error x).0 (subst (λ k. x ∈ k) e h) in
        inr (from_error sig i t k)
    from_parts l (Memᴰ.tail (Memᴰ.tail (Memᴰ.tail (Memᴰ.head e)))) h =
        let (i, k) = (in_stopped_list sigs stopped x).0 (subst (λ k. x ∈ k) e h) in
        inr (set_stopped, i, k)
    from_parts l (Memᴰ.tail (Memᴰ.tail (Memᴰ.tail (Memᴰ.tail m)))) h = absurd (Memᴰ.not-nil m)

    into_parts :
        (sig : Signature T)
        → sig ∈ sigs
        → x ∈ image value error stopped sig
        → (l : List (Signature T)) × l ∈ parts × x ∈ l
    unfolding parts
    into_parts (set_value ts) m h = (
      _,
      Memᴰ.tail (Memᴰ.head refl),
      (in_gathered sigs value_tag value x).1 (set_value ts, m, refl, h),
    )
    into_parts (set_error ts) m h = (
      _,
      Memᴰ.tail (Memᴰ.tail (Memᴰ.head refl)),
      (in_gathered sigs error_tag error x).1 (set_error ts, m, refl, h),
    )
    into_parts set_stopped m h = (
      _,
      Memᴰ.tail (Memᴰ.tail (Memᴰ.tail (Memᴰ.head refl))),
      (in_stopped_list sigs stopped x).1 (m, h),
    )

    -- A transformation advertises the additional signatures, and what its arguments make of each
    -- signature that it is given, and no more.
    pub in_transformed :
        x ∈ transform_completion_signatures mp sigs additional value error stopped
        ↔ (x ∈ additional ⊎ ((sig : Signature T) × sig ∈ sigs × x ∈ image value error stopped sig))
    unfolding transform_completion_signatures parts FromSignature
    in_transformed =
        let u = mp.in_unique x (mp.append parts) in
        let a = in_append mp x parts in
        (
          λ m. let (l, i, h) = a.0 (u.0 m) in from_parts l i h,
          λ m. u.1 (
              a.1 (elim m [
                | inl h ↦ (additional, Memᴰ.head refl, h)
                | inr (sig, i, h) ↦ into_parts sig i h
              ])),
        )
