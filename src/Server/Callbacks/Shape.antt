-- ===== src/Server/Callbacks/Shape.antt =====
-- Which methods suitableCallbacks (pkg/server/utils.go) offers for calls.
use airfk.Shared.{
  ◌≡◌, ◌≢◌, ◌↔◌, refl, ◌∙◌, sym, ap, Bool, true, false, ◌&&◌, not, Option, none, some, List, [],
  ◌∷◌, Bytes, arith, ltb, ◌==◌, if◌then◌else◌, length, text_eq, Bool-cases, Option-cases, inl, inr,
  ◌⊎◌,
}
use mathlib.Core.Path.{subst}
use airfk.Shared.Map.{lookup, lookup-insert}
use airfk.Codec.Arguments.{Reflect}
use airfk.Server.Requests.{Callback}
use airfk.Server.Callbacks.{
  Unicode, TypeDesc, Method, Suited, rejected, as_callback, as_subscription, is_error_type,
  format_name, is_pub_sub, arguments, all_exported, err_pos, is_some, misplaced, callback_of,
  suited_values, suited, Found, add_suited, collect, suitable_callbacks,
}

module _ (u : Unicode) (r : Reflect) (describe : Reflect.T r → TypeDesc) where
  open r use {T, V}

  -- The values of a callback: none, one, or one that is no error and an error.
  abbrev pub OutsFit : List T → Type 0
  OutsFit [] = Unit
  OutsFit (t ∷ []) = Unit
  OutsFit (t ∷ e ∷ []) = (is_error_type (describe t) ≡ false) × (is_error_type (describe e) ≡ true)
  OutsFit (t ∷ e ∷ f ∷ ts) = ⊥

  abbrev pub IsCallable : Method r → Type 0
  IsCallable m =
      ((length m.pkg_path == 0) ≡ true)
      × (is_pub_sub u r describe m.ins m.outs ≡ false)
      × (all_exported u r describe (arguments u r describe m.ins) ≡ true)
      × (all_exported u r describe m.outs ≡ true)
      × OutsFit m.outs

  values_fit : List T → Bool
  values_fit outs =
      not (misplaced u r describe (err_pos u r describe outs) (length outs))
      && not (ltb 2 (length outs))
      && not (length outs == 2 && not (is_some u r describe (err_pos u r describe outs)))

  values_fit-OutsFit : (outs : List T) → (values_fit outs ≡ true) ↔ OutsFit outs
  unfolding values_fit misplaced err_pos is_some
  values_fit-OutsFit [] = (λ h. tt, λ h. refl)
  values_fit-OutsFit (t ∷ []) = elim (Bool-cases (is_error_type (describe t))) [
    | inl e ↦ (λ h. tt, λ h. ground arith)
    | inr e ↦ (λ h. tt, λ h. ground arith)
  ]
  values_fit-OutsFit (t ∷ f ∷ []) = elim (Bool-cases (is_error_type (describe t))) [
    | inl a ↦ (λ h. absurd (ground arith), λ h. ground arith)
    | inr a ↦ elim (Bool-cases (is_error_type (describe f))) [
      | inl b ↦ (λ h. (a, b), λ h. ground arith)
      | inr b ↦ (λ h. absurd (ground arith), λ h. ground arith)
    ]
  ]
  values_fit-OutsFit (t ∷ f ∷ g ∷ ts) = (λ h. absurd (ground arith), λ h. absurd h)

  -- The decision of suitableCallbacks for a method that is no subscription.
  suited-values :
      (m : Method r)
      → is_pub_sub u r describe m.ins m.outs ≡ false
      → suited u r describe m ≡ (
          if (length m.pkg_path == 0)
            && all_exported u r describe (arguments u r describe m.ins)
            && all_exported u r describe m.outs
            && values_fit m.outs
          then as_callback (callback_of u r describe m)
          else rejected)
  unfolding suited suited_values values_fit
  suited-values m h = ground arith

  as_call : Suited r → Option (Callback r)
  as_call rejected = none
  as_call (as_callback cb) = some cb
  as_call (as_subscription cb) = none

  chosen :
      (a b c d : Bool) (x y : Callback r)
      → as_call (if a && b && c && d then as_callback x else rejected) ≡ some y
      → (a ≡ true) × (b ≡ true) × (c ≡ true) × (d ≡ true) × (x ≡ y)
  unfolding as_call
  chosen false b c d x y e = absurd (ground arith)
  chosen true false c d x y e = absurd (ground arith)
  chosen true true false d x y e = absurd (ground arith)
  chosen true true true false x y e = absurd (ground arith)
  chosen true true true true x y e = (refl, refl, refl, refl, cc e)

  not_both :
      (m : Method r) (cb : Callback r)
      → is_pub_sub u r describe m.ins m.outs ≡ true
      → as_call (suited u r describe m) ≢ some cb
  unfolding as_call suited
  not_both m cb sub e = ground arith

  as_call-suited :
      (m : Method r)
      → ((cb : Callback r)
          → as_call (suited u r describe m) ≡ some cb
          → IsCallable m × (callback_of u r describe m ≡ cb))
        × (IsCallable m → as_call (suited u r describe m) ≡ some (callback_of u r describe m))
  unfolding as_call
  as_call-suited m = elim (Bool-cases (is_pub_sub u r describe m.ins m.outs)) [
    | inl sub ↦ (λ cb e. absurd (not_both m cb sub e), λ h. absurd (ground arith))
    | inr call ↦
        let (forth, back) = values_fit-OutsFit m.outs in
        let values = suited-values m call in
        (
          λ cb e.
              let (a, b, c, d, same) =
                chosen (length m.pkg_path == 0)
                  (all_exported u r describe (arguments u r describe m.ins))
                  (all_exported u r describe m.outs) (values_fit m.outs)
                  (callback_of u r describe m) cb (ap as_call (sym values) ∙ e) in
              ((a, call, b, c, forth d), same),
          λ (a, b, c, d, fit). ap as_call values ∙ rw (a, c, d, back fit, as_call) refl,
        )
  ]

  some-none : {o : Option (Callback r)} {cb : Callback r} → o ≡ none → o ≢ some cb
  some-none nothing there = absurd (ground arith)

  or_else : Option (Callback r) → Option (Callback r) → Option (Callback r)
  or_else none o = o
  or_else (some cb) o = some cb

  or_else_assoc : (a b c : Option (Callback r)) → or_else (or_else a b) c ≡ or_else a (or_else b c)
  unfolding or_else
  or_else_assoc none b c = refl
  or_else_assoc (some a) b c = refl

  named_call : Bytes → Method r → Option (Callback r)
  named_call k m =
      if text_eq (format_name u m.name) k then as_call (suited u r describe m) else none

  lookup-add_named :
      (k : Bytes) (found : Found u r describe) (b : Bool) (s : Suited r) (name : Bytes)
      → text_eq name k ≡ b
      → lookup k (add_suited u r describe found name s).0
        ≡ or_else (if b then as_call s else none) (lookup k found.0)
  unfolding or_else as_call add_suited
  lookup-add_named k found true rejected name e = refl
  lookup-add_named k found false rejected name e = refl
  lookup-add_named k found true (as_subscription cb) name e = refl
  lookup-add_named k found false (as_subscription cb) name e = refl
  lookup-add_named k found true (as_callback cb) name e =
      lookup-insert name k cb found.0 ∙ rw e refl
  lookup-add_named k found false (as_callback cb) name e =
      lookup-insert name k cb found.0 ∙ rw e refl

  -- The last method of a name that is a callback.
  last_call : Bytes → List (Method r) → Option (Callback r)
  last_call k [] = none
  last_call k (m ∷ ms) = or_else (last_call k ms) (named_call k m)

  lookup-collect :
      (k : Bytes) (found : Found u r describe) (ms : List (Method r))
      → lookup k (collect u r describe found ms).0 ≡ or_else (last_call k ms) (lookup k found.0)
  unfolding last_call or_else collect named_call
  lookup-collect k found [] = refl
  lookup-collect k found (m ∷ ms) =
      lookup-collect k
        (add_suited u r describe found (format_name u m.name) (suited u r describe m)) ms
      ∙ ap (or_else (last_call k ms)) (
          lookup-add_named k found (text_eq (format_name u m.name) k) (suited u r describe m)
            (format_name u m.name) refl)
      ∙ sym (or_else_assoc (last_call k ms) (named_call k m) (lookup k found.0))

  -- A method that the name stands for.
  abbrev pub Offers : Bytes → Method r → Type 0
  Offers k m = (text_eq (format_name u m.name) k ≡ true) × IsCallable m

  -- Whether the callback is the one of a method that the name stands for; with no callback, there is
  -- no such method.
  abbrev pub FoundIn : Bytes → Option (Callback r) → List (Method r) → Type 0
  FoundIn k none [] = Unit
  FoundIn k none (m ∷ ms) = (¬ Offers k m) × FoundIn k none ms
  FoundIn k (some cb) [] = ⊥
  FoundIn k (some cb) (m ∷ ms) =
      (Offers k m × (callback_of u r describe m ≡ cb)) ⊎ FoundIn k (some cb) ms

  named_call-Offers :
      (k : Bytes) (m : Method r)
      → ((cb : Callback r)
          → named_call k m ≡ some cb
          → Offers k m × (callback_of u r describe m ≡ cb))
        × (Offers k m → named_call k m ≡ some (callback_of u r describe m))
  unfolding named_call
  named_call-Offers k m =
      let (forth, back) = as_call-suited m in
      elim (Bool-cases (text_eq (format_name u m.name) k)) [
        | inl same ↦ (
          λ cb e. let (callable, made) = forth cb (rw same at e) in ((same, callable), made),
          λ (x, callable). rw same (back callable),
        )
        | inr other ↦ (λ cb e. absurd (ground arith), λ h. absurd (ground arith))
      ]

  FoundIn-next :
      (k : Bytes) (m : Method r) (ms : List (Method r)) (o : Option (Callback r))
      → FoundIn k o ms
      → FoundIn k (or_else o (named_call k m)) (m ∷ ms)
  unfolding or_else
  FoundIn-next k m ms (some cb) h = inr h
  FoundIn-next k m ms none h =
      let (forth, back) = named_call-Offers k m in
      elim (Option-cases (named_call k m)) [
        | inl nothing ↦ rw nothing ((λ offers. some-none nothing (back offers)), h)
        | inr (cb, there) ↦ rw there (inl (forth cb there))
      ]

  last_call-FoundIn : (k : Bytes) (ms : List (Method r)) → FoundIn k (last_call k ms) ms
  unfolding last_call
  last_call-FoundIn k [] = tt
  last_call-FoundIn k (m ∷ ms) = FoundIn-next k m ms (last_call k ms) (last_call-FoundIn k ms)

  or_else-none : (o : Option (Callback r)) → o ≡ or_else o none
  unfolding or_else
  or_else-none none = refl
  or_else-none (some cb) = refl

  -- What suitableCallbacks lists for calls under a name is the callback of a method that has this
  -- name once its first letter is lower case, is exported, is no subscription, takes and returns
  -- exported or builtin types only, and returns nothing, one value, or a value that is no error and
  -- an error; where it lists nothing, no method is like that.
  pub suitable_callbacks-FoundIn :
      (k : Bytes) (ms : List (Method r))
      → FoundIn k (lookup k (suitable_callbacks u r describe ms).0) ms
  unfolding suitable_callbacks lookup
  suitable_callbacks-FoundIn k ms =
      subst (λ o. FoundIn k o ms)
        (or_else-none (last_call k ms) ∙ sym (lookup-collect k ([], []) ms))
        (last_call-FoundIn k ms)
