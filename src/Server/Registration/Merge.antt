-- ===== src/Server/Registration/Merge.antt =====
-- What RegisterName (pkg/server/server.go) makes of the methods that a server answers to.
use airfk.Shared.{
  ◌≡◌, refl, ◌∙◌, sym, ap, Bool, true, false, Option, none, some, List, [], ◌∷◌, Bytes, arith,
  if◌then◌else◌, All, text_eq, text_eq_iff, Bool-cases, inl, inr,
}
use airfk.Shared.Map.{lookup, insert, lookup-insert}
use airfk.Codec.Arguments.{Reflect}
use airfk.Server.Requests.{Callback, Service}
use airfk.Server.Callbacks.{
  Unicode, TypeDesc, Method, Suited, rejected, as_callback, as_subscription, format_name, Found,
  add_suited, collect, suited, suited_values, callback_of, suitable_callbacks,
}
use airfk.Server.Registration.{
  RegisterError, Receiver, Services, Entries, merge, merged, fresh, updated, register_name,
}

module _ (u : Unicode) (r : Reflect) (describe : Reflect.T r → TypeDesc) where
  -- Every callback stands under the name made of its method's.
  abbrev Keyed : Entries r → Type 0
  Keyed = All (λ (kv : Bytes × Callback r). kv.0 ≡ format_name u kv.1.method)

  insert-Keyed :
      (key : Bytes) (cb : Callback r) (m : Entries r)
      → key ≡ format_name u cb.method
      → Keyed m
      → Keyed (insert key cb m)
  unfolding insert
  insert-Keyed key cb [] e h = (e, tt)
  insert-Keyed key cb ((j, w) ∷ m) e (d, h) = elim (Bool-cases (text_eq j key)) [
    | inl same ↦ rw same (e, h)
    | inr differs ↦ rw differs (d, insert-Keyed key cb m e h)
  ]

  -- The name of the method of a callback, if there is one.
  made_of : Bytes → Suited r → Bytes
  made_of name rejected = name
  made_of name (as_callback cb) = cb.method
  made_of name (as_subscription cb) = cb.method

  made_of-suited : (m : Method r) → made_of m.name (suited u r describe m) ≡ m.name
  unfolding suited suited_values callback_of made_of
  made_of-suited m = ground arith

  add_suited-Keyed :
      (found : Found u r describe) (name : Bytes) (s : Suited r)
      → made_of name s ≡ name
      → Keyed found.0 × Keyed found.1
      → Keyed (add_suited u r describe found (format_name u name) s).0
        × Keyed (add_suited u r describe found (format_name u name) s).1
  unfolding made_of add_suited
  add_suited-Keyed found name rejected e h = h
  add_suited-Keyed found name (as_callback cb) e (h, k) =
      (insert-Keyed (format_name u name) cb found.0 (ap (format_name u) (sym e)) h, k)
  add_suited-Keyed found name (as_subscription cb) e (h, k) =
      (h, insert-Keyed (format_name u name) cb found.1 (ap (format_name u) (sym e)) k)

  collect-Keyed :
      (found : Found u r describe) (ms : List (Method r))
      → Keyed found.0 × Keyed found.1
      → Keyed (collect u r describe found ms).0 × Keyed (collect u r describe found ms).1
  unfolding collect
  collect-Keyed found [] h = h
  collect-Keyed found (m ∷ ms) h =
      collect-Keyed (add_suited u r describe found (format_name u m.name) (suited u r describe m))
        ms (add_suited-Keyed found m.name (suited u r describe m) (made_of-suited m) h)

  -- The first of two lookups that finds something.
  abbrev pub or_else : Option (Callback r) → Option (Callback r) → Option (Callback r)
  or_else none o = o
  or_else (some cb) o = some cb

  lookup-merge :
      (k : Bytes) (new old : Entries r)
      → Keyed new
      → lookup k (merge u r describe new old) ≡ or_else (lookup k new) (lookup k old)
  unfolding merge lookup
  lookup-merge k [] old h = refl
  lookup-merge k ((key, cb) ∷ new) old (e, h) =
      lookup-insert (format_name u cb.method) k cb (merge u r describe new old)
      ∙ rw (sym e) (elim (Bool-cases (text_eq key k)) [
        | inl same ↦ rw same refl
        | inr differs ↦ rw differs (lookup-merge k new old h)
      ])

  suitable-Keyed :
      (ms : List (Method r))
      → Keyed (suitable_callbacks u r describe ms).0 × Keyed (suitable_callbacks u r describe ms).1
  unfolding suitable_callbacks
  suitable-Keyed ms = collect-Keyed ([], []) ms (tt, tt)

  abbrev pub entries_of : Bool → Service r → Entries r
  entries_of sub svc = if sub then svc.subscriptions else svc.callbacks

  abbrev pub method_in : Bool → Bytes → Option (Service r) → Option (Callback r)
  method_in sub k none = none
  method_in sub k (some svc) = lookup k (entries_of sub svc)

  -- What readRequest finds for a service and a method.
  abbrev pub method_at : Services r → Bool → Bytes → Bytes → Option (Callback r)
  method_at services sub n k = method_in sub k (lookup n services)

  -- What a receiver offers for calls, or as subscriptions.
  abbrev pub offered : Bool → Receiver r → Entries r
  offered sub rcvr =
      if sub
      then (suitable_callbacks u r describe rcvr.methods).1
      else (suitable_callbacks u r describe rcvr.methods).0

  pub or_else-none : (o : Option (Callback r)) → o ≡ or_else o none
  or_else-none none = refl
  or_else-none (some cb) = refl

  method_in-updated :
      (sub : Bool) (k name : Bytes) (old : Option (Service r)) (rcvr : Receiver r)
      → let (cbs, subs) = suitable_callbacks u r describe rcvr.methods in
        method_in sub k (some (updated u r describe name old cbs subs))
        ≡ or_else (lookup k (offered sub rcvr)) (method_in sub k old)
  unfolding updated fresh merged
  method_in-updated true k name none rcvr = or_else-none (lookup k (offered true rcvr))
  method_in-updated false k name none rcvr = or_else-none (lookup k (offered false rcvr))
  method_in-updated true k name (some svc) rcvr =
      lookup-merge k (offered true rcvr) svc.subscriptions (suitable-Keyed rcvr.methods).1
  method_in-updated false k name (some svc) rcvr =
      lookup-merge k (offered false rcvr) svc.callbacks (suitable-Keyed rcvr.methods).0

  pub register_name-insert :
      (services services' : Services r) (name : Bytes) (rcvr : Receiver r)
      → register_name u r describe services name rcvr ≡ (services', none)
      → let (cbs, subs) = suitable_callbacks u r describe rcvr.methods in
        services' ≡ insert name (updated u r describe name (lookup name services) cbs subs) services
  unfolding register_name
  register_name-insert services services' name rcvr e = ground arith

  -- After a registration of a receiver under a name that succeeds, a request for a method of that
  -- name finds what the receiver offers and else what it found before; requests for other names
  -- find what they found before.
  pub register_name-method_at :
      (services services' : Services r) (name : Bytes) (rcvr : Receiver r) (sub : Bool)
      (n k : Bytes)
      → register_name u r describe services name rcvr ≡ (services', none)
      → method_at services' sub n k ≡ (
          if text_eq name n
          then or_else (lookup k (offered sub rcvr)) (method_at services sub n k)
          else method_at services sub n k)
  register_name-method_at services services' name rcvr sub n k e =
      let (cbs, subs) = suitable_callbacks u r describe rcvr.methods in
      let (there, _) = text_eq_iff name n in
      let svc = updated u r describe name (lookup name services) cbs subs in
      ap (λ m. method_at m sub n k) (register_name-insert services services' name rcvr e)
      ∙ ap (method_in sub k) (lookup-insert name n svc services)
      ∙ (elim (Bool-cases (text_eq name n)) [
        | inl same ↦ rw same (
            method_in-updated sub k name (lookup name services) rcvr
            ∙ ap (λ j. or_else (lookup k (offered sub rcvr)) (method_at services sub j k))
                (there same))
        | inr differs ↦ rw differs refl
      ])

  -- A registration that fails leaves the server as it is.
  pub register_name-unchanged :
      (services : Services r) (name : Bytes) (rcvr : Receiver r) (services' : Services r)
      (e : RegisterError)
      → register_name u r describe services name rcvr ≡ (services', some e)
      → services' ≡ services
  unfolding register_name
  register_name-unchanged services name rcvr services' e h = ground arith
