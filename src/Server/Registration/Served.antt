-- ===== src/Server/Registration/Served.antt =====
-- Which services an endpoint of pkg/server/endpoint.go has.
use airfk.Shared.{
  ◌≡◌, refl, ◌∙◌, sym, ap, Bool, true, false, Option, if◌then◌else◌, ◌&&◌, ◌||◌, none, some, List,
  [], ◌∷◌, Bytes, arith, text_eq, Bool-cases, Option-cases, inl, inr,
}
use airfk.Shared.Map.{lookup, insert, lookup-insert}
use airfk.Codec.Arguments.{Reflect}
use airfk.Server.Requests.{Conn, Reply, Service, Callback}
use airfk.Server.Callbacks.{
  Unicode, TypeDesc, other, is_exported, first_rune, suitable_callbacks, collect, add_suited,
  suited, suited_values, is_pub_sub, arguments, all_exported, err_pos, is_some, misplaced,
  is_exported_or_builtin, is_error_type, implements_error, strip, type_name, pkg_path, format_name,
  callback_of,
}
use airfk.Server.Registration.{
  Receiver, Api, Services, metadata_api, is_empty, updated, register_name, rpc_service, new_server,
  allows, listed_in, register_apis, start_endpoint,
}
use airfk.Server.Registration.Merge.{
  or_else, or_else-none, offered, method_at, register_name-insert, register_name-method_at,
}

module _ (u : Unicode) (r : Reflect) (describe : Reflect.T r → TypeDesc) where
  abbrev pub serves : Bytes → Services r → Bool
  serves n services = elim (lookup n services) [ none ↦ false | some svc ↦ true ]

  -- Without modules the public APIs, else those whose namespace is one of the modules.
  abbrev pub permitted : List Bytes → Api r → Bool
  permitted [] api = api.public
  permitted (m ∷ modules) api = listed_in (m ∷ modules) api.namespace

  allows-permitted :
      (modules : List Bytes) (api : Api r) → allows u r describe modules api ≡ permitted modules api
  unfolding allows listed_in
  allows-permitted [] api = ground arith
  allows-permitted (m ∷ modules) api = ground arith

  abbrev pub any_allowed : List Bytes → Bytes → List (Api r) → Bool
  any_allowed modules n [] = false
  any_allowed modules n (api ∷ apis) =
      (permitted modules api && text_eq api.namespace n) || any_allowed modules n apis

  either : (a b c : Bool) → (b || (a || c)) ≡ ((a || b) || c)
  either true b c = ground arith
  either false b c = refl

  serves-insert :
      (n name : Bytes) (svc : Service r) (services : Services r)
      → serves n (insert name svc services) ≡ (text_eq name n || serves n services)
  serves-insert n name svc services =
      rw (lookup-insert name n svc services, serves) (ground (arith, Bool-cases (text_eq name n)))

  register_name-serves :
      (services services' : Services r) (n name : Bytes) (rcvr : Receiver r)
      → register_name u r describe services name rcvr ≡ (services', none)
      → serves n services' ≡ (text_eq name n || serves n services)
  register_name-serves services services' n name rcvr e =
      let (cbs, subs) = suitable_callbacks u r describe rcvr.methods in
      ap (serves n) (register_name-insert u r describe services services' name rcvr e)
      ∙ serves-insert n name (updated u r describe name (lookup name services) cbs subs) services

  register_apis-serves :
      (modules : List Bytes) (n : Bytes) (services services' : Services r) (apis : List (Api r))
      → register_apis u r describe modules services apis ≡ (services', none)
      → serves n services' ≡ (any_allowed modules n apis || serves n services)
  unfolding register_apis
  register_apis-serves modules n services services' [] e = ap (serves n) (sym (ap (λ x. x.0) e))
  register_apis-serves modules n services services' (api ∷ apis) e =
      let same = allows-permitted modules api in
      elim (Bool-cases (allows u r describe modules api)) [
        | inr skipped ↦
            rw (sym same ∙ skipped)
              (register_apis-serves modules n services services' apis (rw skipped at e))
        | inl allowed ↦
            elim (Option-cases (register_name u r describe services api.namespace api.service).1) [
              | inr (stop, refused) ↦ absurd (ground arith)
              | inl fine ↦
                  let next = (register_name u r describe services api.namespace api.service).0 in
                  let more = register_apis-serves modules n next services' apis (ground arith) in
                  let this =
                    register_name-serves services next n api.namespace api.service
                      (ap (λ o. (next, o)) fine) in
                  more
                  ∙ ap (λ b. any_allowed modules n apis || b) this
                  ∙ rw (sym same ∙ allowed) (
                      either (text_eq api.namespace n) (any_allowed modules n apis)
                        (serves n services))
            ]
      ]

  -- What a request finds behind the registration of the permitted APIs of a list, in their order,
  -- when it found `o` before.
  abbrev pub found_after :
      List Bytes → Bool → Bytes → Bytes → Option (Callback r) → List (Api r) → Option (Callback r)
  found_after modules sub n k o [] = o
  found_after modules sub n k o (api ∷ apis) =
      found_after modules sub n k
        (if permitted modules api && text_eq api.namespace n
          then or_else u r describe (lookup k (offered u r describe sub api.service)) o
          else o)
        apis

  register_apis-method_at :
      (modules : List Bytes) (sub : Bool) (n k : Bytes) (services services' : Services r)
      (apis : List (Api r))
      → register_apis u r describe modules services apis ≡ (services', none)
      → method_at u r describe services' sub n k
        ≡ found_after modules sub n k (method_at u r describe services sub n k) apis
  unfolding register_apis
  register_apis-method_at modules sub n k services services' [] e =
      ap (λ m. method_at u r describe m sub n k) (sym (ap (λ x. x.0) e))
  register_apis-method_at modules sub n k services services' (api ∷ apis) e =
      let same = allows-permitted modules api in
      elim (Bool-cases (allows u r describe modules api)) [
        | inr skipped ↦
            rw (sym same ∙ skipped)
              (register_apis-method_at modules sub n k services services' apis (rw skipped at e))
        | inl allowed ↦
            elim (Option-cases (register_name u r describe services api.namespace api.service).1) [
              | inr (stop, refused) ↦ absurd (ground arith)
              | inl fine ↦
                  let next = (register_name u r describe services api.namespace api.service).0 in
                  register_apis-method_at modules sub n k next services' apis (ground arith)
                  ∙ ap (λ o. found_after modules sub n k o apis)
                      (register_name-method_at u r describe services next api.namespace api.service
                          sub n k (ap (λ o. (next, o)) fine)
                        ∙ rw (sym same ∙ allowed) refl)
            ]
      ]

  builtin_exported :
      (t : Reflect.T r) → describe t ≡ other [] [] false → all_exported u r describe (t ∷ []) ≡ true
  unfolding all_exported is_exported_or_builtin is_exported strip type_name pkg_path first_rune
  builtin_exported t e = rw (e, is_exported_or_builtin) (ground arith)

  -- The default service is registered.
  rpc_registered :
      (map_type : Reflect.T r) (reply : Conn → List (Reflect.V r) → Conn × Reply)
      → u.is_upper b'R' ≡ true
      → describe map_type ≡ other [] [] false
      → (register_name u r describe [] metadata_api (rpc_service r map_type reply)).1 ≡ none
  unfolding register_name rpc_service suitable_callbacks collect add_suited suited suited_values
      is_pub_sub arguments err_pos is_some misplaced is_error_type implements_error strip is_empty
      is_exported first_rune format_name all_exported insert callback_of
  rpc_registered map_type reply upper builtin =
      let good = builtin_exported map_type builtin in ground arith

  new_server-serves :
      (map_type : Reflect.T r) (reply : Conn → List (Reflect.V r) → Conn × Reply) (n : Bytes)
      → u.is_upper b'R' ≡ true
      → describe map_type ≡ other [] [] false
      → serves n (new_server u r describe map_type reply) ≡ text_eq metadata_api n
  unfolding new_server lookup
  new_server-serves map_type reply n upper builtin =
      let made = register_name u r describe [] metadata_api (rpc_service r map_type reply) in
      register_name-serves [] made.0 n metadata_api (rpc_service r map_type reply)
        (ap (λ o. (made.0, o)) (rpc_registered map_type reply upper builtin))
      ∙ ground (arith, Bool-cases (text_eq metadata_api n))

  -- What a request finds in a server without APIs.
  abbrev pub default_method :
      Reflect.T r
      → (Conn → List (Reflect.V r) → Conn × Reply)
      → Bool
      → Bytes
      → Bytes
      → Option (Callback r)
  default_method map_type reply sub n k =
      if text_eq metadata_api n
      then lookup k (offered u r describe sub (rpc_service r map_type reply))
      else none

  new_server-method_at :
      (map_type : Reflect.T r) (reply : Conn → List (Reflect.V r) → Conn × Reply) (sub : Bool)
      (n k : Bytes)
      → u.is_upper b'R' ≡ true
      → describe map_type ≡ other [] [] false
      → method_at u r describe (new_server u r describe map_type reply) sub n k
        ≡ default_method map_type reply sub n k
  unfolding new_server lookup
  new_server-method_at map_type reply sub n k upper builtin =
      let rpc = rpc_service r map_type reply in
      let made = register_name u r describe [] metadata_api rpc in
      register_name-method_at u r describe [] made.0 metadata_api rpc sub n k
        (ap (λ o. (made.0, o)) (rpc_registered map_type reply upper builtin))
      ∙ ap (λ o. if text_eq metadata_api n then o else none)
          (sym (or_else-none u r describe (lookup k (offered u r describe sub rpc))))

  -- When an endpoint starts, a request finds there what the permitted APIs of its namespace offer
  -- under the name of the method, the last of them that offers it, and else what the default
  -- service has; and the server has a service for the default name and for the namespaces of
  -- permitted APIs, and for no other. An API is permitted when its namespace is one of the modules,
  -- or when there are no modules and it is public. The letter R is upper case, and the type that
  -- Modules returns is a builtin one.
  pub start_endpoint-serves :
      (map_type : Reflect.T r) (reply : Conn → List (Reflect.V r) → Conn × Reply)
      (modules : List Bytes) (apis : List (Api r)) (services : Services r) (sub : Bool)
      (n k : Bytes)
      → u.is_upper b'R' ≡ true
      → describe map_type ≡ other [] [] false
      → start_endpoint u r describe map_type reply modules apis ≡ some services
      → (method_at u r describe services sub n k
          ≡ found_after modules sub n k (default_method map_type reply sub n k) apis)
        × (serves n services ≡ (any_allowed modules n apis || text_eq metadata_api n))
  unfolding start_endpoint
  start_endpoint-serves map_type reply modules apis services sub n k upper builtin e =
      let server = new_server u r describe map_type reply in
      let started = register_apis u r describe modules server apis in
      elim (Option-cases started.1) [
        | inr (stop, refused) ↦ absurd (ground arith)
        | inl fine ↦
            let same : started.0 ≡ services = ground arith in
            let done : started ≡ (services, none) =
              ap (λ o. (started.0, o)) fine ∙ ap (λ s. (s, none)) same in
            (
              register_apis-method_at modules sub n k server services apis done
                  ∙ ap (λ o. found_after modules sub n k o apis)
                      (new_server-method_at map_type reply sub n k upper builtin),
              register_apis-serves modules n server services apis done
                  ∙ ap (λ b. any_allowed modules n apis || b)
                      (new_server-serves map_type reply n upper builtin),
            )
      ]
