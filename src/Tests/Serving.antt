-- ===== src/Tests/Serving.antt =====
-- Registration, transports and shutdown.
use airfk.Shared.{
  ◌+◌, ◌≡◌, ◌↔◌, refl, Bool, true, false, ◌&&◌, ◌||◌, none, some, List, [], ◌∷◌, Bytes, codes,
  arith, leb, if◌then◌else◌, text_eq, ◌⊎◌,
}
use airfk.Shared.Result.{ok}
use airfk.Shared.Map.{lookup, insert}
use airfk.Codec.Arguments.{Reflect}
use airfk.Server.Requests.{Conn, Reply, no_values}
use airfk.Server.Callbacks.{
  Unicode, TypeDesc, ptr, context_type, subscription_type, other, Method, suitable_callbacks,
}
use airfk.Server.Callbacks.Shape.{FoundIn, suitable_callbacks-FoundIn}
use airfk.Server.Registration.{
  Receiver, Api, Services, metadata_api, register_name, new_server, start_endpoint,
}
use airfk.Server.Registration.Merge.{or_else, method_at, offered, register_name-method_at}
use airfk.Server.Registration.Served.{
  serves, any_allowed, found_after, default_method, start_endpoint-serves,
}
use airfk.Server.Websocket.{contains, local_origins, handshake, Listed, AllEmpty, handshake-Listed}
use airfk.Server.Lifecycle.{
  Lifecycle, Reach, start, later, admitting, stopping, sweeping, new_lifecycle, admit, stop_begin,
  sweep,
}
use airfk.Server.Lifecycle.Stopped.{Phase, Reach-Phase, StopSteps, AllClosed, Stop-closes}

abbrev ascii : Unicode
ascii = record {
  is_upper = λ c. leb 65 c && leb c 90;
  to_lower = λ c. if leb 65 c && leb c 90 then c + 32 else c;
}

abbrev types : Reflect
types = record {
  T = TypeDesc;
  V = Bytes;
  is_ptr = λ t. false;
  decode = λ t s. ok s;
  zero_value = λ t. [];
}

abbrev described : TypeDesc → TypeDesc
described t = t

abbrev string_type : TypeDesc
string_type = other (codes "string") [] false

abbrev error_type : TypeDesc
error_type = other (codes "error") [] true

abbrev silent : Bool → Conn → List Bytes → Conn × Reply
silent with_ctx c vs = (c, no_values)

abbrev method : Bytes → List TypeDesc → List TypeDesc → Method types
method name ins outs = record { name = name; pkg_path = []; ins = ins; outs = outs; func = silent }

-- A call with a context, a subscription, and a method with its error in front.
abbrev methods : List (Method types)
methods =
    method (codes "Echo") (context_type ∷ string_type ∷ []) (string_type ∷ error_type ∷ [])
    ∷ method (codes "Watch") (context_type ∷ []) (ptr subscription_type ∷ error_type ∷ [])
    ∷ method (codes "Wrong") [] (error_type ∷ string_type ∷ [])
    ∷ []

suitable_callbacks-FoundIn_example :
    FoundIn ascii types described
      (codes "echo")
      (lookup (codes "echo") (suitable_callbacks ascii types described methods).0)
      methods
suitable_callbacks-FoundIn_example =
    suitable_callbacks-FoundIn ascii types described (codes "echo") methods

abbrev echo : Receiver types
echo = record { type_name = codes "EchoService"; methods = methods }

abbrev map_type : TypeDesc
map_type = other [] [] false

abbrev modules_reply : Conn → List Bytes → Conn × Reply
modules_reply c vs = (c, no_values)

abbrev server : Services types
server = new_server ascii types described map_type modules_reply

abbrev echo_server : Services types
echo_server = (register_name ascii types described server (codes "echo") echo).0

echo_registered :
    register_name ascii types described server (codes "echo") echo ≡ (echo_server, none)
unfolding airfk.Server.Callbacks.is_exported airfk.Server.Callbacks.first_rune
    airfk.Server.Callbacks.collect airfk.Server.Callbacks.add_suited airfk.Server.Callbacks.suited
    airfk.Server.Callbacks.suited_values airfk.Server.Callbacks.is_pub_sub
    airfk.Server.Callbacks.all_exported airfk.Server.Callbacks.arguments
    airfk.Server.Callbacks.is_exported_or_builtin airfk.Server.Callbacks.type_name
    airfk.Server.Callbacks.strip airfk.Server.Callbacks.pkg_path airfk.Server.Callbacks.misplaced
    airfk.Server.Callbacks.err_pos airfk.Server.Callbacks.callback_of
    airfk.Server.Callbacks.format_name airfk.Server.Callbacks.has_ctx
    airfk.Server.Callbacks.implements_error airfk.Server.Callbacks.is_context
    airfk.Server.Callbacks.is_context_type airfk.Server.Callbacks.is_error_type
    airfk.Server.Callbacks.is_some airfk.Server.Callbacks.is_subscription
    airfk.Server.Callbacks.is_subscription_type suitable_callbacks
    airfk.Server.Registration.is_empty airfk.Server.Registration.fresh
    airfk.Server.Registration.merge airfk.Server.Registration.merged
    airfk.Server.Registration.updated airfk.Server.Registration.rpc_service register_name new_server
    insert lookup text_eq
echo_registered = refl

register_name-method_at_example :
    method_at ascii types described echo_server false (codes "echo") (codes "echo")
    ≡ or_else ascii types described
        (lookup (codes "echo") (offered ascii types described false echo))
        (method_at ascii types described server false (codes "echo") (codes "echo"))
unfolding lookup text_eq
register_name-method_at_example =
    register_name-method_at ascii types described server echo_server (codes "echo") echo false
      (codes "echo") (codes "echo") echo_registered

-- A public API and one that is not.
abbrev apis : List (Api types)
apis =
    record { namespace = codes "echo"; public = true; service = echo }
    ∷ record { namespace = codes "admin"; public = false; service = echo }
    ∷ []

endpoint_started :
    start_endpoint ascii types described map_type modules_reply [] apis ≡ some echo_server
unfolding airfk.Server.Callbacks.is_exported airfk.Server.Callbacks.first_rune
    airfk.Server.Callbacks.collect airfk.Server.Callbacks.add_suited airfk.Server.Callbacks.suited
    airfk.Server.Callbacks.suited_values airfk.Server.Callbacks.is_pub_sub
    airfk.Server.Callbacks.all_exported airfk.Server.Callbacks.arguments
    airfk.Server.Callbacks.is_exported_or_builtin airfk.Server.Callbacks.type_name
    airfk.Server.Callbacks.strip airfk.Server.Callbacks.pkg_path airfk.Server.Callbacks.misplaced
    airfk.Server.Callbacks.err_pos airfk.Server.Callbacks.callback_of
    airfk.Server.Callbacks.format_name airfk.Server.Callbacks.has_ctx
    airfk.Server.Callbacks.implements_error airfk.Server.Callbacks.is_context
    airfk.Server.Callbacks.is_context_type airfk.Server.Callbacks.is_error_type
    airfk.Server.Callbacks.is_some airfk.Server.Callbacks.is_subscription
    airfk.Server.Callbacks.is_subscription_type suitable_callbacks
    airfk.Server.Registration.is_empty airfk.Server.Registration.fresh
    airfk.Server.Registration.merge airfk.Server.Registration.merged
    airfk.Server.Registration.updated airfk.Server.Registration.rpc_service register_name new_server
    insert lookup text_eq start_endpoint airfk.Server.Registration.register_apis
    airfk.Server.Registration.allows airfk.Server.Registration.listed_in
endpoint_started = refl

start_endpoint-serves_example :
    (method_at ascii types described echo_server false (codes "admin") (codes "echo")
      ≡ found_after ascii types described [] false
          (codes "admin")
          (codes "echo")
          (default_method ascii types described map_type modules_reply false
            (codes "admin")
            (codes "echo"))
          apis)
    × (serves ascii types described (codes "admin") echo_server ≡ (
        any_allowed ascii types described [] (codes "admin") apis
        || text_eq metadata_api (codes "admin")))
start_endpoint-serves_example =
    start_endpoint-serves ascii types described map_type modules_reply [] apis echo_server false
      (codes "admin") (codes "echo") refl refl endpoint_started

abbrev unchanged : Bytes → Bytes
unchanged s = s

handshake-Listed_example :
    (handshake unchanged ([] ∷ []) (some (codes "host")) (codes "http://host") ≡ true) ↔ (
      (contains ([] ∷ []) (codes "*") ≡ true)
      ⊎ Listed unchanged (codes "http://host") ([] ∷ [])
      ⊎ (AllEmpty unchanged ([] ∷ [])
          × (contains (local_origins unchanged (some (codes "host"))) (codes "http://host")
              ≡ true)))
handshake-Listed_example =
    handshake-Listed unchanged ([] ∷ []) (some (codes "host")) (codes "http://host")

-- A codec is admitted, Stop runs, and another one is refused.
abbrev ended : Lifecycle
ended = (admit (sweep (stop_begin (admit new_lifecycle 4).0)) 5).0

ended_reached : Reach ended
unfolding stop_begin admit
ended_reached =
    later (later (later (later start (admitting 4)) stopping) (sweeping (omega arith)))
      (admitting 5)

Stop-closes_example :
    (t : Lifecycle) × StopSteps (admit new_lifecycle 4).0 t
    × (t.run ≡ false)
    × (t.swept ≡ true)
    × AllClosed t.closed ((admit new_lifecycle 4).0).codecs
Stop-closes_example = Stop-closes {s = (admit new_lifecycle 4).0} (later start (admitting 4))

Reach-Phase_example : Phase ended
Reach-Phase_example = Reach-Phase {s = ended} ended_reached
