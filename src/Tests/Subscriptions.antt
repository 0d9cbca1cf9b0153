-- ===== src/Tests/Subscriptions.antt =====
-- pkg/server at concrete inputs.
use airfk.Shared.{ℕ, ◌*◌, ◌≡◌, refl, true, false, none, some, List, [], ◌∷◌, Bytes, codes, text_eq}
use airfk.Shared.Map.{Map, lookup}
use airfk.Codec.{Message, create_response, create_notification}
use airfk.Codec.Arguments.{Reflect, Scan}
use airfk.Server.Notifier
use airfk.Server.Notifier.{
  Output, single, Wire, write, Subscription, new_notifier, create_subscription, notify, activate,
}
use airfk.Server.Notifier.Lifecycle.{live, phase}
use airfk.Server.Notifier.History.{
  Call, creating, activating, unsubscribing, calls, see_all, notify-calls,
}
use airfk.Server.Requests.{
  Conn, Reply, no_values, values, Callback, Service, ServerRequest, Host, read_one, read_all,
}
use airfk.Server.Dispatch.{Activation, handle_all, exec, id_json}
use airfk.Server.Dispatch.Responses.{message_ids, header_ids, batch_answers}
use airfk.Server.Dispatch.Activation.{exec-phase}
use airfk.Hexutil.{encode_uint64}
use airfk.Hexutil.Grammar.{quantity}
use airfk.Server.NewId.{new_id}
use airfk.Server.NewId.Canonical.{new_id-canonical}
use airfk.Tests.Requests.{text_reflect, add_parsed}

abbrev id_5 : Bytes
id_5 = codes "0x5"

abbrev sub_5 : Subscription
sub_5 = record { id = id_5; namespace = [] }

abbrev waiting : Notifier.Notifier
waiting = record { active = []; inactive = (id_5, sub_5) ∷ []; ended = [] }

abbrev started : Notifier.Notifier
started = record {
  active = (id_5, record sub_5 { namespace = codes "calc" }) ∷ [];
  inactive = [];
  ended = [];
}

abbrev pub quiet : Wire
quiet = record { written = []; closed = false }

abbrev history : List Call
history =
    creating id_5
    ∷ creating (codes "0x6")
    ∷ activating id_5 (codes "calc")
    ∷ unsubscribing (codes "0x6")
    ∷ []

notify-calls_example :
    notify (calls new_notifier history) quiet true id_5 (codes "1")
    ≡ (write quiet true (single (create_notification id_5 (codes "calc") (codes "1"))), false)
unfolding see_all text_eq
notify-calls_example = notify-calls history quiet id_5 (codes "1")

abbrev pub text_host : Host
text_host = record {
  reflect = text_reflect;
  string_type = false;
  as_string = λ v. some v;
  scan = λ raw. record { opens = true; elems = raw ∷ []; closes = none };
}

-- A method of one parameter that returns it.
abbrev pub echo : Callback text_reflect
echo = record {
  method = codes "Add";
  arg_types = false ∷ [];
  has_err = false;
  is_subscribe = false;
  func = λ c args. (c, values none (codes "1"));
}

abbrev calc : Service text_reflect
calc = record { name = codes "calc"; callbacks = (codes "add", echo) ∷ []; subscriptions = [] }

abbrev services : Map (Service text_reflect)
services = (codes "calc", calc) ∷ []

abbrev pub fresh_conn : Conn
fresh_conn = record { wire = quiet; notifier = some new_notifier }

abbrev response : Message
response = create_response (codes "7") (codes "1")

batch_answers_example :
    message_ids (response ∷ response ∷ []) ≡ header_ids (add_parsed ∷ add_parsed ∷ [])
unfolding handle_all read_all airfk.Server.Dispatch.handle read_one lookup text_eq
    airfk.Server.Requests.call_request airfk.Server.Requests.read_arguments
    airfk.Codec.Arguments.parse_request_arguments airfk.Codec.Arguments.parse_positional_arguments
    airfk.Codec.Arguments.read_args airfk.Codec.Arguments.missing_args
    airfk.Server.Dispatch.handle_call create_response airfk.Server.Dispatch.reply_response
batch_answers_example =
    batch_answers text_host services (add_parsed ∷ add_parsed ∷ []) fresh_conn fresh_conn
      (response ∷ response ∷ []) [] refl

-- A subscription method that makes subscription 0x5.
abbrev subscribing : Callback text_reflect
subscribing = record {
  method = codes "Ticks";
  arg_types = [];
  has_err = true;
  is_subscribe = true;
  func = λ c args. (record c { notifier = some waiting }, values none id_5);
}

abbrev subscribe_call : ServerRequest text_reflect
subscribe_call = record {
  id = codes "7";
  svcname = codes "calc";
  callb = some subscribing;
  args = [];
  is_unsubscribe = false;
  err = none;
}

exec-phase_example :
    (d : Conn) × (m : Notifier.Notifier) × (exec text_host true fresh_conn subscribe_call ≡ some d)
    × (d.wire ≡ write quiet true (single (create_response (codes "7") (id_json id_5))))
    × (d.notifier ≡ some m)
    × (phase m id_5 ≡ live (codes "calc"))
unfolding phase lookup text_eq
exec-phase_example =
    exec-phase text_host fresh_conn (record fresh_conn { notifier = some waiting }) waiting
      subscribe_call subscribing id_5 refl refl refl refl refl refl refl refl

new_id-canonical_example :
    (v : ℕ) × (quantity (new_id (λ k. k * 1000000007)) ≡ some v)
    × (encode_uint64 v ≡ new_id (λ k. k * 1000000007))
new_id-canonical_example = new_id-canonical (λ k. k * 1000000007)
