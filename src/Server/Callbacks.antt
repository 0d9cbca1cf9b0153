-- ===== src/Server/Callbacks.antt =====
-- pkg/server/utils.go: which methods of a receiver are callbacks and subscriptions, and by what name.
-- Names are lists of runes. What package reflect says of a type is a description; the cases of runes
-- are the parameter `Unicode`.
pub mod Shape
use airfk.Shared.{
  ℕ, zero, suc, ◌-◌, ◌≡◌, Bool, true, false, ◌&&◌, ◌||◌, not, Option, none, some, List, [], ◌∷◌,
  ◌++◌, Bytes, codes, leb, ltb, ◌==◌, if◌then◌else◌, length,
}
use airfk.Shared.Map.{Map, insert}
use airfk.Codec.Arguments.{Reflect}
use airfk.Server.Requests.{Conn, Reply, Callback}

pub record Unicode : Type 0 where
  pub is_upper : ℕ → Bool
  pub to_lower : ℕ → ℕ

-- A type that is no pointer has a name, the path of its package, and may implement error.
pub data TypeDesc : Type 0 where
  ptr : TypeDesc → TypeDesc
  context_type subscription_type : TypeDesc
  other : (name path : Bytes) (implements_error : Bool) → TypeDesc

unfoldable pub strip : TypeDesc → TypeDesc
strip (ptr t) = strip t
strip context_type = context_type
strip subscription_type = subscription_type
strip (other name path e) = other name path e

unfoldable pub type_name : TypeDesc → Bytes
type_name (ptr t) = []
type_name context_type = codes "Context"
type_name subscription_type = codes "Subscription"
type_name (other name path e) = name

unfoldable pub pkg_path : TypeDesc → Bytes
pkg_path (ptr t) = []
pkg_path context_type = codes "context"
pkg_path subscription_type = codes "airman.com/airfk/pkg/server"
pkg_path (other name path e) = path

unfoldable pub is_context : TypeDesc → Bool
is_context context_type = true
is_context (ptr t) = false
is_context subscription_type = false
is_context (other name path e) = false

unfoldable pub is_subscription : TypeDesc → Bool
is_subscription subscription_type = true
is_subscription (ptr t) = false
is_subscription context_type = false
is_subscription (other name path e) = false

unfoldable pub implements_error : TypeDesc → Bool
implements_error (other name path e) = e
implements_error (ptr t) = false
implements_error context_type = false
implements_error subscription_type = false

unfoldable pub is_context_type : TypeDesc → Bool
is_context_type t = is_context (strip t)

unfoldable pub is_subscription_type : TypeDesc → Bool
is_subscription_type t = is_subscription (strip t)

unfoldable pub is_error_type : TypeDesc → Bool
is_error_type t = implements_error (strip t)

-- What DecodeRuneInString finds first; the error rune in an empty text.
unfoldable pub first_rune : Bytes → ℕ
first_rune [] = 65533
first_rune (c ∷ s) = c

module _ (u : Unicode) where
  open u use {is_upper, to_lower}

  unfoldable pub is_exported : Bytes → Bool
  is_exported name = is_upper (first_rune name)

  unfoldable pub is_exported_or_builtin : TypeDesc → Bool
  is_exported_or_builtin t = is_exported (type_name (strip t)) || length (pkg_path (strip t)) == 0

  unfoldable pub format_name : Bytes → Bytes
  format_name [] = []
  format_name (c ∷ name) = to_lower c ∷ name

module _ (r : Reflect) where
  open r use {T, V}

  -- A method without its receiver. `func` is the method on its receiver; the flag says whether it is
  -- called with the context in front of its arguments.
  pub record Method : Type 0 where
    pub name : Bytes
    pub pkg_path : Bytes
    pub ins : List T
    pub outs : List T
    pub func : Bool → Conn → List V → Conn × Reply

  -- What suitableCallbacks makes of a method.
  pub data Suited : Type 0 where
    rejected : Suited
    as_callback as_subscription : Callback r → Suited

module _ (u : Unicode) (r : Reflect) (describe : Reflect.T r → TypeDesc) where
  open r use {T, V}

  unfoldable pub is_pub_sub : List T → List T → Bool
  is_pub_sub (i ∷ ins) (a ∷ b ∷ []) =
      is_context_type (describe i)
      && (is_subscription_type (describe a) && is_error_type (describe b))
  is_pub_sub (i ∷ ins) [] = false
  is_pub_sub (i ∷ ins) (a ∷ []) = false
  is_pub_sub (i ∷ ins) (a ∷ b ∷ c ∷ outs) = false
  is_pub_sub [] outs = false

  unfoldable pub has_ctx : List T → Bool
  has_ctx [] = false
  has_ctx (i ∷ ins) = is_context (describe i)

  -- The inputs behind the receiver and the context.
  unfoldable pub arguments : List T → List T
  arguments [] = []
  arguments (i ∷ ins) = if is_context (describe i) then ins else i ∷ ins

  unfoldable pub all_exported : List T → Bool
  all_exported [] = true
  all_exported (t ∷ ts) = is_exported_or_builtin u (describe t) && all_exported ts

  -- ErrPos; `none` is -1.
  unfoldable pub err_pos : List T → Option ℕ
  err_pos [] = none
  err_pos (t ∷ ts) =
      if is_error_type (describe t)
      then some 0
      else elim (err_pos ts) [ none ↦ none | some i ↦ some (suc i) ]

  unfoldable pub is_some : Option ℕ → Bool
  is_some none = false
  is_some (some i) = true

  -- An error that is not the last value.
  unfoldable pub misplaced : Option ℕ → ℕ → Bool
  misplaced none n = false
  misplaced (some i) n = not (i == n - 1)

  unfoldable pub callback_of : Method r → Callback r
  callback_of m = record {
    method = m.name;
    arg_types = arguments m.ins;
    has_err = not (is_pub_sub m.ins m.outs) && is_some (err_pos m.outs);
    is_subscribe = is_pub_sub m.ins m.outs;
    func = m.func (has_ctx m.ins);
  }

  -- The switch on the number of values.
  unfoldable pub suited_values : Method r → Suited r
  suited_values m =
      if ltb 2 (length m.outs)
      then rejected
      else if length m.outs == 2 && not (is_some (err_pos m.outs))
      then rejected
      else as_callback (callback_of m)

  unfoldable pub suited : Method r → Suited r
  suited m =
      if not (length m.pkg_path == 0)
      then rejected
      else if is_pub_sub m.ins m.outs
      then (if all_exported (arguments m.ins) then as_subscription (callback_of m) else rejected)
      else if not (all_exported (arguments m.ins))
      then rejected
      else if not (all_exported m.outs)
      then rejected
      else if misplaced (err_pos m.outs) (length m.outs)
      then rejected
      else suited_values m

  -- Callbacks and subscriptions, by name.
  abbrev pub Found : Type 0
  Found = Map (Callback r) × Map (Callback r)

  unfoldable pub add_suited : Found → Bytes → Suited r → Found
  add_suited (cbs, subs) name rejected = (cbs, subs)
  add_suited (cbs, subs) name (as_callback cb) = (insert name cb cbs, subs)
  add_suited (cbs, subs) name (as_subscription cb) = (cbs, insert name cb subs)

  unfoldable pub collect : Found → List (Method r) → Found
  collect found [] = found
  collect found (m ∷ ms) = collect (add_suited found (format_name u m.name) (suited m)) ms

  unfoldable pub suitable_callbacks : List (Method r) → Found
  suitable_callbacks ms = collect ([], []) ms
