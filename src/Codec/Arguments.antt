-- ===== src/Codec/Arguments.antt =====
-- ParseRequestArguments of pkg/codec/jsonc.go: the parameters of a call against the types that its
-- method takes.
use airfk.Shared.{
  ℕ, suc, ◌≤◌, ◌≡◌, sym, ap, Bool, true, false, not, ◌&&◌, Option, none, some, List, [], ◌∷◌, ◌++◌,
  Bytes, codes, arith, if◌then◌else◌, length, drop, All, inl, inr, length-append, length-drop,
}
use airfk.Shared.Result.{Result, ok, err, ◌>>=◌, Result-cases}
use airfk.Types.Rpc.{RpcError, invalid_params}
use airfk.GoStd.Decimal.{decimal}

-- What a json.Decoder meets in the raw parameters: whether the first token opens an array, the
-- elements, and the error of the token behind them, if any.
pub record Scan : Type 0 where
  pub opens : Bool
  pub elems : List Bytes
  pub closes : Option Bytes

-- Types and values as package reflect has them.
pub record Reflect : Type 1 where
  pub T : Type 0
  pub V : Type 0
  pub is_ptr : T → Bool
  pub decode : T → Bytes → Result Bytes V
  pub zero_value : T → V

-- reflect.New never yields a nil pointer, so IsNil is false of what it returns.
abbrev pub new_is_nil : Bool
new_is_nil = false

unfoldable pub missing_value : ℕ → RpcError
missing_value i = invalid_params (codes "missing value for required argument " ++ decimal i)

module _ (r : Reflect) where
  open r use {T, V, is_ptr, decode, zero_value}

  -- The loop over the elements, with `types` from index `i` on and `want` types in all.
  unfoldable pub read_args : ℕ → ℕ → List T → List Bytes → Result RpcError (List V)
  read_args want i types [] = ok []
  read_args want i [] (e ∷ es) =
      err (invalid_params (codes "too many arguments, want at most " ++ decimal want))
  read_args want i (t ∷ types) (e ∷ es) =
      let rest = read_args want (suc i) types es in
      elim (decode t e) [
        | err x ↦
            err (invalid_params (codes "invalid argument " ++ (decimal i ++ (codes ": " ++ x))))
        | ok v ↦
            if new_is_nil && not (is_ptr t)
            then err (missing_value i)
            else rest >>= λ vs. ok (v ∷ vs)
      ]

  -- The types behind the arguments given: each must be a pointer, and gets its zero value.
  unfoldable pub missing_args : ℕ → List T → Result RpcError (List V)
  missing_args i [] = ok []
  missing_args i (t ∷ types) =
      let rest = missing_args (suc i) types in
      if not (is_ptr t) then err (missing_value i) else rest >>= λ vs. ok (zero_value t ∷ vs)

  unfoldable pub parse_positional_arguments : Scan → List T → Result RpcError (List V)
  parse_positional_arguments scan types =
      if not scan.opens
      then err (invalid_params (codes "non-array args"))
      else read_args (length types) 0 types scan.elems >>= λ args. elim scan.closes [
        | some e ↦ err (invalid_params e)
        | none ↦ missing_args (length args) (drop (length args) types) >>= λ more. ok (args ++ more)
      ]

  -- The parameters are there only if the request has raw JSON for them.
  unfoldable pub parse_request_arguments :
      List T → Option Bytes → (Bytes → Scan) → Result RpcError (List V)
  parse_request_arguments types none scan = err (invalid_params (codes "Invalid params supplied"))
  parse_request_arguments types (some raw) scan = parse_positional_arguments (scan raw) types

  length-read_args :
      (want i : ℕ) (types : List T) (es : List Bytes) (vs : List V)
      → read_args want i types es ≡ ok vs
      → (length vs ≡ length es) × (length es ≤ length types)
  unfolding read_args
  length-read_args want i types [] vs e = ground arith
  length-read_args want i [] (x ∷ es) vs e = cc
  length-read_args want i (t ∷ types) (x ∷ es) vs e = elim (Result-cases (decode t x)) [
    | inr (d, k) ↦ absurd (ground arith)
    | inl (v, k) ↦ elim (Result-cases (read_args want (suc i) types es)) [
      | inr (d, m) ↦ absurd (ground arith)
      | inl (us, m) ↦ ground (arith, length-read_args want (suc i) types es us m)
    ]
  ]

  length-missing_args :
      (i : ℕ) (types : List T) (vs : List V)
      → missing_args i types ≡ ok vs
      → (length vs ≡ length types) × All (λ t. is_ptr t ≡ true) types
  unfolding missing_args
  length-missing_args i [] vs e = (ground arith, tt)
  length-missing_args i (t ∷ types) vs e = elim (Result-cases (missing_args (suc i) types)) [
    | inr (d, m) ↦ absurd (ground arith)
    | inl (us, m) ↦
        let (size, ptrs) = length-missing_args (suc i) types us m in
        (ground (arith, size), (ground arith, ptrs))
  ]

  -- Arguments that parse are as many as the types; no more were given than there are types, and the
  -- types of those left out are pointers.
  pub length-parse_positional_arguments :
      (scan : Scan) (types : List T) (vs : List V)
      → parse_positional_arguments scan types ≡ ok vs
      → (length vs ≡ length types)
        × (length scan.elems ≤ length types)
        × All (λ t. is_ptr t ≡ true) (drop (length scan.elems) types)
  unfolding parse_positional_arguments
  length-parse_positional_arguments scan types vs e =
      elim (Result-cases (read_args (length types) 0 types scan.elems)) [
        | inr (d, k) ↦ absurd (ground arith)
        | inl (args, k) ↦
            let (given, room) = length-read_args (length types) 0 types scan.elems args k in
            elim (Result-cases (missing_args (length args) (drop (length args) types))) [
              | inr (d, m) ↦ absurd (ground arith)
              | inl (more, m) ↦
                  let (size, ptrs) =
                    length-missing_args (length args) (drop (length args) types) more m in
                  let whole : args ++ more ≡ vs = ground arith in
                  (
                    omega (
                      arith,
                      ap length (sym whole),
                      length-append args more,
                      size,
                      given,
                      length-drop (length args) types,
                    ),
                    room,
                    rw given at ptrs,
                  )
            ]
      ]
