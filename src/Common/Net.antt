-- ===== src/Common/Net.antt =====
-- pkg/common/net.go. Package net is a parameter.
use airfk.Shared.{Bool, not, ◌&&◌, Option, none, some, List, [], ◌∷◌, Bytes, codes, if◌then◌else◌}
use airfk.Shared.Result.{Result, ok, err, ◌>>=◌}

-- An address of an interface: whether it is a *net.IPNet, and what package net says of its IP.
pub record Addr : Type 0 where
  pub is_ip_net : Bool
  pub is_loopback : Bool
  pub is_v4 : Bool
  pub text : Bytes

module _ {L A : Type 0} where
  -- ResolveTCPAddr and ListenTCP.
  unfoldable pub get_listener :
      (Bytes → Bytes → Result Bytes A) → (Bytes → A → Result Bytes L) → Bytes → Result Bytes L
  get_listener resolve listen address = do
    ld ← resolve (codes "tcp") address
    listen (codes "tcp") ld

unfoldable pub ip_list : List Addr → List Bytes
ip_list [] = []
ip_list (a ∷ addrs) =
    let rest = ip_list addrs in
    if a.is_ip_net && not a.is_loopback && a.is_v4 then a.text ∷ rest else rest

-- The addresses, which are there also beside an error.
unfoldable pub get_local_address : Result Bytes (List Addr) → List Bytes × Option Bytes
unfolding ip_list
get_local_address (err e) = (codes "localhost" ∷ [], some e)
get_local_address (ok addrs) = (ip_list addrs, none)
