-- ===== src/Types/Rpc.antt =====
-- pkg/types/error.go and RpcRequest of pkg/types/types.go.
use airfk.Shared.{Bool, Option, Bytes, codes, ◌++◌}
use airfk.Shared.Int.{ℤ, negsuc}

-- The implementations of the interface Error.
pub data RpcError : Type 0 where
  method_not_found : Bytes → Bytes → RpcError
  invalid_request invalid_message invalid_params callback_error : Bytes → RpcError
  shutdown : RpcError

unfoldable pub error_code : RpcError → ℤ
error_code (method_not_found service method) = negsuc 32600
error_code (invalid_request message) = negsuc 32599
error_code (invalid_message message) = negsuc 32699
error_code (invalid_params message) = negsuc 32601
error_code (callback_error message) = negsuc 31999
error_code shutdown = negsuc 31999

unfoldable pub error_text : RpcError → Bytes
error_text (method_not_found service method) =
    codes "The method "
    ++ service
    ++ codes "_"
    ++ method
    ++ codes " does not exist/is not available"
error_text (invalid_request message) = message
error_text (invalid_message message) = message
error_text (invalid_params message) = message
error_text (callback_error message) = message
error_text shutdown = codes "server is shutting down"

-- `id` and `params` hold raw JSON; `params` is `none` where the interface is nil.
pub record RpcRequest : Type 0 where
  pub service : Bytes
  pub method : Bytes
  pub id : Bytes
  pub is_pub_sub : Bool
  pub params : Option Bytes
  pub err : Option RpcError
