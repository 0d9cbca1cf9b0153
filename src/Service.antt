-- ===== src/Service.antt =====
-- pkg/service/service_context.go. Types of package reflect are their names.
use airfk.Shared.{Option, none, some, Bytes, codes}
use airfk.Shared.Map.{Map, lookup}

-- The services that are constructed, under their types.
pub record ServiceContext (S : Type 0) : Type 0 where
  pub services : Map S

abbrev pub err_service_unknown : Bytes
err_service_unknown = codes "unknown service"

module _ {S : Type 0} where
  unfoldable pub found_service : S → Option S → S × Option Bytes
  found_service old (some running) = (running, none)
  found_service old none = (old, some err_service_unknown)

  -- What the pointer leads to afterwards, and the error. `element_type` is its type.
  unfoldable pub service : ServiceContext S → Bytes → S → S × Option Bytes
  unfolding lookup found_service
  service ctx element_type old = found_service old (lookup element_type ctx.services)
