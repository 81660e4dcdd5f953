-- ===== src/Dashboard/Claims.antt =====
-- cmd/dashboard/rollingop.go: `serviceClaims`, which unattended change holds which service. Each method
-- runs under the mutex, so it is one step. The map is `none` while it is nil.
pub mod Lock
pub mod Exclusion
mod Examples
use proxy_manager.Prelude.{
  Bool, true, false, not, List, [], ◌∷◌, Option, none, some, Bytes, bytes_eq, ◌==◌, ◌&&◌,
  if◌then◌else◌,
}
use proxy_manager.Prelude.Assoc.{lookup, insert, delete}

pub record ServiceClaims : Type 0 where
  pub owner : Option (List (Bytes × Bytes))

-- The zero value.
abbrev pub no_claims : ServiceClaims
no_claims = record { owner = none }

abbrev pub owners : Option (List (Bytes × Bytes)) → List (Bytes × Bytes)
owners none = []
owners (some m) = m

abbrev pub or_nobody : Option Bytes → Bytes
or_nobody none = []
or_nobody (some o) = o

abbrev pub taken_by_other : Option Bytes → Bytes → Bool
taken_by_other none o = false
taken_by_other (some cur) o = not (cur == o)

abbrev pub with_claim : Bytes → Bytes → ServiceClaims → ServiceClaims
with_claim svc o c = record { owner = some (insert svc o (owners c.owner)) }

unfoldable pub holder : ServiceClaims → Bytes → Bytes
holder c svc = or_nobody (lookup svc (owners c.owner))

unfoldable pub try_claim : ServiceClaims → Bytes → Bytes → Bool × ServiceClaims
try_claim c svc o =
    if taken_by_other (lookup svc (owners c.owner)) o
    then (false, c)
    else (true, with_claim svc o c)

abbrev pub dropped : Bytes → Option (List (Bytes × Bytes)) → ServiceClaims
dropped svc none = record { owner = none }
dropped svc (some m) = record { owner = some (delete svc m) }

unfoldable pub release_claim : ServiceClaims → Bytes → Bytes → ServiceClaims
release_claim c svc o = if holder c svc == o then dropped svc c.owner else c

-- `none` is the panic of a write to a nil map.
abbrev pub handed : Bytes → Bytes → Option (List (Bytes × Bytes)) → Option (Bool × ServiceClaims)
handed svc to none = none
handed svc to (some m) = some (true, record { owner = some (insert svc to m) })

unfoldable pub transfer : ServiceClaims → Bytes → Bytes → Bytes → Option (Bool × ServiceClaims)
transfer c svc from to =
    if not (holder c svc == from) then some (false, c) else handed svc to c.owner
