-- ===== src/Service.antt =====
-- The errors of the control plane (factory/internal/controlplane/store.go) and the results of its
-- operations. A message is for people and is left out; a code and an HTTP status are kept.
pub mod Laws
use not_so_simple_software_f.Prelude.{ℕ, Bool, true, false, String, Option, none, some}

pub record ServiceError : Type 0 where
  pub code : String
  pub status : ℕ

abbrev pub conflict : String → ServiceError
conflict code = record { code = code; status = 409 }

abbrev pub invalid : String → ServiceError
invalid code = record { code = code; status = 400 }

abbrev pub err_not_found : ServiceError
err_not_found = record { code = "not_found"; status = 404 }

-- A value or an error, as Go's two results.
pub data Result {ℓ} (A : Type ℓ) : Type ℓ where
  err : ServiceError → Result A
  ok : A → Result A

-- sql.ErrNoRows becomes ErrNotFound.
abbrev pub or_not_found {ℓ} : {A : Type ℓ} → Option A → Result A
or_not_found none = err err_not_found
or_not_found (some a) = ok a

-- A value that the request must name.
abbrev pub or_refuse {ℓ} : {A : Type ℓ} → Option A → ServiceError → Result A
or_refuse none e = err e
or_refuse (some a) e = ok a

-- `if refuse { return ..., e }`.
abbrev pub refuse_if : Bool → ServiceError → Result (Unit {0})
refuse_if true e = err e
refuse_if false e = ok tt

-- `if err != nil { return err }` between two steps.
module _ {ℓ κ} {A : Type ℓ} {B : Type κ} where
  infixl 5 ◌>>=◌
  abbrev pub ◌>>=◌ : Result A → (A → Result B) → Result B
  err e >>= next = err e
  ok a >>= next = next a

infixl 5 ◌>>◌
abbrev pub ◌>>◌ {ℓ} : {B : Type ℓ} → Result (Unit {0}) → Result B → Result B
check >> rest = check >>= λ _. rest
