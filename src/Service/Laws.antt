-- ===== src/Service/Laws.antt =====
-- Inversion of an operation that succeeded, step by step.
use not_so_simple_software_f.Prelude.{◌≡◌, refl, Bool, true, false, Option, none, some}
use not_so_simple_software_f.Service.{
  ServiceError, Result, ok, err, ◌>>=◌, ◌>>◌, refuse_if, or_refuse, or_not_found,
}

module _ {ℓ κ} {A : Type ℓ} {B : Type κ} where
  pub >>=-eq-ok :
      (first : Result A) (next : A → Result B) {out : B}
      → (first >>= next) ≡ ok out
      → (value : A) × (first ≡ ok value) × (next value ≡ ok out)
  >>=-eq-ok (err e) next h = cc
  >>=-eq-ok (ok value) next h = (value, refl, h)

  pub or_not_found-eq-ok :
      (o : Option A) (f : A → Result B) {b : B}
      → (or_not_found o >>= f) ≡ ok b
      → (a : A) × (o ≡ some a) × (f a ≡ ok b)
  or_not_found-eq-ok none f h = cc
  or_not_found-eq-ok (some a) f h = (a, refl, h)

  pub or_refuse-eq-ok :
      (o : Option A) (e : ServiceError) (f : A → Result B) {b : B}
      → (or_refuse o e >>= f) ≡ ok b
      → (a : A) × (o ≡ some a) × (f a ≡ ok b)
  or_refuse-eq-ok none e f h = cc
  or_refuse-eq-ok (some a) e f h = (a, refl, h)

module _ {ℓ} {B : Type ℓ} where
  pub refuse_if-eq-ok :
      (refused : Bool) (e : ServiceError) (m : Result B) {b : B}
      → (refuse_if refused e >> m) ≡ ok b
      → (refused ≡ false) × (m ≡ ok b)
  refuse_if-eq-ok true e m h = cc
  refuse_if-eq-ok false e m h = (refl, h)

  pub >>-eq-ok :
      (check : Result (Unit {0})) (m : Result B) {b : B}
      → (check >> m) ≡ ok b
      → (check ≡ ok tt) × (m ≡ ok b)
  >>-eq-ok (ok tt) m h = (refl, h)
  >>-eq-ok (err e) m h = cc

pub ok-injective {ℓ} : {A : Type ℓ} {a b : A} → ok a ≡ ok b → a ≡ b
ok-injective h = cc

pub some-injective {ℓ} : {A : Type ℓ} {a b : A} → some a ≡ some b → a ≡ b
some-injective h = cc
