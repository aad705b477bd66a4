-- ===== src/Base/Result.antt =====
-- What a call that may throw gives: a value, or one of the exceptions of the library.
pub data Error : Type 0 where
  out_of_range : Error
  too_many_types : Error
  bad_api_usage : Error
  library_bug : Error
  bad_alloc : Error
  runtime_error : Error

pub data Result {ℓ} (A : Type ℓ) : Type ℓ where
  ok : A → Result A
  throw : Error → Result A

abbrev pub and_then {ℓ κ} : {A : Type ℓ} {B : Type κ} → Result A → (A → Result B) → Result B
and_then (ok a) k = k a
and_then (throw e) k = throw e

abbrev pub map_ok {ℓ κ} : {A : Type ℓ} {B : Type κ} → (A → B) → Result A → Result B
map_ok f (ok a) = ok (f a)
map_ok f (throw e) = throw e
