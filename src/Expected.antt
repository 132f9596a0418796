-- ===== src/Expected.antt =====
-- The results of fallible C++ functions: `opentracing::expected<T>` with the error codes that the
-- modelled code returns. `undefined` stands for a run that has left the defined behaviour of C++,
-- such as a read outside an array.
use lightstep_tracer_cpp.Base.{Option, none, some}

pub data Error : Type 0 where
  invalid_argument value_too_large result_out_of_range span_context_corrupted : Error

pub data Expected {ℓ} (A : Type ℓ) : Type ℓ where
  ok : A → Expected A
  err : Error → Expected A
  undefined : Expected A

-- `if (!x) return make_unexpected(x.error());`
infixl 5 ◌>>=◌
abbrev pub ◌>>=◌ {ℓ κ} : {A : Type ℓ} {B : Type κ} → Expected A → (A → Expected B) → Expected B
ok a >>= f = f a
err e >>= f = err e
undefined >>= f = undefined

-- A missing value is an error of the given kind.
abbrev pub of_option {ℓ} : {A : Type ℓ} → Error → Option A → Expected A
of_option e none = err e
of_option e (some a) = ok a
