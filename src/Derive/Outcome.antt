-- ===== src/Derive/Outcome.antt =====
-- `syn::Result`, with the messages of vmkit-proc/src/lib.rs.
use vmkit_core.Prelude.{◌≡◌, refl, ◌⊎◌, inl, inr}

-- `syn_error` stands for the errors that `syn` makes itself.
pub data Error : Type 0 where
  multiple_length_fields multiple_length_getters multiple_length_setters : Error
  unknown_length_field unknown_length_attribute : Error
  multiple_data_fields multiple_data_getters unknown_data_field multiple_data_types : Error
  missing_data_type : Error
  multiple_vm_fields multiple_alignment_fields multiple_size_fields multiple_trace_fields : Error
  missing_gcmetadata vm_not_specified : Error
  syn_error : Error

pub data Result {ℓ} (A : Type ℓ) : Type ℓ where
  ok : A → Result A
  err : Error → Result A

infixl 5 ◌>>=◌
abbrev pub ◌>>=◌ {ℓ κ} : {A : Type ℓ} {B : Type κ} → Result A → (A → Result B) → Result B
ok a >>= f = f a
err e >>= f = err e

-- What a chain of steps returns was returned by its first step and then by the rest.
pub >>=-eq-ok {ℓ κ} :
    {A : Type ℓ} {B : Type κ} (r : Result A) (f : A → Result B) {b : B}
    → (r >>= f) ≡ ok b
    → (a : A) × (r ≡ ok a) × (f a ≡ ok b)
>>=-eq-ok (ok a) f h = (a, refl, h)
>>=-eq-ok (err e) f h = cc

pub Result-cases {ℓ} :
    {A : Type ℓ} (r : Result A) → ((a : A) × (r ≡ ok a)) ⊎ ((e : Error) × (r ≡ err e))
Result-cases (ok a) = inl (a, refl)
Result-cases (err e) = inr (e, refl)
