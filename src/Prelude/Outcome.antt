-- ===== src/Prelude/Outcome.antt =====
-- The result of code that throws: a value, or the exception by its `throw` statement.
use mathlib.Core.Path.{◌≡◌, refl, ap}
use mathlib.Core.Bool.{Bool, true, false}
use mathlib.Core.Logic.{◌⊎◌, inl, inr}

-- One constructor for each `throw` that is modelled; `out_of_fuel` belongs to the model only.
pub data Error : Type 0 where
  short_message bad_pointer label_too_long label_outside bad_symbol name_too_long : Error
  no_record record_too_long not_single_question message_too_large unsupported : Error
  host_too_long label_too_large not_dns_char txt_too_long blank_hostname : Error
  filter_host_long filter_host_short filter_entry_long csv_column_long : Error
  csv_quote_after_text csv_text_after_quote csv_unclosed_quote invalid_certificate : Error
  suspicious_key no_end out_of_fuel hosts_word_long invalid_address : Error
  send_failed partly_sent no_data zero_length too_large_message receive_failed size_mismatch : Error
  no_provider blank_address invalid_bracket number_clamped number_syntax number_range : Error
  no_space too_short_encrypted wrong_magic wrong_nonce crypto_failed decrypted_short : Error
  wrong_file wrong_magick corrupt_cache too_many_entries too_few_entries : Error
  invalid_key no_provider_name no_public_key no_resolver_address no_file wrong_columns : Error
  merging_failed unknown_class unknown_rcode wrong_address_size : Error

pub data Result {ℓ} (A : Type ℓ) : Type ℓ where
  err : Error → Result A
  ok : A → Result A

pub Result-cases {ℓ} :
    {A : Type ℓ} (r : Result A) → ((a : A) × (r ≡ ok a)) ⊎ ((x : Error) × (r ≡ err x))
Result-cases (err x) = inr (x, refl)
Result-cases (ok a) = inl (a, refl)

-- `if (! test) throw x;`
abbrev pub guard : Bool → Error → Result (Unit {0})
guard test x = elim test [ false ↦ err x | true ↦ ok tt ]

infixl 5 ◌>>=◌
abbrev pub ◌>>=◌ {ℓ κ} : {A : Type ℓ} {B : Type κ} → Result A → (A → Result B) → Result B
err x >>= next = err x
ok a >>= next = next a

-- A chain that succeeds, taken apart.
pub >>=-eq-ok {ℓ κ} :
    {A : Type ℓ} {B : Type κ} (r : Result A) (next : A → Result B) {b : B}
    → (r >>= next) ≡ ok b
    → (a : A) × (r ≡ ok a) × (next a ≡ ok b)
>>=-eq-ok (err x) next h = cc
>>=-eq-ok (ok a) next h = (a, refl, h)

infixl 5 ◌>>◌
abbrev pub ◌>>◌ {ℓ κ} : {A : Type ℓ} {B : Type κ} → Result A → Result B → Result B
r >> next = r >>= λ _. next

pub >>=-chain {ℓ κ μ} :
    {A : Type ℓ} {B : Type κ} {C : Type μ} (m : Result A) (f : A → Result B) (g : B → Result C)
    {b : B}
    → (m >>= f) ≡ ok b
    → (m >>= λ a. f a >>= g) ≡ g b
>>=-chain (ok a) f g h = ap (λ r. r >>= g) h
>>=-chain (err e) f g h = cc
