-- ===== src/Base/Errors.antt =====
-- What a fallible call comes to: a value, an error message, or a panic (an index out of bounds).
-- Every message of the source is a constructor of `Error`. `out_of_fuel` is no Rust value: the fuel
-- of a modelled `while` loop ran out.
use Prim.Native.Nat.{ℕ}
use mathlib.Core.List.{List}
use mathlib.Core.Path.{◌≡◌, refl, subst}
use mathlib.Core.Bool.{Bool, true, false}
use mathlib.Core.Option.{Option, none, some}
use fastsigner.Base.Test.{if◌then◌else◌}

pub data Error : Type 0 where
  eof file_too_small eocd_not_found multi_disk zip64 zip64_locator : Error
  cd_not_before_eocd : (cd_off cd_size eocd_off : ℕ) → Error
  header_outside shared_header no_local_header header_not_seen : (offset : ℕ) → Error
  overruns_next overruns_entries : (name : List ℕ) → Error
  truncated_keystore jceks_keystore pkcs12_keystore not_a_keystore wrong_integrity : Error
  not_jks_protected protected_too_short wrong_key_password : Error
  base64_character : (found : ℕ) → Error
  keystore_version entry_tag : (found : ℕ) → Error
  certificate_type : (found : List ℕ) → Error
  malformed_der multi_byte_tag der_length bit_string_padding : Error
  der_tag : (expected found offset : ℕ) → Error
  pkcs12_tag : (what : List ℕ) (expected found : ℕ) → Error
  missing_field not_positive too_large : (what : List ℕ) → Error
  pkcs12_integrity mac_digest pbmac1 mac_algorithm mac_iterations aes_iv_length : Error
  legacy_pbe : (name : List ℕ) → Error
  encryption_algorithm key_derivation no_iterations zero_iterations pbkdf2_prf : Error
  pbkdf2_parameters pbes2_cipher key_length_mismatch ciphertext_length : Error
  nested_too_deeply encrypted_content enveloped_data pfx_trailing pfx_version : Error
  signed_auth_safe certificates_password : Error
  header_overruns : (offset : ℕ) → Error
  overlaps_previous extra_too_long : (name : List ℕ) → Error
  malformed_cd_entry overrunning_cd_entry : (offset : ℕ) → Error

pub data Outcome {ℓ} (A : Type ℓ) : Type ℓ where
  ok : A → Outcome A
  err : Error → Outcome A
  panic out_of_fuel : Outcome A

infixl 5 ◌>>=◌ ◌>>◌
abbrev pub ◌>>=◌ {ℓ κ} : {A : Type ℓ} {B : Type κ} → Outcome A → (A → Outcome B) → Outcome B
panic >>= next = panic
out_of_fuel >>= next = out_of_fuel
err message >>= next = err message
ok value >>= next = next value

abbrev pub ◌>>◌ {ℓ} : {B : Type ℓ} → Outcome (Unit {0}) → Outcome B → Outcome B
call >> rest = call >>= λ _. rest

-- `if c { return Err(e) }`.
abbrev pub fail_if : Bool → Error → Outcome (Unit {0})
fail_if c e = if c then err e else ok tt

-- `o.ok_or(e)?`.
abbrev pub ok_or {ℓ} : {A : Type ℓ} → Option A → Error → Outcome A
ok_or none e = err e
ok_or (some a) e = ok a

-- A chain of two calls that returns: both did.
pub >>=-eq-ok {ℓ κ} :
    {A : Type ℓ} {B : Type κ} (call : Outcome A) (next : A → Outcome B) {result : B}
    → (call >>= next) ≡ ok result
    → (value : A) × (call ≡ ok value) × (next value ≡ ok result)
>>=-eq-ok panic next run = cc
>>=-eq-ok out_of_fuel next run = cc
>>=-eq-ok (err message) next run = cc
>>=-eq-ok (ok value) next run = (value, refl, run)

-- The call ends with no panic and with fuel left, and a value that it returns satisfies `P`.
abbrev pub Ensures {ℓ} : {A : Type ℓ} → (A → Type 0) → Outcome A → Type 0
Ensures P (ok a) = P a
Ensures P (err e) = Unit
Ensures P panic = ⊥
Ensures P out_of_fuel = ⊥

pub >>=-Ensures {ℓ κ} :
    {A : Type ℓ} {B : Type κ} (Q : A → Type 0) (P : B → Type 0) (m : Outcome A) (f : A → Outcome B)
    → Ensures Q m
    → ((a : A) → m ≡ ok a → Q a → Ensures P (f a))
    → Ensures P (m >>= f)
>>=-Ensures Q P (ok a) f h k = k a refl h
>>=-Ensures Q P (err e) f h k = tt
>>=-Ensures Q P panic f h k = absurd h
>>=-Ensures Q P out_of_fuel f h k = absurd h

pub fail_if-Ensures {ℓ} :
    {B : Type ℓ} (P : B → Type 0) (c : Bool) (e : Error) (m : Outcome B)
    → (c ≡ false → Ensures P m)
    → Ensures P (fail_if c e >> m)
fail_if-Ensures P true e m k = tt
fail_if-Ensures P false e m k = k refl

-- A value that the call returns satisfies `P`.
abbrev pub Returns {ℓ} : {A : Type ℓ} → (A → Type 0) → Outcome A → Type 0
Returns P (ok a) = P a
Returns P (err e) = Unit
Returns P panic = Unit
Returns P out_of_fuel = Unit

pub >>=-Returns {ℓ κ} :
    {A : Type ℓ} {B : Type κ} (P : B → Type 0) (m : Outcome A) (f : A → Outcome B)
    → ((a : A) → m ≡ ok a → Returns P (f a))
    → Returns P (m >>= f)
>>=-Returns P (ok a) f k = k a refl
>>=-Returns P (err e) f k = tt
>>=-Returns P panic f k = tt
>>=-Returns P out_of_fuel f k = tt

pub if-Returns {ℓ} :
    {A : Type ℓ} (P : A → Type 0) (c : Bool) (m k : Outcome A)
    → (c ≡ true → Returns P m)
    → (c ≡ false → Returns P k)
    → Returns P (if c then m else k)
if-Returns P true m k h l = h refl
if-Returns P false m k h l = l refl

pub Returns-ok {ℓ} :
    {A : Type ℓ} (P : A → Type 0) (m : Outcome A) (a : A) → Returns P m → m ≡ ok a → P a
Returns-ok P m a h e = subst (Returns P) e h

pub if-Ensures {ℓ} :
    {A : Type ℓ} (P : A → Type 0) (c : Bool) (m k : Outcome A)
    → (c ≡ true → Ensures P m)
    → (c ≡ false → Ensures P k)
    → Ensures P (if c then m else k)
if-Ensures P true m k h l = h refl
if-Ensures P false m k h l = l refl

pub Ensures-map {ℓ} :
    {A : Type ℓ} {P Q : A → Type 0} (m : Outcome A)
    → ((a : A) → P a → Q a)
    → Ensures P m
    → Ensures Q m
Ensures-map (ok a) f h = f a h
Ensures-map (err e) f h = tt
Ensures-map panic f h = h
Ensures-map out_of_fuel f h = h

-- A chain of calls depends on what its second call returns.
pub >>=-same {ℓ κ} :
    {A : Type ℓ} {B : Type κ} (m : Outcome A) (f g : A → Outcome B)
    → ((a : A) → f a ≡ g a)
    → (m >>= f) ≡ (m >>= g)
>>=-same (ok a) f g same = same a
>>=-same (err e) f g same = refl
>>=-same panic f g same = refl
>>=-same out_of_fuel f g same = refl

-- A value that a call returns is its value.
pub known_value :
    {A : Type 0} (P : A → Type 0) (m : Outcome A) → Ensures P m → Ensures (λ a. P a × (m ≡ ok a)) m
known_value P (ok a) h = (h, refl)
known_value P (err e) h = tt
known_value P panic h = h
known_value P out_of_fuel h = h
