-- ===== src/Failure.antt =====
-- What a call returns or throws. A constructor stands for each exception class that the code tells
-- apart, with its message where it has one.
pub mod Ensures
pub mod Only
pub mod Halts
use mathlib.Core.Path.{subst}
use observer_modules.Prelude.{ℕ, String, Bool, true, false, ◌≡◌, refl}

pub data Exception : Type 0 where
  -- src/core/io/bounded_stream.h: io::read_error
  stream_read : Exception
  -- src/modules/extractor.h: extractor::read_error
  extractor_read : Exception
  -- src/archive.h: archive::read_error, archive::write_error
  archive_read archive_write : Exception
  -- src/archive.h: archive::user_interrupt; std::ios_base::failure
  user_interrupt ios_failure : Exception
  -- std::runtime_error, std::out_of_range, std::invalid_argument
  runtime_error out_of_range invalid_argument : String → Exception
  -- godot::pck_error, pck_key_required, encryption_error, key_mismatch, rscc_error
  pck_error : String → Exception
  pck_key_required : String → ℕ → Exception
  encryption_error key_mismatch rscc_error : String → Exception
  -- codecs::audio_error, compression_error
  audio_error compression_error : String → Exception
  -- godot::metadata_error, key_recovery_error
  metadata_error : Exception
  key_recovery_error : String → Exception
  -- godot::tree_error, tree_budget_error
  tree_error : String → Exception
  tree_budget_error : Exception
  -- No exception of the program: the fuel of a loop of the model has run out.
  out_of_fuel : Exception

pub data Result {ℓ} (A : Type ℓ) : Type ℓ where
  ok : A → Result A
  throw : Exception → Result A

-- `if (bad) throw e;`
abbrev pub throw_if : Bool → Exception → Result (Unit {0})
throw_if true e = throw e
throw_if false e = ok tt

-- What follows a call: nothing, once it has thrown.
infixl 5 ◌>>=◌ ◌>>◌
abbrev pub ◌>>=◌ {ℓ κ} : {B : Type κ} {A : Type ℓ} → Result A → (A → Result B) → Result B
throw e >>= next = throw e
ok value >>= next = next value

abbrev pub ◌>>◌ {ℓ} : {B : Type ℓ} → Result (Unit {0}) → Result B → Result B
call >> next = call >>= λ _. next

-- The parts of a chain that returned.
pub >>=-eq-ok {ℓ κ} :
    {A : Type ℓ} {B : Type κ} {b : B} (m : Result A) (f : A → Result B)
    → (m >>= f) ≡ ok b
    → (a : A) × (m ≡ ok a) × (f a ≡ ok b)
>>=-eq-ok (throw e) f h = cc
>>=-eq-ok (ok value) next h = (value, refl, h)

pub throw_if-eq-ok : (b : Bool) (e : Exception) {u : Unit {0}} → throw_if b e ≡ ok u → b ≡ false
throw_if-eq-ok true e h = cc
throw_if-eq-ok false e h = refl

pub ok-injective {ℓ} : {A : Type ℓ} {a b : A} → ok a ≡ ok b → a ≡ b
ok-injective h = cc

-- A postcondition of a call: it holds of what is returned, if anything is.
pub from_ok {ℓ κ} : {A : Type ℓ} (P : A → Type κ) {a b : A} → P a → ok a ≡ ok b → P b
from_ok P h e = subst P (ok-injective e) h
