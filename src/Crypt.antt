-- ===== src/Crypt.antt =====
-- lualib-src/lua-crypt.c: the codecs and keys that Lua code asks for. A string is the list of its bytes.
pub mod Base64
pub mod Bits
pub mod Des
pub mod Hex
pub mod Padding
pub mod Powmod
pub mod Random
pub mod Text
use ue4_background.Prelude.{ℕ, ◌-◌, ◌/◌, ◌<◌, List, [], ◌∷◌}

abbrev pub AllBytes : List ℕ → Type 0
AllBytes [] = Unit {0}
AllBytes (b ∷ bs) = (b < 256) × AllBytes bs

-- What a function of the library comes to: its results, the error that it raises, or a read in front
-- of a buffer.
pub data Outcome {ℓ} (A : Type ℓ) : Type ℓ where
  ok : A → Outcome A
  invalid : Outcome A
  overrun : Outcome A

infixl 5 ◌>>=◌
abbrev pub ◌>>=◌ {ℓ κ} : {A : Type ℓ} {B : Type κ} → Outcome A → (A → Outcome B) → Outcome B
ok a >>= f = f a
invalid >>= f = invalid
overrun >>= f = overrun
