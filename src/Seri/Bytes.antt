-- ===== src/Seri/Bytes.antt =====
-- Numbers as bytes, the lowest first, and back.
use ue4_background.Seri.Read.{from_le}
use ue4_background.Seri.Write.{le_bytes}
use ue4_background.Prelude.{ℕ, zero, suc, ◌/◌, ◌^◌, ◌<◌, ◌≡◌, refl, sym, ap, arith, length}

-- The number has no more than `n` bytes.
abbrev pub Fits : ℕ → ℕ → Type 0
Fits zero v = v ≡ 0
Fits (suc n) v = Fits n (v / 256)

pub from_le-le_bytes : (n v : ℕ) → Fits n v → from_le (le_bytes n v) ≡ v
from_le-le_bytes zero v f = sym f
from_le-le_bytes (suc n) v f = omega (arith, from_le-le_bytes n (v / 256) f)

pub length-le_bytes : (n v : ℕ) → length (le_bytes n v) ≡ n
length-le_bytes zero v = refl
length-le_bytes (suc n) v = ap suc (length-le_bytes n (v / 256))

pub Fits-byte : (v : ℕ) → v < 0x100 → Fits 1 v
Fits-byte v h = omega arith

pub Fits-word : (v : ℕ) → v < 0x10000 → Fits 2 v
Fits-word v h = omega arith

pub Fits-dword : (v : ℕ) → v < 2 ^ 32 → Fits 4 v
Fits-dword v h = omega arith

pub Fits-qword : (v : ℕ) → v < 2 ^ 64 → Fits 8 v
Fits-qword v h = omega arith
