-- ===== src/Encoding/Le.antt =====
-- The bytes of a word, lowest first: src/encoding/binary_le.h as an independent description.
use micro_opcua.Base.{ℕ, ◌+◌, ◌*◌, ◌/◌, ◌%◌, ◌^◌, ◌<◌, ◌≡◌, List, [], ◌∷◌, arith}

-- opcua_byte_t
abbrev pub IsByte : ℕ → Type 0
IsByte b = b < 256

-- mu_binary_le_put_u16
abbrev pub le_u16 : ℕ → List ℕ
le_u16 v = (v % 256) ∷ (v / 2 ^ 8 % 256) ∷ []

-- mu_binary_le_put_u32
abbrev pub le_u32 : ℕ → List ℕ
le_u32 v = (v % 256) ∷ (v / 2 ^ 8 % 256) ∷ (v / 2 ^ 16 % 256) ∷ (v / 2 ^ 24 % 256) ∷ []

-- mu_binary_le_put_u64
abbrev pub le_u64 : ℕ → List ℕ
le_u64 v =
    (v % 256)
    ∷ (v / 2 ^ 8 % 256)
    ∷ (v / 2 ^ 16 % 256)
    ∷ (v / 2 ^ 24 % 256)
    ∷ (v / 2 ^ 32 % 256)
    ∷ (v / 2 ^ 40 % 256)
    ∷ (v / 2 ^ 48 % 256)
    ∷ (v / 2 ^ 56 % 256)
    ∷ []

pub le_u16_value : (v : ℕ) → v < 2 ^ 16 → v % 256 + v / 2 ^ 8 % 256 * 2 ^ 8 ≡ v
le_u16_value v h = omega arith

pub le_u32_value :
    (v : ℕ)
    → v < 2 ^ 32
    → v % 256 + v / 2 ^ 8 % 256 * 2 ^ 8 + v / 2 ^ 16 % 256 * 2 ^ 16 + v / 2 ^ 24 % 256 * 2 ^ 24 ≡ v
le_u32_value v h = omega arith

pub le_u64_value :
    (v : ℕ)
    → v < 2 ^ 64
    → v % 256
        + v / 2 ^ 8 % 256 * 2 ^ 8
        + v / 2 ^ 16 % 256 * 2 ^ 16
        + v / 2 ^ 24 % 256 * 2 ^ 24
        + v / 2 ^ 32 % 256 * 2 ^ 32
        + v / 2 ^ 40 % 256 * 2 ^ 40
        + v / 2 ^ 48 % 256 * 2 ^ 48
        + v / 2 ^ 56 % 256 * 2 ^ 56
      ≡ v
le_u64_value v h = omega arith
