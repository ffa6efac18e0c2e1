-- ===== src/Word.antt =====
-- machine/src/core.rs: the four-byte memory word, most significant byte first, its byte
-- operations and its conversions. The operators are in the children.
pub mod Ops
pub mod Ordering
pub mod Bytes
pub mod Arith
pub mod Signed
pub mod Order
pub mod Bits
use valida.Prelude.{ℕ, zero, suc, ◌+◌, ◌*◌, ◌/◌, ◌%◌, ◌^◌, ◌<◌, ◌-◌}
use valida.Prelude.{Option, none, some, ltb, if◌then◌else◌}

-- `byte_0` is the array's element 0.
pub record Word {ℓ} (A : Type ℓ) : Type ℓ where
  pub byte_0 : A
  pub byte_1 : A
  pub byte_2 : A
  pub byte_3 : A

-- What the type `u8` guarantees of the bytes.
pub record IsWord (w : Word ℕ) : Type 0 where
  pub fits_0 : w.byte_0 < 2 ^ 8
  pub fits_1 : w.byte_1 < 2 ^ 8
  pub fits_2 : w.byte_2 < 2 ^ 8
  pub fits_3 : w.byte_3 < 2 ^ 8

-- `addr & 3`
unfoldable pub index_of_byte : ℕ → ℕ
index_of_byte addr = addr % 2 ^ 2

-- `addr & !3`
unfoldable pub addr_of_word : ℕ → ℕ
addr_of_word addr = addr - addr % 2 ^ 2

unfoldable pub from_u8 : ℕ → Word ℕ
from_u8 byte = record { byte_0 = 0; byte_1 = 0; byte_2 = 0; byte_3 = byte }

-- `byte as i8 >> 7` is 0 or -1, and -1 as `u8` is 255.
unfoldable pub sign_extend_byte : ℕ → Word ℕ
sign_extend_byte byte =
    let sign : ℕ = if ltb byte (2 ^ 7) then 0 else 255 in
    record { byte_0 = byte; byte_1 = sign; byte_2 = sign; byte_3 = sign }

unfoldable pub zero_extend_byte : ℕ → Word ℕ
zero_extend_byte byte = record { byte_0 = byte; byte_1 = 0; byte_2 = 0; byte_3 = 0 }

module _ {ℓ} {A : Type ℓ} where
  -- `word[i]`; `none` is the panic out of bounds.
  unfoldable pub index : Word A → ℕ → Option A
  index w zero = some w.byte_0
  index w (suc zero) = some w.byte_1
  index w (suc (suc zero)) = some w.byte_2
  index w (suc (suc (suc zero))) = some w.byte_3
  index w (suc (suc (suc (suc i)))) = none

  -- `none` is the panic of the assignment out of bounds.
  unfoldable pub update_byte : Word A → A → ℕ → Option (Word A)
  update_byte w byte zero = some (record w { byte_0 = byte })
  update_byte w byte (suc zero) = some (record w { byte_1 = byte })
  update_byte w byte (suc (suc zero)) = some (record w { byte_2 = byte })
  update_byte w byte (suc (suc (suc zero))) = some (record w { byte_3 = byte })
  update_byte w byte (suc (suc (suc (suc i)))) = none

unfoldable pub transform {ℓ κ} : {A : Type ℓ} {B : Type κ} → (A → B) → Word A → Word B
transform f w = record {
  byte_0 = f w.byte_0;
  byte_1 = f w.byte_1;
  byte_2 = f w.byte_2;
  byte_3 = f w.byte_3;
}

-- `Into<u32>`: the loop over the four bytes, unrolled; no sum of bytes exceeds 32 bits.
unfoldable pub into_u32 : Word ℕ → ℕ
into_u32 w = w.byte_3 + w.byte_2 * 2 ^ 8 + w.byte_1 * 2 ^ 16 + w.byte_0 * 2 ^ 24

-- `From<u32>`: `(value >> (i * 8)) & 0xFF` into element `3 - i`.
unfoldable pub from_u32 : ℕ → Word ℕ
from_u32 value = record {
  byte_0 = value / 2 ^ 24 % 2 ^ 8;
  byte_1 = value / 2 ^ 16 % 2 ^ 8;
  byte_2 = value / 2 ^ 8 % 2 ^ 8;
  byte_3 = value % 2 ^ 8;
}
