-- ===== src/Word/Bits.antt =====
-- The byte-wise `^`, `&` and `|` of two words are those of their 32-bit values.
mod Digits
use Digits.{bit_xor_fields, bit_and_fields, bit_or_fields, bit_xor-lt, bit_and-lt, bit_or-lt}
use valida.Prelude.{ℕ, ◌+◌, ◌*◌, ◌^◌, ◌<◌, ◌≡◌, ◌∙◌, ap, sym, arith, bit_and, bit_or, bit_xor}
use valida.Word.{Word, IsWord, into_u32}
use valida.Word.Ops.{bytewise, xor, and, or}

-- The value of a word by its bytes, the most significant first.
abbrev horner : ℕ → ℕ → ℕ → ℕ → ℕ
horner p q r s = ((p * 2 ^ 8 + q) * 2 ^ 8 + r) * 2 ^ 8 + s

into_u32-horner : (w : Word ℕ) → into_u32 w ≡ horner w.byte_0 w.byte_1 w.byte_2 w.byte_3
unfolding into_u32
into_u32-horner w = omega arith

module _ (op : ℕ → ℕ → ℕ)
    (fields : (a b x y : ℕ)
      → x < 2 ^ 8
      → y < 2 ^ 8
      → op (a * 2 ^ 8 + x) (b * 2 ^ 8 + y) ≡ op a b * 2 ^ 8 + op x y) where
  bytes_of :
      (b c : Word ℕ)
      → IsWord b
      → IsWord c
      → op (into_u32 b) (into_u32 c)
        ≡ horner
            (op b.byte_0 c.byte_0)
            (op b.byte_1 c.byte_1)
            (op b.byte_2 c.byte_2)
            (op b.byte_3 c.byte_3)
  bytes_of b c h k = rw (
    into_u32-horner b,
    into_u32-horner c,
    fields ((b.byte_0 * 2 ^ 8 + b.byte_1) * 2 ^ 8 + b.byte_2)
        ((c.byte_0 * 2 ^ 8 + c.byte_1) * 2 ^ 8 + c.byte_2) b.byte_3 c.byte_3 h.fits_3 k.fits_3,
    fields (b.byte_0 * 2 ^ 8 + b.byte_1) (c.byte_0 * 2 ^ 8 + c.byte_1) b.byte_2 c.byte_2 h.fits_2
        k.fits_2,
    fields b.byte_0 c.byte_0 b.byte_1 c.byte_1 h.fits_1 k.fits_1,
  )

-- The exclusive or of two words, byte by byte, is that of their 32-bit values.
pub into_u32-xor :
    (b c : Word ℕ) → IsWord b → IsWord c → into_u32 (xor b c) ≡ bit_xor (into_u32 b) (into_u32 c)
unfolding xor
into_u32-xor b c h k = into_u32-horner (xor b c) ∙ sym (bytes_of bit_xor bit_xor_fields b c h k)

pub into_u32-and :
    (b c : Word ℕ) → IsWord b → IsWord c → into_u32 (and b c) ≡ bit_and (into_u32 b) (into_u32 c)
unfolding and
into_u32-and b c h k = into_u32-horner (and b c) ∙ sym (bytes_of bit_and bit_and_fields b c h k)

pub into_u32-or :
    (b c : Word ℕ) → IsWord b → IsWord c → into_u32 (or b c) ≡ bit_or (into_u32 b) (into_u32 c)
unfolding or
into_u32-or b c h k = into_u32-horner (or b c) ∙ sym (bytes_of bit_or bit_or_fields b c h k)

module _ (f : ℕ → ℕ → ℕ) (bound : (k a b : ℕ) → a < 2 ^ k → b < 2 ^ k → f a b < 2 ^ k) where
  bytewise-IsWord : (b c : Word ℕ) → IsWord b → IsWord c → IsWord (bytewise f b c)
  unfolding bytewise
  bytewise-IsWord b c h k = record {
    fits_0 = bound 8 _ _ h.fits_0 k.fits_0;
    fits_1 = bound 8 _ _ h.fits_1 k.fits_1;
    fits_2 = bound 8 _ _ h.fits_2 k.fits_2;
    fits_3 = bound 8 _ _ h.fits_3 k.fits_3;
  }

pub xor-IsWord : (b c : Word ℕ) → IsWord b → IsWord c → IsWord (xor b c)
unfolding xor
xor-IsWord = bytewise-IsWord bit_xor bit_xor-lt

pub and-IsWord : (b c : Word ℕ) → IsWord b → IsWord c → IsWord (and b c)
unfolding and
and-IsWord = bytewise-IsWord bit_and bit_and-lt

pub or-IsWord : (b c : Word ℕ) → IsWord b → IsWord c → IsWord (or b c)
unfolding or
or-IsWord = bytewise-IsWord bit_or bit_or-lt
