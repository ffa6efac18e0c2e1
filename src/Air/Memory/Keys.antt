-- ===== src/Air/Memory/Keys.antt =====
-- memory/src/lib.rs: the order of keys `(addr, clk)`.
use valida.Prelude.{◌≡◌, true, false, arith}
use valida.Air.Memory.{Timed, key_le}

pub key_le_total : (x y : Timed) → key_le x y ≡ false → key_le y x ≡ true
unfolding key_le
key_le_total x y e = ground arith

pub key_le_trans : (x y z : Timed) → key_le x y ≡ true → key_le y z ≡ true → key_le x z ≡ true
unfolding key_le
key_le_trans x y z e f = ground arith
