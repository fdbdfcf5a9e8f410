-- ===== src/Frame/Crc.antt =====
-- `binascii.crc32`: the reflected CRC-32 of the polynomial `crc_polynomial` of mcubridge.proto, bit by
-- bit.
use Prim.Native.Nat.{bit_xor}
use arduino_yun_bridge.Base.{
  ℕ, zero, suc, ◌/◌, ◌%◌, ◌≡◌, refl, [], ◌∷◌, ◌==◌, if◌then◌else◌, Bytes, codes,
}

abbrev crc_polynomial : ℕ
crc_polynomial = 3988292384

crc_bits : ℕ → ℕ → ℕ
crc_bits zero c = c
crc_bits (suc k) c = crc_bits k (if c % 2 == 1 then bit_xor (c / 2) crc_polynomial else c / 2)

crc_bytes : ℕ → Bytes → ℕ
crc_bytes c [] = c
crc_bytes c (b ∷ bs) = crc_bytes (crc_bits 8 (bit_xor c b)) bs

unfoldable pub crc32 : Bytes → ℕ
unfolding crc_bits crc_bytes
crc32 body = bit_xor (crc_bytes 4294967295 body) 4294967295

-- The check value of the CRC-32 catalogue.
crc32_check : crc32 (codes "123456789") ≡ 0xcbf43926
unfolding crc32
crc32_check = refl
