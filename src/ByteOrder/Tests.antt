-- ===== src/ByteOrder/Tests.antt =====
-- Numbers of 16, 32 and 64 bits whose bytes are all different, and the theorems at them.
use pofswitch.Base.{◌≡◌, refl, arith}
use pofswitch.ByteOrder.{htons, htonl, hton64}
use pofswitch.ByteOrder.Swap.{hton64-hton64}

htons_test : htons 0x1234 ≡ 0x3412
unfolding htons
htons_test = refl

htonl_test : htonl 0x12345678 ≡ 0x78563412
unfolding htonl
htonl_test = refl

hton64_test : hton64 0x0123456789abcdef ≡ 0xefcdab8967452301
unfolding hton64
hton64_test = refl

hton64-hton64_example : hton64 (hton64 0x0123456789abcdef) ≡ 0x0123456789abcdef
hton64-hton64_example = hton64-hton64 0x0123456789abcdef (omega arith)
