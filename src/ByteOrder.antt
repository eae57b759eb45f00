-- ===== src/ByteOrder.antt =====
-- include/pof_byte_transfer.h, little endian: the macros that turn a number of 16, 32 or 64 bits
-- between the order of the network and that of the machine, and the bytes of a number in memory.
-- `POF_HTON..` and `POF_NTOH..` have the same text. A number is below its width's bound; each
-- shifted part fits in its width.
pub mod Swap
pub mod Number
mod Tests
use pofswitch.Base.{ℕ, ◌+◌, ◌*◌, ◌/◌, ◌%◌, ◌^◌, List, [], ◌∷◌, get_or, ◌<<◌, ◌>>◌, bit_and, bit_or}

unfoldable pub htons : ℕ → ℕ
htons x = bit_or (bit_and x 0x00ff << 8) (bit_and x 0xff00 >> 8)

unfoldable pub htonl : ℕ → ℕ
htonl x =
    bit_or
      (bit_or (bit_or (bit_and x 0x000000ff << 24) (bit_and x 0x0000ff00 << 8))
        (bit_and x 0x00ff0000 >> 8))
      (bit_and x 0xff000000 >> 24)

-- The four parts that move up, and the four that move down.
unfoldable pub hton64 : ℕ → ℕ
hton64 x =
    bit_or
      (bit_or
        (bit_or
          (bit_or
            (bit_or
              (bit_or
                (bit_or (bit_and x 0x00000000000000ff << 56) (bit_and x 0x000000000000ff00 << 40))
                (bit_and x 0x0000000000ff0000 << 24))
              (bit_and x 0x00000000ff000000 << 8))
            (bit_and x 0x000000ff00000000 >> 8))
          (bit_and x 0x0000ff0000000000 >> 24))
        (bit_and x 0x00ff000000000000 >> 40))
      (bit_and x 0xff00000000000000 >> 56)

-- Byte `q` of a number, counted from the low end.
abbrev pub byte : ℕ → ℕ → ℕ
byte x q = x / 2 ^ (8 * q) % 2 ^ 8

-- `*(uint32_t *)p` and the bytes that a store of a number writes.
unfoldable pub load16 : List ℕ → ℕ → ℕ
load16 p i = get_or p i 0 + 2 ^ 8 * get_or p (i + 1) 0

unfoldable pub load32 : List ℕ → ℕ → ℕ
load32 p i =
    get_or p i 0
    + 2 ^ 8 * get_or p (i + 1) 0
    + 2 ^ 16 * get_or p (i + 2) 0
    + 2 ^ 24 * get_or p (i + 3) 0

unfoldable pub load64 : List ℕ → ℕ → ℕ
unfolding load32
load64 p i = load32 p i + 2 ^ 32 * load32 p (i + 4)

unfoldable pub bytes16 : ℕ → List ℕ
bytes16 x = byte x 0 ∷ byte x 1 ∷ []

unfoldable pub bytes32 : ℕ → List ℕ
bytes32 x = byte x 0 ∷ byte x 1 ∷ byte x 2 ∷ byte x 3 ∷ []

unfoldable pub bytes64 : ℕ → List ℕ
bytes64 x =
    byte x 0 ∷ byte x 1 ∷ byte x 2 ∷ byte x 3 ∷ byte x 4 ∷ byte x 5 ∷ byte x 6 ∷ byte x 7 ∷ []
