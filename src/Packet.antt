-- ===== src/Packet.antt =====
-- The checksums of SocketsRawPacket/Client/client.c, over the bytes of a packet on a machine whose
-- low byte comes first. A sum has far fewer than 64 bits, so `unsigned long` does not overflow.
pub mod Fold
pub mod Check
pub mod Frame
use eltex_lessons.Base.{
  ℕ, zero, suc, ◌+◌, ◌-◌, ◌*◌, ◌/◌, ◌%◌, Option, none, some, List, [], ◌∷◌, ◌++◌, leb, ◌==◌, length,
  if◌then◌else◌,
}
use eltex_lessons.Text.{Bytes}

abbrev pub buff_size : ℕ
buff_size = 1024

-- The sum of the 16-bit words, and of the last byte where there is an odd number.
unfoldable pub sum_words : Bytes → ℕ
sum_words [] = 0
sum_words (a ∷ []) = a
sum_words (a ∷ b ∷ s) = a + 256 * b + sum_words s

-- `(unsigned short)(~sum)`
abbrev pub complement : ℕ → ℕ
complement sum = 65535 - sum % 65536

-- The two statements that fold the upper half in.
unfoldable pub fold_twice : ℕ → ℕ
fold_twice sum = let half = sum / 65536 + sum % 65536 in half + half / 65536

-- A 16-bit number as it lies in memory.
abbrev pub word : ℕ → Bytes
word c = c % 256 ∷ c / 256 ∷ []

unfoldable pub ip_checksum : Bytes → ℕ
ip_checksum s = complement (fold_twice (sum_words s))

-- The loop of `udp_checksum` that folds the upper half in.
unfoldable pub fold_loop : ℕ → ℕ → Option ℕ
fold_loop zero sum = none
fold_loop (suc fuel) sum =
    let rest = fold_loop fuel (sum % 65536 + sum / 65536) in
    if sum / 65536 == 0 then some sum else rest

-- `struct pseudo_header`: the addresses, a zero, the protocol and the length with its high byte
-- first.
abbrev pub pseudo : Bytes → Bytes → ℕ → Bytes
pseudo src dst udp_len = src ++ (dst ++ (0 ∷ 17 ∷ udp_len / 256 % 256 ∷ udp_len % 256 ∷ []))

-- `none` where the parts do not fit into the buffer.
unfoldable pub udp_checksum : Bytes → Bytes → Bytes → Bytes → Option ℕ
udp_checksum src dst udp payload =
    let buf = pseudo src dst (8 + length payload) ++ (udp ++ payload) in
    let folded = fold_loop 3 (sum_words buf) in
    if leb (length buf) buff_size
    then elim folded [ none ↦ none | some sum ↦ some (complement sum) ]
    else none
