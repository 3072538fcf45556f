-- ===== src/Packet/Check.antt =====
-- A receiver that sums a packet with its checksum in place gets all ones.
use eltex_lessons.Base.{
  ℕ, ◌+◌, ◌*◌, ◌%◌, ◌≤◌, ◌<◌, ◌≡◌, refl, ◌∙◌, ap, sym, true, some, [], ◌∷◌, ◌++◌, arith, leb, All,
  length, length-append,
}
use mathlib.Core.List.{append_assoc}
use mathlib.Core.Path.{subst}
use eltex_lessons.Text.{Bytes}
use eltex_lessons.Packet.{
  sum_words, complement, fold_twice, word, ip_checksum, buff_size, pseudo, udp_checksum,
}
use eltex_lessons.Packet.Fold.{complement-fold_twice, fold_twice-zero, fold_loop_lem}

abbrev pub IsByte : ℕ → Type 0
IsByte c = c < 256

-- The sum that a receiver takes, by RFC 1071: of the 16-bit words with the high byte first, an odd
-- last byte being the high byte of a word.
abbrev pub net_sum : Bytes → ℕ
net_sum [] = 0
net_sum (a ∷ []) = 256 * a
net_sum (a ∷ b ∷ s) = 256 * a + b + net_sum s

-- The sum is all ones in one's complement: it is zero modulo 65535, but not zero.
abbrev pub IsSound : Bytes → Type 0
IsSound s = (net_sum s % 65535 ≡ 0) × (0 < net_sum s)

-- The two sums are one, up to the order of the bytes.
net_sum_lem :
    (s : Bytes)
    → (k : ℕ) × (256 * sum_words s ≡ net_sum s + 65535 * k) × (sum_words s ≤ 256 * net_sum s)
unfolding sum_words
net_sum_lem [] = (0, refl, omega arith)
net_sum_lem (a ∷ []) = (0, omega arith, omega arith)
net_sum_lem (a ∷ b ∷ s) =
    let (k, e, le) = net_sum_lem s in (b + k, omega (arith, e), omega (arith, le))

sound :
    (s : Bytes)
    → sum_words s < 65536 * 65535
    → complement (fold_twice (sum_words s)) ≡ 0
    → IsSound s
sound s small e =
    let (m, ne) = fold_twice-zero (sum_words s) small e in
    let (k, same, le) = net_sum_lem s in (omega (arith, m, same), omega (arith, ne, le))

-- An even number of bytes.
abbrev pub IsEven : Bytes → Type 0
IsEven [] = Unit
IsEven (a ∷ []) = ⊥
IsEven (a ∷ b ∷ s) = IsEven s

sum_words-append : (s t : Bytes) → IsEven s → sum_words (s ++ t) ≡ sum_words s + sum_words t
unfolding sum_words
sum_words-append [] t h = omega arith
sum_words-append (a ∷ []) t h = absurd h
sum_words-append (a ∷ b ∷ s) t h = omega (arith, sum_words-append s t h)

sum_words_lt : (s : Bytes) → All IsByte s → sum_words s ≤ 65535 * length s
unfolding sum_words
sum_words_lt [] h = omega arith
sum_words_lt (a ∷ []) h = omega arith
sum_words_lt (a ∷ b ∷ s) h = omega (arith, sum_words_lt s h.1.1)

-- The sum with a number in a field is the sum with zero there, and the number.
sum_words-field :
    (pre post : Bytes) (c : ℕ)
    → IsEven pre
    → sum_words (pre ++ (word c ++ post)) ≡ sum_words (pre ++ (word 0 ++ post)) + c
unfolding sum_words
sum_words-field pre post c h =
    omega (arith, sum_words-append pre (word c ++ post) h, sum_words-append pre (word 0 ++ post) h)

-- `ip_checksum` of a header of at most 60 bytes with a zero in its field, which stands at an
-- even place: with the result in the field, the checksum of the header is zero, and the sum of a
-- receiver is all ones.
pub ip_checksum_lem :
    (pre post : Bytes)
    → IsEven pre
    → All IsByte (pre ++ (word 0 ++ post))
    → length (pre ++ (word 0 ++ post)) ≤ 60
    → let whole = pre ++ (word (ip_checksum (pre ++ (word 0 ++ post))) ++ post) in
      (ip_checksum whole ≡ 0) × IsSound whole
unfolding ip_checksum
ip_checksum_lem pre post even bytes size =
    let s = sum_words (pre ++ (word 0 ++ post)) in
    let c = complement (fold_twice s) in
    let small : s < 65536 * 65534 = omega (arith, sum_words_lt (pre ++ (word 0 ++ post)) bytes) in
    let sum_c = sum_words-field pre post c even in
    let zero_sum : complement (fold_twice (sum_words (pre ++ (word c ++ post)))) ≡ 0 =
      rw sum_c (complement-fold_twice s (omega (arith, small))) in
    (zero_sum, sound (pre ++ (word c ++ post)) (omega (arith, small, sum_c)) zero_sum)

complement_mod : (s : ℕ) → complement (s % 65536) ≡ complement s
complement_mod s = omega arith

udp_checksum_sum :
    (src dst udp payload : Bytes)
    → let buf = pseudo src dst (8 + length payload) ++ (udp ++ payload) in
      length buf ≤ buff_size
      → sum_words buf < 65536 * 65535
      → udp_checksum src dst udp payload ≡ some (complement (fold_twice (sum_words buf)))
unfolding udp_checksum
udp_checksum_sum src dst udp payload fits small =
    let buf = pseudo src dst (8 + length payload) ++ (udp ++ payload) in
    let fits' : leb (length buf) buff_size ≡ true = ground arith in
    rw (fits', udp_checksum)
      (rw (fold_loop_lem (sum_words buf) small)
        (ap some (complement_mod (fold_twice (sum_words buf)))))

buf_parts :
    (src dst udp w payload : Bytes) (n : ℕ)
    → pseudo src dst n ++ ((udp ++ w) ++ payload) ≡ (pseudo src dst n ++ udp) ++ (w ++ payload)
buf_parts src dst udp w payload n =
    ap (λ b. pseudo src dst n ++ b) (append_assoc udp w payload)
    ∙ sym (append_assoc (pseudo src dst n) udp (w ++ payload))

length-field :
    (pre post : Bytes) (c d : ℕ)
    → length (pre ++ (word c ++ post)) ≡ length (pre ++ (word d ++ post))
length-field pre post c d =
    omega (arith, length-append pre (word c ++ post), length-append pre (word d ++ post))

-- `udp_checksum` of a datagram whose parts fit into the buffer, with a zero in its field at an even
-- place of the header: the loop ends and there is a result, and with the result in the field the
-- checksum is zero, and the sum of a receiver is all ones.
pub udp_checksum_lem :
    (src dst udp payload : Bytes)
    → let front = pseudo src dst (8 + length payload) ++ udp in
      IsEven front
      → All IsByte (front ++ (word 0 ++ payload))
      → length (front ++ (word 0 ++ payload)) ≤ buff_size
      → (c : ℕ) × (udp_checksum src dst (udp ++ word 0) payload ≡ some c)
        × (udp_checksum src dst (udp ++ word c) payload ≡ some 0)
        × IsSound (pseudo src dst (8 + length payload) ++ ((udp ++ word c) ++ payload))
udp_checksum_lem src dst udp payload even bytes fits =
    let n = 8 + length payload in
    let front = pseudo src dst n ++ udp in
    let s = sum_words (front ++ (word 0 ++ payload)) in
    let c = complement (fold_twice s) in
    let small : s < 65536 * 1025 =
      omega (arith, sum_words_lt (front ++ (word 0 ++ payload)) bytes) in
    let at_zero = buf_parts src dst udp (word 0) payload n in
    let at_c = buf_parts src dst udp (word c) payload n in
    let sum_c = sum_words-field front payload c even in
    let zero_sum : complement (fold_twice (sum_words (front ++ (word c ++ payload)))) ≡ 0 =
      rw sum_c (complement-fold_twice s (omega arith)) in
    (
      c,
      udp_checksum_sum src dst (udp ++ word 0) payload (rw at_zero fits) (rw at_zero (omega arith))
          ∙ rw at_zero refl,
      udp_checksum_sum src dst (udp ++ word c) payload
            (rw at_c (omega (arith, length-field front payload c 0)))
            (rw at_c (omega (arith, sum_c)))
          ∙ rw at_c (rw sum_c (ap some (complement-fold_twice s (omega arith)))),
      subst IsSound (sym at_c)
          (sound (front ++ (word c ++ payload)) (omega (arith, small, sum_c)) zero_sum),
    )
