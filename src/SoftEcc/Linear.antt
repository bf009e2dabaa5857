-- ===== src/SoftEcc/Linear.antt =====
-- rust/rustlux_mm/src/soft_ecc.rs: the syndrome and the parity are linear, so what `verify`
-- finds depends on the error only.
use linux_rustlux.Base.{
  ℕ, zero, suc, ◌+◌, ◌%◌, ◌^◌, ◌≤◌, ◌<◌, bit_and, bit_or, bit_xor, ◌≡◌, refl, Bool, true, ◌==◌,
  if◌then◌else◌, ◌>>>◌, arith, inl, inr, Bool-cases, all_below, all_below_sound, ==_iff,
}
use linux_rustlux.Bits.Xor.{
  xor_regroup, xor_self, xor-zero, xor_assoc, xor_comm, xor-mod, zero-xor, xor-lt,
}
use linux_rustlux.Bits.And.{and-one, and-0x7f}
use linux_rustlux.Bits.Shift.{xor-div-pow, xor-mod-pow}
use linux_rustlux.Bits.Count.{count_ones, count_ones-xor}
use linux_rustlux.SoftEcc.{
  is_parity_pos, toggle, syndrome_loop, data_syndrome, positions, encode, verify, judge,
}

toggle-xor :
    (a b bit p s t : ℕ)
    → toggle (bit_xor a b) bit p (bit_xor s t) ≡ bit_xor (toggle a bit p s) (toggle b bit p t)
unfolding toggle
toggle-xor a b bit p s t = ground (
  arith,
  and-one (a >>> bit),
  and-one (b >>> bit),
  and-one (bit_xor a b >>> bit),
  xor-div-pow bit a b,
  xor-mod (a >>> bit) (b >>> bit),
  xor_regroup s p t p,
  xor_self p,
  xor-zero (bit_xor s t),
  xor_assoc s t p,
  xor_assoc s p t,
  xor_comm t p,
)

syndrome_loop-xor :
    (left p bit s t a b : ℕ)
    → syndrome_loop left p bit (bit_xor s t) (bit_xor a b)
      ≡ bit_xor (syndrome_loop left p bit s a) (syndrome_loop left p bit t b)
unfolding syndrome_loop
syndrome_loop-xor zero p bit s t a b = refl
syndrome_loop-xor (suc left) p bit s t a b = elim (Bool-cases (is_parity_pos p)) [
  | inl skip ↦ rw skip (syndrome_loop-xor left (p + 1) bit s t a b)
  | inr take ↦
      rw (take, toggle-xor a b bit p s t)
        (syndrome_loop-xor left (p + 1) (bit + 1) (toggle a bit p s) (toggle b bit p t) a b)
]

-- The syndrome of a corrupted word is that of the word and that of the error together.
pub data_syndrome-xor :
    (a b : ℕ) → data_syndrome (bit_xor a b) ≡ bit_xor (data_syndrome a) (data_syndrome b)
unfolding data_syndrome
data_syndrome-xor a b = syndrome_loop-xor positions 1 0 0 0 a b

toggle-lt : (p bit s a : ℕ) → p < 2 ^ 7 → s < 2 ^ 7 → toggle a bit p s < 2 ^ 7
unfolding toggle
toggle-lt p bit s a hp hs = ground (arith, xor-lt 7 s p hs hp)

syndrome_loop-lt :
    (left p bit s a : ℕ) → left + p ≤ 128 → s < 2 ^ 7 → syndrome_loop left p bit s a < 2 ^ 7
unfolding syndrome_loop
syndrome_loop-lt zero p bit s a h hs = hs
syndrome_loop-lt (suc left) p bit s a h hs =
    syndrome_loop-lt left (p + 1) (if is_parity_pos p then bit else bit + 1)
      (if is_parity_pos p then s else toggle a bit p s) a (omega arith)
      (ground (arith, toggle-lt p bit s a))

pub data_syndrome-lt : (a : ℕ) → data_syndrome a < 128
unfolding data_syndrome
data_syndrome-lt a = syndrome_loop-lt positions 1 0 0 a (omega arith) (omega arith)

abbrev high_bit_fits : ℕ → Bool
high_bit_fits c = bit_or c 0x80 == c + 128

abbrev high_bit_counts : ℕ → Bool
high_bit_counts c = count_ones 32 (c + 128) == count_ones 32 c + 1

high_bit_table : (all_below 128 high_bit_fits ≡ true) × (all_below 128 high_bit_counts ≡ true)
unfolding count_ones
high_bit_table = (refl, refl)

high_bit_lem :
    (c : ℕ)
    → c < 128
    → (bit_or c 0x80 ≡ c + 128) × (count_ones 32 (bit_or c 0x80) ≡ count_ones 32 c + 1)
high_bit_lem c h = ground (
  arith,
  all_below_sound 128 high_bit_fits c high_bit_table.0 h,
  all_below_sound 128 high_bit_counts c high_bit_table.1 h,
  ==_iff (bit_or c 0x80) (c + 128),
  ==_iff (count_ones 32 (c + 128)) (count_ones 32 c + 1),
)

-- What `encode` stores: the syndrome in the low seven bits, and an even number of ones in all.
pub encode_parts :
    (word : ℕ)
    → (encode word % 128 ≡ data_syndrome word)
      × ((count_ones 64 word + count_ones 32 (encode word)) % 2 ≡ 0)
      × (encode word < 256)
unfolding encode
encode_parts word = ground (
  arith,
  and-0x7f (data_syndrome word),
  data_syndrome-lt word,
  high_bit_lem (data_syndrome word) (data_syndrome-lt word),
  and-one (count_ones 64 word + count_ones 32 (data_syndrome word)),
)

error_syndrome :
    (word e f : ℕ)
    → bit_xor (data_syndrome (bit_xor word e)) (bit_and (bit_xor (encode word) f) 0x7f)
      ≡ bit_xor (data_syndrome e) (f % 128)
error_syndrome word e f = cc (
  data_syndrome-xor word e,
  and-0x7f (bit_xor (encode word) f),
  xor-mod-pow 7 (encode word) f,
  (encode_parts word).0,
  xor_regroup (data_syndrome word) (data_syndrome e) (data_syndrome word) (f % 128),
  xor_self (data_syndrome word),
  zero-xor (bit_xor (data_syndrome e) (f % 128)),
)

error_parity :
    (word e f : ℕ)
    → bit_and (count_ones 64 (bit_xor word e) + count_ones 32 (bit_xor (encode word) f)) 1
      ≡ (count_ones 64 e + count_ones 32 f) % 2
error_parity word e f = omega (
  arith,
  and-one (count_ones 64 (bit_xor word e) + count_ones 32 (bit_xor (encode word) f)),
  count_ones-xor 64 word e,
  count_ones-xor 32 (encode word) f,
  encode_parts word,
)

-- `verify` on a word that the error `e` has hit, and a code that the error `f` has hit, sees
-- the errors' own syndrome and parity.
pub verify-error :
    (word e f : ℕ)
    → verify (bit_xor word e) (bit_xor (encode word) f)
      ≡ judge
          (bit_xor word e)
          (bit_xor (data_syndrome e) (f % 128))
          ((count_ones 64 e + count_ones 32 f) % 2 == 0)
unfolding verify
verify-error word e f = rw (error_syndrome word e f, error_parity word e f)
