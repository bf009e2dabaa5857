-- ===== src/SoftEcc/Correct.antt =====
-- rust/rustlux_mm/src/soft_ecc.rs: what `verify` and its FFI wrapper answer after no error, one
-- error and two errors, for every word.
use linux_rustlux.Base.{
  ℕ, ◌+◌, ◌%◌, ◌^◌, ◌<◌, ◌≤◌, bit_xor, ◌≡◌, refl, sym, ap, ◌∙◌, ◌≢◌, ◌↔◌, true, ◌==◌, arith, dec_lt,
}
use linux_rustlux.Bits.Xor.{
  xor-zero, zero-xor, xor_self, xor_cancel, xor_assoc, eq_of_xor-eq-zero, xor-lt,
}
use linux_rustlux.Bits.Shift.{xor-mod-pow}
use linux_rustlux.Bits.Count.{count_ones, count_ones-xor}
use linux_rustlux.SoftEcc.{
  clean, corrected, uncorrectable, is_parity_pos, data_syndrome, positions, encode, verify, judge,
}
use linux_rustlux.SoftEcc.Linear.{encode_parts, verify-error, data_syndrome-xor}
use linux_rustlux.SoftEcc.Errors.{
  position, data_bit_lem, code_bit_lem, position-injective, position-ne-zero, position-ne-code,
  code-injective, syndrome_zero,
}

-- The outcome with the error alone: an error in the data word `e` and one in the code `f`.
judge_even :
    (word syn : ℕ) (n : ℕ) → n % 2 ≡ 0 → syn ≢ 0 → judge word syn (n % 2 == 0) ≡ uncorrectable
unfolding judge
judge_even word syn n even nz = ground arith

judge_parity :
    (word syn n : ℕ)
    → n % 2 ≡ 1
    → is_parity_pos syn ≡ true
    → syn ≤ positions
    → judge word syn (n % 2 == 0) ≡ corrected word
unfolding judge
judge_parity word syn n odd parity inside = ground arith

judge_data :
    (word i n : ℕ)
    → n % 2 ≡ 1
    → i < 64
    → judge word (position i) (n % 2 == 0) ≡ corrected (bit_xor word (2 ^ i))
unfolding judge
judge_data word i n odd h = ground (arith, data_bit_lem i h, position-ne-zero i h)

pub count_nothing : (count_ones 64 0 ≡ 0) × (count_ones 32 0 ≡ 0) × (count_ones 32 128 ≡ 1)
unfolding count_ones
count_nothing = (refl, refl, refl)

-- An error in the data alone, and in the code alone.
pub data_error :
    (word e : ℕ)
    → verify (bit_xor word e) (encode word)
      ≡ judge (bit_xor word e) (data_syndrome e) ((count_ones 64 e + count_ones 32 0) % 2 == 0)
data_error word e =
    ap (verify (bit_xor word e)) (sym (xor-zero (encode word)))
    ∙ verify-error word e 0
    ∙ rw (xor-zero (data_syndrome e))

pub code_error :
    (word f : ℕ)
    → verify word (bit_xor (encode word) f)
      ≡ judge word (f % 128) ((count_ones 64 0 + count_ones 32 f) % 2 == 0)
code_error word f =
    ap (λ (t : ℕ). verify t (bit_xor (encode word) f)) (sym (xor-zero word))
    ∙ verify-error word 0 f
    ∙ rw (syndrome_zero, zero-xor (f % 128), xor-zero word)

even_of_odd :
    (w a b : ℕ) → count_ones w a ≡ 1 → count_ones w b ≡ 1 → count_ones w (bit_xor a b) % 2 ≡ 0
even_of_odd w a b ha hb = omega (arith, count_ones-xor w a b)

pub data_flip : (word i : ℕ) → i < 64 → verify (bit_xor word (2 ^ i)) (encode word) ≡ corrected word
data_flip word i h =
    data_error word (2 ^ i)
    ∙ judge_data (bit_xor word (2 ^ i)) i (count_ones 64 (2 ^ i) + count_ones 32 0)
        (omega (arith, (data_bit_lem i h).odd, count_nothing)) h
    ∙ ap corrected (xor_cancel word (2 ^ i))

pub code_flip : (word b : ℕ) → b < 8 → verify word (bit_xor (encode word) (2 ^ b)) ≡ corrected word
code_flip word b h =
    code_error word (2 ^ b)
    ∙ judge_parity word (2 ^ b % 128) (count_ones 64 0 + count_ones 32 (2 ^ b))
        (omega (arith, (code_bit_lem b h).odd, count_nothing)) (code_bit_lem b h).parity
        (code_bit_lem b h).inside

pub two_data_flips :
    (word i j : ℕ)
    → i < 64
    → j < 64
    → i ≢ j
    → verify (bit_xor word (bit_xor (2 ^ i) (2 ^ j))) (encode word) ≡ uncorrectable
two_data_flips word i j hi hj ne =
    data_error word (bit_xor (2 ^ i) (2 ^ j))
    ∙ judge_even _ _ (count_ones 64 (bit_xor (2 ^ i) (2 ^ j)) + count_ones 32 0)
        (omega (
          arith,
          count_nothing,
          even_of_odd 64 (2 ^ i) (2 ^ j) (data_bit_lem i hi).odd (data_bit_lem j hj).odd,
        ))
        (λ z. ne (
          position-injective i j hi hj (
            eq_of_xor-eq-zero (position i) (position j)
              (sym (data_syndrome-xor (2 ^ i) (2 ^ j)) ∙ z))))

pub data_and_code_flip :
    (word i b : ℕ)
    → i < 64
    → b < 8
    → verify (bit_xor word (2 ^ i)) (bit_xor (encode word) (2 ^ b)) ≡ uncorrectable
data_and_code_flip word i b hi hb =
    verify-error word (2 ^ i) (2 ^ b)
    ∙ judge_even _ _ (count_ones 64 (2 ^ i) + count_ones 32 (2 ^ b))
        (omega (arith, (data_bit_lem i hi).odd, (code_bit_lem b hb).odd))
        (λ z. position-ne-code i b hi hb (eq_of_xor-eq-zero (position i) (2 ^ b % 128) z))

pub two_code_flips :
    (word a b : ℕ)
    → a < 8
    → b < 8
    → a ≢ b
    → verify word (bit_xor (encode word) (bit_xor (2 ^ a) (2 ^ b))) ≡ uncorrectable
two_code_flips word a b ha hb ne =
    code_error word (bit_xor (2 ^ a) (2 ^ b))
    ∙ judge_even _ _ (count_ones 64 0 + count_ones 32 (bit_xor (2 ^ a) (2 ^ b)))
        (omega (
          arith,
          count_nothing,
          even_of_odd 32 (2 ^ a) (2 ^ b) (code_bit_lem a ha).odd (code_bit_lem b hb).odd,
        ))
        (λ z. ne (
          code-injective a b ha hb (
            eq_of_xor-eq-zero (2 ^ a % 128) (2 ^ b % 128)
              (sym (xor-mod-pow 7 (2 ^ a) (2 ^ b)) ∙ z))))

judge_clean : (word syn n : ℕ) → judge word syn (n % 2 == 0) ≡ clean → (syn ≡ 0) × (n % 2 ≡ 0)
unfolding judge
judge_clean word syn n h = ground arith

pub only_zero : (f : ℕ) → f < 256 → f % 128 ≡ 0 → count_ones 32 f % 2 ≡ 0 → f ≡ 0
only_zero f h low even = elim (dec_lt f 128) [
  | yes small ↦ omega arith
  | no big ↦
      let is_high : f ≡ 128 = omega arith in
      absurd (omega (arith, ap (count_ones 32) is_high, count_nothing))
]

pub judge_no_error : (word n : ℕ) → n % 2 ≡ 0 → judge word 0 (n % 2 == 0) ≡ clean
unfolding judge
judge_no_error word n even = ground arith

-- A byte is judged clean beside a word exactly when it is the word's own code.
pub verify-clean_iff :
    (word code : ℕ) → code < 256 → (verify word code ≡ clean) ↔ (code ≡ encode word)
verify-clean_iff word code h = (
  λ seen.
      unique (judge_clean word (f % 128) (count_ones 64 0 + count_ones 32 f) (sym found ∙ seen)),
  λ e.
      ap (verify word) (e ∙ sym (xor-zero (encode word)))
      ∙ code_error word 0
      ∙ judge_no_error word (count_ones 64 0 + count_ones 32 0) (omega (arith, count_nothing)),
)
  where
    f : ℕ
    f = bit_xor (encode word) code

    again : bit_xor (encode word) f ≡ code
    again =
        sym (xor_assoc (encode word) (encode word) code)
        ∙ ap (λ (t : ℕ). bit_xor t code) (xor_self (encode word))
        ∙ zero-xor code

    found : verify word code ≡ judge word (f % 128) ((count_ones 64 0 + count_ones 32 f) % 2 == 0)
    found = ap (verify word) (sym again) ∙ code_error word f

    unique : (f % 128 ≡ 0) × ((count_ones 64 0 + count_ones 32 f) % 2 ≡ 0) → code ≡ encode word
    unique (low, even) = sym (
        eq_of_xor-eq-zero (encode word) code (
          only_zero f (xor-lt 8 (encode word) code (encode_parts word).2 h) low
            (omega (arith, count_nothing))))
