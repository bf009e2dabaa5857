-- ===== src/SoftEcc/Sound.antt =====
-- rust/rustlux_mm/src/soft_ecc.rs: what `verify` corrects is one flip away from its answer.
use linux_rustlux.Base.{
  ℕ, ◌+◌, ◌%◌, ◌^◌, ◌<◌, bit_xor, ◌≡◌, refl, sym, ap, ◌∙◌, subst, ◌⊎◌, inl, inr, Bool, true, false,
  ◌&&◌, ◌||◌, not, ◌==◌, ltb, u64, ◌<<<◌, if◌then◌else◌, arith, all_below, all_below_sound,
}
use linux_rustlux.Bits.Xor.{xor_assoc, xor_self, zero-xor, xor-lt, xor_cancel}
use linux_rustlux.Bits.Count.{count_ones}
use linux_rustlux.SoftEcc.{
  corrected, is_parity_pos, toggle, syndrome_loop, data_syndrome, positions, index_loop,
  data_bit_index, encode, verify, judge,
}
use linux_rustlux.SoftEcc.Linear.{encode_parts, verify-error}
use linux_rustlux.SoftEcc.Errors.{position, data_bit_lem, zero_parity}
use linux_rustlux.SoftEcc.Correct.{code_error, count_nothing, judge_no_error, verify-clean_iff}
use linux_rustlux.SoftEcc.Secded.{Flip, data_bit, code_bit, IsFlip, hit_word, hit_code}

-- The bit of a code byte with a single one.
code_index : ℕ → ℕ
code_index f =
    if f == 1
    then 0
    else if f == 2
    then 1
    else if f == 4
    then 2
    else if f == 8
    then 3
    else if f == 16
    then 4
    else if f == 32
    then 5
    else if f == 64
    then 6
    else 7

abbrev code_test : ℕ → Bool
code_test f =
    not (is_parity_pos (f % 128))
    || count_ones 32 f % 2 == 0
    || (2 ^ code_index f == f && ltb (code_index f) 8)

code_table : all_below 256 code_test ≡ true
unfolding is_parity_pos count_ones code_index
code_table = refl

code_lem :
    (f : ℕ)
    → f < 256
    → is_parity_pos (f % 128) ≡ true
    → count_ones 32 f % 2 ≡ 1
    → (2 ^ code_index f ≡ f) × (code_index f < 8)
code_lem f h parity odd = ground (arith, all_below_sound 256 code_test f code_table h)

abbrev data_test : ℕ → Bool
data_test syn =
    is_parity_pos syn
    || ltb positions syn
    || (position (data_bit_index syn) == syn && ltb (data_bit_index syn) 64)

data_table : all_below 128 data_test ≡ true
unfolding data_syndrome data_bit_index syndrome_loop index_loop toggle is_parity_pos
data_table = refl

data_lem :
    (syn : ℕ)
    → syn < 128
    → is_parity_pos syn ≡ false
    → ltb positions syn ≡ false
    → (position (data_bit_index syn) ≡ syn) × (data_bit_index syn < 64)
data_lem syn h data_pos inside = ground (arith, all_below_sound 128 data_test syn data_table h)

judge_corrected :
    (word syn n fixed : ℕ)
    → judge word syn (n % 2 == 0) ≡ corrected fixed
    → (n % 2 ≡ 1)
      × (((is_parity_pos syn ≡ true) × (fixed ≡ word))
          ⊎ ((is_parity_pos syn ≡ false)
              × (ltb positions syn ≡ false)
              × (fixed ≡ bit_xor word (u64 (1 <<< data_bit_index syn)))))
unfolding judge
judge_corrected word syn n fixed h = ground (arith, zero_parity)

abbrev OneFlip : ℕ → ℕ → ℕ → Type 0
OneFlip word code fixed =
    (x : Flip) × IsFlip x × (hit_word x fixed ≡ word) × (hit_code x (encode fixed) ≡ code)

module _ (word f : ℕ) (small : f < 256) (odd : count_ones 32 f % 2 ≡ 1) where
  in_code : is_parity_pos (f % 128) ≡ true → OneFlip word (bit_xor (encode word) f) word
  in_code parity =
      let at = code_lem f small parity odd in
      (code_bit (code_index f), at.1, refl, ap (bit_xor (encode word)) at.0)

  -- The word that is answered has the code at hand for its own.
  in_data :
      is_parity_pos (f % 128) ≡ false
      → ltb positions (f % 128) ≡ false
      → OneFlip word (bit_xor (encode word) f) (bit_xor word (u64 (1 <<< data_bit_index (f % 128))))
  in_data parity inside =
      let at = data_lem (f % 128) (omega arith) parity inside in
      rw (data_bit_lem (data_bit_index (f % 128)) at.1).shifted (
        data_bit (data_bit_index (f % 128)),
        at.1,
        xor_cancel word (2 ^ data_bit_index (f % 128)),
        own_code (data_bit_index (f % 128)) at.1 at.0,
      )
    where
      own_code :
          (i : ℕ)
          → i < 64
          → position i ≡ f % 128
          → encode (bit_xor word (2 ^ i)) ≡ bit_xor (encode word) f
      own_code i h e = sym (
          (verify-clean_iff (bit_xor word (2 ^ i)) (bit_xor (encode word) f)
              (xor-lt 8 (encode word) f (encode_parts word).2 small)).0
            (verify-error word (2 ^ i) f
              ∙ rw (e, xor_self (f % 128))
                  (judge_no_error (bit_xor word (2 ^ i)) (count_ones 64 (2 ^ i) + count_ones 32 f)
                    (omega (arith, (data_bit_lem i h).odd)))))

  one_flip :
      (fixed : ℕ)
      → verify word (bit_xor (encode word) f) ≡ corrected fixed
      → OneFlip word (bit_xor (encode word) f) fixed
  one_flip fixed seen =
      let (_, found) = judge_corrected word (f % 128) _ fixed (sym (code_error word f) ∙ seen) in
      elim found [
        | inl (parity, same) ↦ rw same (in_code parity)
        | inr (parity, inside, same) ↦ rw same (in_data parity inside)
      ]

-- Whenever `verify` answers `corrected`, some single flip among the 72 bits turns the answer and
-- its own code into the word and the byte at hand.
pub verify-eq-corrected :
    (word code fixed : ℕ)
    → code < 256
    → verify word code ≡ corrected fixed
    → (x : Flip) × IsFlip x × (hit_word x fixed ≡ word) × (hit_code x (encode fixed) ≡ code)
verify-eq-corrected word code fixed small seen =
    subst (λ c. OneFlip word c fixed) code_again
      (one_flip word f (xor-lt 8 (encode word) code (encode_parts word).2 small) odd fixed
        (ap (verify word) code_again ∙ seen))
  where
    f : ℕ
    f = bit_xor (encode word) code

    code_again : bit_xor (encode word) f ≡ code
    code_again =
        sym (xor_assoc (encode word) (encode word) code)
        ∙ ap (λ (t : ℕ). bit_xor t code) (xor_self (encode word))
        ∙ zero-xor code

    odd : count_ones 32 f % 2 ≡ 1
    odd = omega (
      arith,
      count_nothing,
      (judge_corrected word (f % 128) (count_ones 64 0 + count_ones 32 f) fixed
          (sym (code_error word f) ∙ ap (verify word) code_again ∙ seen)).0,
    )
