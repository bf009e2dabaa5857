-- ===== src/Scrubber/Fallback.antt =====
-- patches/0009-rustlux-soft-ecc.patch: the core in C, for a kernel without Rust. hweight64 and
-- hweight8 are the kernel's.
use native.Mathlib.Nat.{pow-le-pow_right}
use linux_rustlux.Base.{
  ℕ, zero, suc, ◌+◌, ◌-◌, ◌^◌, ◌<◌, bit_and, bit_or, bit_xor, Bool, not, ◌&&◌, ltb, ◌==◌,
  if◌then◌else◌, u8, u64, ◌<<<◌, ◌>>>◌, wrapping_sub32, pos, negsuc, ◌≡◌, refl, ap, sym, ◌∙◌, arith,
}
use linux_rustlux.Bits.Count.{count_ones, count_ones_wide}
use linux_rustlux.Bits.And.{and-one}
use linux_rustlux.Bits.Xor.{xor-lt}
use linux_rustlux.SoftEcc.Secded.{Flip, data_bit, code_bit, IsFlip, hit_word, hit_code}
use linux_rustlux.InTree.Ecc.{
  SeccResult, secc_is_parity_pos, secc_syndrome_loop, secc_data_syndrome, secc_encode,
  secc_index_loop, secc_judge, secc_verify,
}
use linux_rustlux.Scrubber.{SeccCore}
use linux_rustlux.Scrubber.Core.{IsSecded}
use linux_rustlux.Scrubber.RustCore.{rust_core-IsSecded}

pub record Hweight : Type 0 where
  pub hweight64 : ℕ → ℕ
  pub hweight8 : ℕ → ℕ

-- They count the ones of the low 64 and of the low 8 bits.
pub record IsHweight (h : Hweight) : Type 0 where
  pub ones64 : (x : ℕ) → h.hweight64 x ≡ count_ones 64 x
  pub ones8 : (x : ℕ) → h.hweight8 x ≡ count_ones 8 x

abbrev pub fallback_positions : ℕ
fallback_positions = 71

unfoldable pub fallback_is_parity_pos : ℕ → Bool
fallback_is_parity_pos p = bit_and p (wrapping_sub32 p 1) == 0

-- `for (pos = 1; pos <= SECC_POSITIONS; pos++)`, at `p` with `left` rounds to go.
unfoldable pub fallback_syndrome_loop : ℕ → ℕ → ℕ → ℕ → ℕ → ℕ
unfolding fallback_is_parity_pos
fallback_syndrome_loop zero p bit syn word = syn
fallback_syndrome_loop (suc left) p bit syn word =
    let skip = fallback_is_parity_pos p in
    let one = not (bit_and (word >>> bit) 1 == 0) in
    fallback_syndrome_loop left (p + 1) (if skip then bit else bit + 1)
      (if skip then syn else if one then bit_xor syn p else syn) word

unfoldable pub fallback_data_syndrome : ℕ → ℕ
unfolding fallback_syndrome_loop
fallback_data_syndrome word = fallback_syndrome_loop fallback_positions 1 0 0 word

-- `for (pos = 1; pos < syn; pos++)`
unfoldable pub fallback_index_loop : ℕ → ℕ → ℕ → ℕ
unfolding fallback_is_parity_pos
fallback_index_loop zero p bit = bit
fallback_index_loop (suc left) p bit =
    fallback_index_loop left (p + 1) (if not (fallback_is_parity_pos p) then bit + 1 else bit)

-- The returns after the syndrome and the parity, in their order.
unfoldable pub fallback_judge : ℕ → ℕ → Bool → SeccResult
unfolding fallback_is_parity_pos fallback_index_loop
fallback_judge word syn parity_ok =
    if syn == 0 && parity_ok
    then record { status = pos 0; data_word = word }
    else if syn == 0 && not parity_ok
    then record { status = pos 1; data_word = word }
    else if not (syn == 0) && parity_ok
    then record { status = negsuc 0; data_word = word }
    else if ltb fallback_positions syn
    then record { status = negsuc 0; data_word = word }
    else if fallback_is_parity_pos syn
    then record { status = pos 1; data_word = word }
    else record {
      status = pos 1;
      data_word = bit_xor word (u64 (1 <<< fallback_index_loop (syn - 1) 1 0));
    }

module _ (h : Hweight) where
  unfoldable pub fallback_encode : ℕ → ℕ
  fallback_encode word =
      let code = u8 (bit_and (fallback_data_syndrome word) 0x7f) in
      if not (bit_and (h.hweight64 word + h.hweight8 code) 1 == 0) then bit_or code 0x80 else code

  unfoldable pub fallback_verify : ℕ → ℕ → SeccResult
  fallback_verify word code =
      fallback_judge word (bit_xor (fallback_data_syndrome word) (bit_and code 0x7f))
        (not (not (bit_and (h.hweight64 word + h.hweight8 code) 1 == 0)))

  abbrev pub fallback_core : SeccCore
  fallback_core = record { encode = fallback_encode; verify = fallback_verify }

-- A lowest bit that is not 0 is 1.
lowest_bit : (n : ℕ) → not (bit_and n 1 == 0) ≡ (bit_and n 1 == 1)
lowest_bit n = ground (arith, and-one n)

syndrome_loop-same :
    (left p bit syn word : ℕ)
    → fallback_syndrome_loop left p bit syn word ≡ secc_syndrome_loop left p bit syn word
unfolding secc_syndrome_loop secc_is_parity_pos fallback_syndrome_loop
syndrome_loop-same zero p bit syn word = refl
syndrome_loop-same (suc left) p bit syn word =
    let skip = fallback_is_parity_pos p in
    let bit' = if skip then bit else bit + 1 in
    ap
      (λ (one : Bool).
        fallback_syndrome_loop left (p + 1) bit'
          (if skip then syn else if one then bit_xor syn p else syn) word)
      (lowest_bit (word >>> bit))
    ∙ syndrome_loop-same left (p + 1) bit' _ word

index_loop-same : (left p bit : ℕ) → fallback_index_loop left p bit ≡ secc_index_loop left p bit
unfolding fallback_index_loop secc_index_loop secc_is_parity_pos
index_loop-same zero p bit = refl
index_loop-same (suc left) p bit = index_loop-same left (p + 1) _

judge-same :
    (word syn : ℕ) (parity_ok : Bool)
    → fallback_judge word syn parity_ok ≡ secc_judge word syn parity_ok
unfolding fallback_judge secc_judge secc_is_parity_pos
judge-same word syn parity_ok = ground (arith, index_loop-same (syn - 1) 1 0)

data_syndrome-same : (word : ℕ) → fallback_data_syndrome word ≡ secc_data_syndrome word
unfolding fallback_data_syndrome secc_data_syndrome
data_syndrome-same word = syndrome_loop-same 71 1 0 0 word

hit_code-byte : (x : Flip) (code : ℕ) → IsFlip x → code < 2 ^ 8 → hit_code x code < 2 ^ 8
hit_code-byte (data_bit i) code flip small = small
hit_code-byte (code_bit b) code flip small =
    xor-lt 8 code (2 ^ b) small
      (omega (arith, pow-le-pow_right {n = 2} (omega arith) {i = b} {j = 7} (omega arith)))

module _ (h : Hweight) (laws : IsHweight h) where
  ones-same :
      (word code : ℕ)
      → code < 2 ^ 8
      → h.hweight64 word + h.hweight8 code ≡ count_ones 64 word + count_ones 32 code
  ones-same word code small =
      omega
        (arith, laws.ones64 word, laws.ones8 code, count_ones_wide 32 8 code (omega arith) small)

  encode-same : (word : ℕ) → fallback_encode h word ≡ secc_encode word
  unfolding fallback_encode secc_encode
  encode-same word =
      let code = u8 (bit_and (secc_data_syndrome word) 0x7f) in
      rw (data_syndrome-same word) (
        ground (
          arith,
          ones-same word code (omega arith),
          lowest_bit (count_ones 64 word + count_ones 32 code),
        ))

  verify-same : (word code : ℕ) → code < 2 ^ 8 → fallback_verify h word code ≡ secc_verify word code
  unfolding fallback_verify secc_verify
  verify-same word code small =
      rw (data_syndrome-same word, ones-same word code small)
        (judge-same word _ _ ∙ ap (secc_judge word _) (ground arith))

  -- The soft-ECC core in C, with functions that count the ones of 64 and 8 bits, answers as the
  -- one in Rust, for every word and every byte.
  pub fallback_core-same :
      (word code : ℕ)
      → code < 2 ^ 8
      → (fallback_encode h word ≡ secc_encode word)
        × (fallback_verify h word code ≡ secc_verify word code)
  fallback_core-same word code small = (encode-same word, verify-same word code small)

  -- So the scrubber may run with either.
  pub fallback_core-IsSecded : IsSecded (fallback_core h)
  fallback_core-IsSecded = record {
    byte = λ word. rw (encode-same word) (rust_core-IsSecded.byte word);
    clean = λ word.
        rw (encode-same word, verify-same word (secc_encode word) (rust_core-IsSecded.byte word))
          (rust_core-IsSecded.clean word);
    clean_only = λ word code small e.
        rw (encode-same word) (
          rust_core-IsSecded.clean_only word code small (rw (sym (verify-same word code small)) e));
    statuses = λ word code small.
        rw (verify-same word code small) (rust_core-IsSecded.statuses word code small);
    one_flip = λ word x flip.
        rw
          (
            encode-same word,
            verify-same (hit_word x word) (hit_code x (secc_encode word))
                (hit_code-byte x (secc_encode word) flip (rust_core-IsSecded.byte word)),
          )
          (rust_core-IsSecded.one_flip word x flip);
    two_flips = λ word x y flip flip' ne.
        rw
          (
            encode-same word,
            verify-same (hit_word y (hit_word x word)) (hit_code y (hit_code x (secc_encode word)))
                (hit_code-byte y (hit_code x (secc_encode word)) flip'
                  (hit_code-byte x (secc_encode word) flip (rust_core-IsSecded.byte word))),
          )
          (rust_core-IsSecded.two_flips word x y flip flip' ne);
  }
