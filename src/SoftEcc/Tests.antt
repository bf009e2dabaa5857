-- ===== src/SoftEcc/Tests.antt =====
-- rust/rustlux_mm/src/soft_ecc.rs: the theorems at concrete words.
use linux_rustlux.Base.{ℕ, bit_xor, ◌≡◌, ◌↔◌, refl, arith}
use linux_rustlux.Bits.Count.{count_ones}
use linux_rustlux.SoftEcc.{
  ScrubOutcome, clean, corrected, uncorrectable, is_parity_pos, toggle, syndrome_loop,
  data_syndrome, index_loop, data_bit_index, encode, verify, judge,
}
use linux_rustlux.SoftEcc.Linear.{encode_parts}
use linux_rustlux.SoftEcc.Correct.{verify-clean_iff}
use linux_rustlux.SoftEcc.Secded.{
  Flip, data_bit, code_bit, IsFlip, hit_word, hit_code, verify-one_flip, verify-two_flips,
}
use linux_rustlux.SoftEcc.Sound.{verify-eq-corrected}

-- A word like a page table entry, and the word and byte of the tests.
abbrev pte : ℕ
pte = 0x8000_0000_1234_5067

abbrev beef : ℕ
beef = 0xdead_beef_cafe_babe

-- Names what a run of the code computes with.
run : ℕ → ℕ → ScrubOutcome
unfolding verify encode judge data_syndrome data_bit_index syndrome_loop index_loop toggle
    is_parity_pos count_ones
run = verify

rowhammer_scenario : verify (bit_xor pte 2) (encode pte) ≡ corrected pte
unfolding run
rowhammer_scenario = refl

verify-one_flip_example :
    verify (hit_word (data_bit 1) pte) (hit_code (data_bit 1) (encode pte)) ≡ corrected pte
verify-one_flip_example = verify-one_flip pte (data_bit 1) (omega arith)

verify-two_flips_example :
    verify
      (hit_word (code_bit 2) (hit_word (data_bit 10) beef))
      (hit_code (code_bit 2) (hit_code (data_bit 10) (encode beef)))
    ≡ uncorrectable
verify-two_flips_example =
    verify-two_flips beef (data_bit 10) (code_bit 2) (omega arith) (omega arith) (λ e. cc)

verify-clean_iff_example : (verify beef 5 ≡ clean) ↔ (5 ≡ encode beef)
verify-clean_iff_example = verify-clean_iff beef 5 (omega arith)

verify-eq-corrected_example :
    (x : Flip) × IsFlip x
    × (hit_word x pte ≡ bit_xor pte 2)
    × (hit_code x (encode pte) ≡ encode pte)
verify-eq-corrected_example =
    verify-eq-corrected (bit_xor pte 2) (encode pte) pte (encode_parts pte).2 rowhammer_scenario
