-- ===== src/SoftEcc/UnitTests.antt =====
-- rust/rustlux_mm/src/soft_ecc.rs: the unit tests of that file. A test is what its assertions
-- check; a loop checks its body at each round.
use linux_rustlux.Base.{
  ℕ, ◌^◌, ◌<◌, bit_xor, ◌<<<◌, ◌≡◌, refl, subst, List, [], ◌∷◌, pos, negsuc, arith,
}
use linux_rustlux.Base.Cells.{AllBelow, AllBelow-of}
use linux_rustlux.Bits.Count.{count_ones}
use linux_rustlux.SoftEcc.{
  is_parity_pos, toggle, syndrome_loop, data_syndrome, index_loop, data_bit_index, judge, to_result,
  ScrubOutcome, clean, corrected, uncorrectable, encode, verify, softecc_encode, softecc_verify,
}
use linux_rustlux.SoftEcc.Linear.{encode_parts}
use linux_rustlux.SoftEcc.Correct.{verify-clean_iff, two_data_flips}
use linux_rustlux.SoftEcc.Secded.{data_bit, code_bit, verify-one_flip, verify-two_flips}

abbrev samples : List ℕ
samples =
    0 ∷ 0xffff_ffff_ffff_ffff ∷ 0xaa55_aa55_aa55_aa55 ∷ 0xdead_beef_cafe_babe ∷ 1
    ∷ 0x8000_0000_0000_0000 ∷ 0x0123_4567_89ab_cdef ∷ 0xffff_0000_ffff_0000 ∷ []

-- `for &d in &SAMPLES`
abbrev AllSamples : (ℕ → Type 0) → List ℕ → Type 0
AllSamples P [] = Unit
AllSamples P (d ∷ ds) = P d × AllSamples P ds

AllSamples-of : (P : ℕ → Type 0) → ((d : ℕ) → P d) → (ds : List ℕ) → AllSamples P ds
AllSamples-of P f [] = tt
AllSamples-of P f (d ∷ ds) = (f d, AllSamples-of P f ds)

abbrev CleanRoundtrip : Type 0
CleanRoundtrip = AllSamples (λ d. verify d (encode d) ≡ clean) samples

abbrev EveryDataBitFlipIsCorrected : Type 0
EveryDataBitFlipIsCorrected =
    AllSamples
      (λ d.
        let code = encode d in
        AllBelow (λ bit. verify (bit_xor d (1 <<< bit)) code ≡ corrected d) 64)
      samples

abbrev EveryCodeBitFlipLeavesDataIntact : Type 0
EveryCodeBitFlipLeavesDataIntact =
    AllSamples
      (λ d.
        let code = encode d in
        AllBelow (λ bit. verify d (bit_xor code (1 <<< bit)) ≡ corrected d) 8)
      samples

abbrev DoubleDataFlipIsUncorrectable : Type 0
DoubleDataFlipIsUncorrectable =
    AllSamples
      (λ d.
        let code = encode d in
        (verify (bit_xor d 3) code ≡ uncorrectable)
        × (verify (bit_xor (bit_xor d (1 <<< 3)) (1 <<< 40)) code ≡ uncorrectable))
      samples

abbrev DataPlusCodeDoubleFlipIsUncorrectable : Type 0
DataPlusCodeDoubleFlipIsUncorrectable =
    let d : ℕ = 0xdead_beef_cafe_babe in
    let code = encode d in verify (bit_xor d (1 <<< 10)) (bit_xor code 4) ≡ uncorrectable

abbrev RowhammerScenarioPageTableBit : Type 0
RowhammerScenarioPageTableBit =
    let pte : ℕ = 0x8000_0000_1234_5067 in
    let code = encode pte in
    let hammered = bit_xor pte (1 <<< 1) in verify hammered code ≡ corrected pte

abbrev FfiStatusCodes : Type 0
FfiStatusCodes =
    let d : ℕ = 0xaa55_aa55_aa55_aa55 in
    let code = softecc_encode d in
    let fixed = softecc_verify (bit_xor d (1 <<< 17)) code in
    ((softecc_verify d code).status ≡ pos 0)
    × (fixed.status ≡ pos 1)
    × (fixed.data_word ≡ d)
    × ((softecc_verify (bit_xor d 3) code).status ≡ negsuc 0)

shifted_one : (bit : ℕ) → 2 ^ bit ≡ 1 <<< bit
shifted_one bit = omega arith

one_data_flip : (d bit : ℕ) → bit < 64 → verify (bit_xor d (1 <<< bit)) (encode d) ≡ corrected d
one_data_flip d bit lt =
    subst (λ (m : ℕ). verify (bit_xor d m) (encode d) ≡ corrected d) (shifted_one bit)
      (verify-one_flip d (data_bit bit) lt)

one_code_flip : (d bit : ℕ) → bit < 8 → verify d (bit_xor (encode d) (1 <<< bit)) ≡ corrected d
one_code_flip d bit lt =
    subst (λ (m : ℕ). verify d (bit_xor (encode d) m) ≡ corrected d) (shifted_one bit)
      (verify-one_flip d (code_bit bit) lt)

two_flips :
    (d : ℕ)
    → (verify (bit_xor d 3) (encode d) ≡ uncorrectable)
      × (verify (bit_xor (bit_xor d (1 <<< 3)) (1 <<< 40)) (encode d) ≡ uncorrectable)
two_flips d = (
  two_data_flips d 0 1 (omega arith) (omega arith) (λ e. absurd (omega (arith, e))),
  verify-two_flips d (data_bit 3) (data_bit 40) (omega arith) (omega arith)
      (λ e. absurd (grind arith)),
)

-- The loops pass by the theorems about every word.
sample_tests :
    CleanRoundtrip × EveryDataBitFlipIsCorrected × EveryCodeBitFlipLeavesDataIntact
    × DoubleDataFlipIsUncorrectable
sample_tests = (
  AllSamples-of (λ d. verify d (encode d) ≡ clean)
      (λ d. (verify-clean_iff d (encode d) (encode_parts d).2).1 refl) samples,
  AllSamples-of (λ d. AllBelow (λ bit. verify (bit_xor d (1 <<< bit)) (encode d) ≡ corrected d) 64)
      (λ d. AllBelow-of _ 64 (one_data_flip d)) samples,
  AllSamples-of (λ d. AllBelow (λ bit. verify d (bit_xor (encode d) (1 <<< bit)) ≡ corrected d) 8)
      (λ d. AllBelow-of _ 8 (one_code_flip d)) samples,
  AllSamples-of
      (λ d.
        (verify (bit_xor d 3) (encode d) ≡ uncorrectable)
        × (verify (bit_xor (bit_xor d (1 <<< 3)) (1 <<< 40)) (encode d) ≡ uncorrectable))
      two_flips samples,
)

-- Names what a run of the code computes with.
run : ℕ → ℕ → ScrubOutcome
unfolding verify encode judge data_syndrome data_bit_index syndrome_loop index_loop toggle
    is_parity_pos count_ones
run = verify

word_tests : DataPlusCodeDoubleFlipIsUncorrectable × RowhammerScenarioPageTableBit × FfiStatusCodes
unfolding run softecc_verify softecc_encode to_result
word_tests = (refl, refl, (refl, refl, refl, refl))
