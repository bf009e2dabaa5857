-- ===== src/SoftEcc/Secded.antt =====
-- rust/rustlux_mm/src/soft_ecc.rs: single error correction and double error detection, over
-- every word and every place where a bit of the word or of its code can flip.
use linux_rustlux.Base.{ℕ, ◌^◌, ◌<◌, bit_xor, ◌≡◌, ap, ◌∙◌, ◌≢◌, pos, negsuc}
use linux_rustlux.Bits.Xor.{xor_assoc}
use linux_rustlux.SoftEcc.{
  corrected, uncorrectable, encode, verify, to_result, softecc_encode, softecc_verify,
}
use linux_rustlux.SoftEcc.Correct.{
  data_flip, code_flip, two_data_flips, data_and_code_flip, two_code_flips,
}

-- One flipped bit of the 72 that are stored.
pub data Flip : Type 0 where
  data_bit : ℕ → Flip
  code_bit : ℕ → Flip

abbrev pub IsFlip : Flip → Type 0
IsFlip (data_bit i) = i < 64
IsFlip (code_bit b) = b < 8

abbrev pub hit_word : Flip → ℕ → ℕ
hit_word (data_bit i) word = bit_xor word (2 ^ i)
hit_word (code_bit b) word = word

abbrev pub hit_code : Flip → ℕ → ℕ
hit_code (data_bit i) code = code
hit_code (code_bit b) code = bit_xor code (2 ^ b)

-- If any one of the 64 data bits or the 8 code bits has flipped since `encode`, `verify` answers
-- `corrected` with the word that was encoded.
pub verify-one_flip :
    (word : ℕ) (x : Flip)
    → IsFlip x
    → verify (hit_word x word) (hit_code x (encode word)) ≡ corrected word
verify-one_flip word (data_bit i) h = data_flip word i h
verify-one_flip word (code_bit b) h = code_flip word b h

-- If any two different bits of the 72 have flipped since `encode`, `verify` answers
-- `uncorrectable`.
pub verify-two_flips :
    (word : ℕ) (x y : Flip)
    → IsFlip x
    → IsFlip y
    → x ≢ y
    → verify (hit_word y (hit_word x word)) (hit_code y (hit_code x (encode word))) ≡ uncorrectable
verify-two_flips word (data_bit i) (data_bit j) hi hj ne =
    ap (λ (t : ℕ). verify t (encode word)) (xor_assoc word (2 ^ i) (2 ^ j))
    ∙ two_data_flips word i j hi hj (λ e. ne (ap data_bit e))
verify-two_flips word (data_bit i) (code_bit b) hi hb ne = data_and_code_flip word i b hi hb
verify-two_flips word (code_bit b) (data_bit i) hb hi ne = data_and_code_flip word i b hi hb
verify-two_flips word (code_bit a) (code_bit b) ha hb ne =
    ap (verify word) (xor_assoc (encode word) (2 ^ a) (2 ^ b))
    ∙ two_code_flips word a b ha hb (λ e. ne (ap code_bit e))

-- Through the FFI entry points one flip is reported as status 1 with the encoded word, and two
-- different flips as status -1 with the word as it was handed over.
softecc_verify_flips :
    (word : ℕ) (x y : Flip)
    → IsFlip x
    → IsFlip y
    → x ≢ y
    → (softecc_verify (hit_word x word) (hit_code x (softecc_encode word))
        ≡ record { status = pos 1; data_word = word })
      × (softecc_verify
            (hit_word y (hit_word x word))
            (hit_code y (hit_code x (softecc_encode word)))
          ≡ record { status = negsuc 0; data_word = hit_word y (hit_word x word) })
unfolding softecc_verify softecc_encode to_result
softecc_verify_flips word x y hx hy ne = (
  ap (to_result (hit_word x word)) (verify-one_flip word x hx),
  ap (to_result (hit_word y (hit_word x word))) (verify-two_flips word x y hx hy ne),
)
