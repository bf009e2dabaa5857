-- ===== src/Scrubber/Core.antt =====
-- patches/0009-rustlux-soft-ecc.patch: what the scrubber relies on of the core that encodes and
-- verifies one word.
use linux_rustlux.Base.{ℕ, ◌<◌, ◌≡◌, ◌≢◌, pos, negsuc, ◌⊎◌}
use linux_rustlux.SoftEcc.Secded.{Flip, IsFlip, hit_word, hit_code}
use linux_rustlux.Scrubber.{SeccCore}

-- The status of a word with a byte is one of three, and clean only if the byte is the word's code;
-- a word with its own code is clean, one flip among the 72 bits is corrected, and two are reported.
pub record IsSecded (core : SeccCore) : Type 0 where
  pub byte : (word : ℕ) → core.encode word < 256
  pub clean :
      (word : ℕ) → core.verify word (core.encode word) ≡ record { status = pos 0; data_word = word }
  pub clean_only :
      (word code : ℕ)
      → code < 256
      → (core.verify word code).status ≡ pos 0
      → code ≡ core.encode word
  pub statuses :
      (word code : ℕ)
      → code < 256
      → ((core.verify word code).status ≡ pos 0)
        ⊎ ((core.verify word code).status ≡ pos 1)
        ⊎ ((core.verify word code).status ≡ negsuc 0)
  pub one_flip :
      (word : ℕ) (x : Flip)
      → IsFlip x
      → core.verify (hit_word x word) (hit_code x (core.encode word))
        ≡ record { status = pos 1; data_word = word }
  pub two_flips :
      (word : ℕ) (x y : Flip)
      → IsFlip x
      → IsFlip y
      → x ≢ y
      → (core.verify
          (hit_word y (hit_word x word))
          (hit_code y (hit_code x (core.encode word)))).status
        ≡ negsuc 0
