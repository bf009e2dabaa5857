-- ===== src/Scrubber/RustCore.antt =====
-- patches/0005-rustlux-kernel-module.patch: the Rust core meets what the scrubber relies on.
use linux_rustlux.Base.{ℕ, ◌≡◌, refl, sym, ap, ◌∙◌, pos, negsuc, ◌⊎◌, arith}
use linux_rustlux.SoftEcc.{
  ScrubOutcome, clean, corrected, uncorrectable, encode, verify, to_result, softecc_encode,
  softecc_verify,
}
use linux_rustlux.SoftEcc.Linear.{encode_parts}
use linux_rustlux.SoftEcc.Correct.{verify-clean_iff}
use linux_rustlux.SoftEcc.Secded.{hit_word, hit_code, verify-one_flip, verify-two_flips}
use linux_rustlux.InTree.Ecc.{SeccResult, secc_encode, secc_verify}
use linux_rustlux.InTree.Mirrors.{as_secc, secc_lem}
use linux_rustlux.Scrubber.{SeccCore}
use linux_rustlux.Scrubber.Core.{IsSecded}

abbrev pub rust_core : SeccCore
rust_core = record { encode = secc_encode; verify = secc_verify }

encode-same : (word : ℕ) → secc_encode word ≡ encode word
unfolding softecc_encode
encode-same word = (secc_lem word 0).0

verify-same : (word code : ℕ) → secc_verify word code ≡ as_secc (to_result word (verify word code))
unfolding softecc_verify
verify-same word code = (secc_lem word code).1

status-clean : (word : ℕ) (o : ScrubOutcome) → (to_result word o).status ≡ pos 0 → o ≡ clean
unfolding to_result
status-clean word clean e = ground arith
status-clean word (corrected fixed) e = ground arith
status-clean word uncorrectable e = ground arith

status-cases :
    (word : ℕ) (o : ScrubOutcome)
    → ((to_result word o).status ≡ pos 0)
      ⊎ ((to_result word o).status ≡ pos 1)
      ⊎ ((to_result word o).status ≡ negsuc 0)
unfolding to_result
status-cases word clean = ground arith
status-cases word (corrected fixed) = ground arith
status-cases word uncorrectable = ground arith

pub rust_core-IsSecded : IsSecded rust_core
unfolding to_result
rust_core-IsSecded = record {
  byte = λ word. rw (encode-same word) (encode_parts word).2;
  clean = λ word. rw (
    encode-same word,
    verify-same word (encode word),
    (verify-clean_iff word (encode word) (encode_parts word).2).1 refl,
  );
  clean_only = λ word code small e. rw (encode-same word) (
      (verify-clean_iff word code small).0 (
        status-clean word _ (ap (λ (r : SeccResult). r.status) (sym (verify-same word code)) ∙ e)));
  statuses = λ word code small. rw (verify-same word code) (status-cases word (verify word code));
  one_flip = λ word x h. rw (
    encode-same word,
    verify-same (hit_word x word) (hit_code x (encode word)),
    verify-one_flip word x h,
  );
  two_flips = λ word x y hx hy ne. rw (
    encode-same word,
    verify-same (hit_word y (hit_word x word)) (hit_code y (hit_code x (encode word))),
    verify-two_flips word x y hx hy ne,
  );
}
