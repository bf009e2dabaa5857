-- ===== src/Scrubber/Flips.antt =====
-- patches/0009-rustlux-soft-ecc.patch: a pass over a region whose words have lost bits.
use linux_rustlux.Base.{
  ℕ, ◌+◌, ◌^◌, ◌≤◌, ◌<◌, Bool, true, bit_of, ◌≡◌, ◌≢◌, ◌∙◌, Option, none, some, negsuc, u64, arith,
}
use linux_rustlux.Base.Cells.{
  weigh, AllBelow, AllBelow-of, AllBelow-at, weigh_congr, weigh-none, weigh-le, le-weigh,
}
use linux_rustlux.SoftEcc.Secded.{Flip, IsFlip, hit_word, hit_code}
use linux_rustlux.Scrubber.{SeccCore, Region, Machine, scrub_region}
use linux_rustlux.Scrubber.Core.{IsSecded}
use linux_rustlux.Scrubber.Regions.{
  is_corrected, is_lost, word_after, code_after, status_at, IsCounting, scrub_region-After,
}
use linux_rustlux.Scrubber.Repair.{settled_code, settled_word}

bit_of-le : (b : Bool) → bit_of b ≤ 1
bit_of-le b = ground arith

-- One flip among the 72 bits of a word and its code, or none.
abbrev pub IsStrike : Option Flip → Type 0
IsStrike none = Unit
IsStrike (some x) = IsFlip x

abbrev pub struck_word : Option Flip → ℕ → ℕ
struck_word none word = word
struck_word (some x) word = hit_word x word

abbrev pub struck_code : Option Flip → ℕ → ℕ
struck_code none code = code
struck_code (some x) code = hit_code x code

abbrev pub strikes : Option Flip → ℕ
strikes none = 0
strikes (some x) = 1

module _ (core : SeccCore) (laws : IsSecded core) where
  -- What a region holds if its sealed words were `cells` and each has since been struck by at
  -- most one flip.
  abbrev pub IsStruck : (ℕ → ℕ) → (ℕ → Option Flip) → Region → Machine → Type 0
  IsStruck cells hits r m =
      AllBelow
        (λ j.
          IsStrike (hits j)
          × (m.cells (r.addr + j) ≡ struck_word (hits j) (cells (r.addr + j)))
          × (r.codes j ≡ struck_code (hits j) (core.encode (cells (r.addr + j)))))
        r.words

  -- A struck word and its code are put right.
  record PutRight (word : ℕ) (hit : Option Flip) (found code : ℕ) : Type 0 where
    word_is : word_after core found code ≡ word
    code_is : code_after core found code ≡ core.encode word
    counted : bit_of (is_corrected (core.verify found code).status) ≡ strikes hit
    none_lost : bit_of (is_lost (core.verify found code).status) ≡ 0

  struck-PutRight :
      (word : ℕ) (hit : Option Flip)
      → IsStrike hit
      → PutRight word hit (struck_word hit word) (struck_code hit (core.encode word))
  struck-PutRight word none h = ground (arith, laws.clean word)
  struck-PutRight word (some x) h = ground (arith, laws.one_flip word x h)

  module _ (cells : ℕ → ℕ) (hits : ℕ → Option Flip) (r : Region) (m : Machine) (fits : IsCounting m)
      (struck : IsStruck cells hits r m) where
    right_at :
        (j : ℕ)
        → j < r.words
        → PutRight (cells (r.addr + j)) (hits j) (m.cells (r.addr + j)) (r.codes j)
    right_at j lt =
        let (h, w, c) = AllBelow-at _ r.words j lt struck in
        rw (w, c) (struck-PutRight (cells (r.addr + j)) (hits j) h)

    -- With a core that meets IsSecded and counters that fit in 64 bits, a pass over a region
    -- whose sealed words, each with its code, have since been struck by at most one flip puts
    -- all words and codes right, counts one correction for each flip, and counts nothing as
    -- lost.
    pub scrub_region-struck :
        let t = scrub_region core r m in
        AllBelow
          (λ j.
            (t.1.cells (r.addr + j) ≡ cells (r.addr + j))
            × (t.0.codes j ≡ core.encode (cells (r.addr + j))))
          r.words
        × (t.1.corrected ≡ u64 (m.corrected + weigh strikes r.words hits))
        × (t.1.uncorrectable ≡ m.uncorrectable)
        × (t.1.tainted ≡ m.tainted)
    scrub_region-struck =
        let done = scrub_region-After core r m fits in
        let corrected =
          weigh_congr (λ st. bit_of (is_corrected st)) strikes r.words (status_at core r m) hits
            (AllBelow-of _ r.words λ j lt. (right_at j lt).counted) in
        let lost =
          weigh-none (λ st. bit_of (is_lost st)) r.words (status_at core r m)
            (AllBelow-of _ r.words λ j lt. (right_at j lt).none_lost) in
        (
          AllBelow-of _ r.words λ j lt. (
            settled_word core laws r m fits j lt ∙ (right_at j lt).word_is,
            settled_code core laws r m fits j lt ∙ (right_at j lt).code_is,
          ),
          ground (arith, done.corrected, corrected),
          ground (arith, done.uncorrectable, lost, fits),
          ground (arith, done.tainted, lost),
        )

  -- With a core that meets IsSecded, where the counters fit in 64 bits and the one for lost
  -- words does not wrap, a word that has been struck, with its code, by two different flips is
  -- left as it is, sealed anew and counted as uncorrectable, and the kernel is tainted.
  pub scrub_region-lost :
      (r : Region) (m : Machine) (word j : ℕ) (x y : Flip)
      → IsCounting m
      → m.uncorrectable + r.words < 2 ^ 64
      → j < r.words
      → IsFlip x
      → IsFlip y
      → x ≢ y
      → m.cells (r.addr + j) ≡ hit_word y (hit_word x word)
      → r.codes j ≡ hit_code y (hit_code x (core.encode word))
      → let t = scrub_region core r m in
        (t.1.cells (r.addr + j) ≡ m.cells (r.addr + j))
        × (t.0.codes j ≡ core.encode (m.cells (r.addr + j)))
        × (m.uncorrectable < t.1.uncorrectable)
        × (t.1.tainted ≡ true)
  scrub_region-lost r m word j x y fits room lt hx hy ne found code =
      let done = scrub_region-After core r m fits in
      let status : (core.verify (m.cells (r.addr + j)) (r.codes j)).status ≡ negsuc 0 =
        rw (found, code) (laws.two_flips word x y hx hy ne) in
      let one = le-weigh (λ st. bit_of (is_lost st)) r.words (status_at core r m) j lt in
      let most =
        weigh-le (λ st. bit_of (is_lost st)) r.words (status_at core r m)
          (AllBelow-of _ r.words λ k _. bit_of-le (is_lost (status_at core r m k))) in
      (
        settled_word core laws r m fits j lt ∙ ground (arith, status),
        settled_code core laws r m fits j lt ∙ ground (arith, status),
        ground (arith, done.uncorrectable, status, one, most),
        ground (arith, done.tainted, status, one),
      )
