-- ===== src/Scrubber/Repair.antt =====
-- patches/0009-rustlux-soft-ecc.patch: what a pass over a region repairs, and what it leaves.
use linux_rustlux.Base.{ℕ, zero, suc, ◌+◌, ◌<◌, ◌≡◌, refl, ◌∙◌, sym, ap, arith}
use linux_rustlux.Base.Cells.{AllBelow, AllBelow-of, AllBelow-at}
use linux_rustlux.Scrubber.{
  SeccCore, Region, Machine, settle, scrub_word, scrub_rounds, scrub_region,
}
use linux_rustlux.Scrubber.Core.{IsSecded}
use linux_rustlux.Scrubber.Regions.{word_after, code_after, IsCounting, After, scrub_region-After}

-- Each code is that of its word.
abbrev pub IsSealed : SeccCore → (ℕ → ℕ) → Region → Type 0
IsSealed core cells r = AllBelow (λ j. r.codes j ≡ core.encode (cells (r.addr + j))) r.words

module _ (core : SeccCore) (laws : IsSecded core) where
  -- A settled word is sealed.
  word-sealed :
      (word code : ℕ)
      → code < 256
      → code_after core word code ≡ core.encode (word_after core word code)
  word-sealed word code small =
      ground (arith, laws.statuses word code small, laws.clean_only word code small)

  scrub_rounds-eq :
      (r : Region) (m : Machine) (n : ℕ)
      → AllBelow (λ j. r.codes j ≡ core.encode (m.cells (r.addr + j))) n
      → scrub_rounds core n (r, m) ≡ (r, m)
  unfolding scrub_rounds scrub_word settle
  scrub_rounds-eq r m zero fit = refl
  scrub_rounds-eq r m (suc n) fit =
      rw (scrub_rounds-eq r m n fit.1, fit.0, laws.clean (m.cells (r.addr + n)))

  -- A pass over a sealed region changes nothing.
  pub scrub_region-eq :
      (r : Region) (m : Machine) → IsSealed core m.cells r → scrub_region core r m ≡ (r, m)
  unfolding scrub_region
  scrub_region-eq r m fit = scrub_rounds-eq r m r.words fit

  module _ (r : Region) (m : Machine) (fits : IsCounting m) where
    abbrev pub passed : Region × Machine
    passed = scrub_region core r m

    passed-After : After core r m r.words passed
    passed-After = scrub_region-After core r m fits

    -- What one word and its code are after the pass.
    pub settled_code :
        (j : ℕ)
        → j < r.words
        → passed.0.codes j ≡ code_after core (m.cells (r.addr + j)) (r.codes j)
    settled_code j lt = ground (arith, passed-After.codes j)

    pub settled_word :
        (j : ℕ)
        → j < r.words
        → passed.1.cells (r.addr + j) ≡ word_after core (m.cells (r.addr + j)) (r.codes j)
    settled_word j lt = ground (arith, passed-After.cells j)

    -- With a core that meets IsSecded and counters that fit in 64 bits, after a pass over a
    -- region whose codes are bytes, whatever has happened to its words, each code is that of its
    -- word.
    scrub_region-IsSealed :
        AllBelow (λ j. r.codes j < 256) r.words → IsSealed core passed.1.cells passed.0
    scrub_region-IsSealed bytes =
        rw (passed-After.addr, passed-After.words)
          (AllBelow-of _ r.words λ j lt.
            settled_code j lt
            ∙ word-sealed (m.cells (r.addr + j)) (r.codes j) (AllBelow-at _ r.words j lt bytes)
            ∙ ap core.encode (sym (settled_word j lt)))
