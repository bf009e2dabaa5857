-- ===== src/Scrubber/Regions.antt =====
-- patches/0009-rustlux-soft-ecc.patch: what a pass over one region does to each of its words.
use linux_rustlux.Base.{
  ℕ, zero, suc, ◌+◌, ◌^◌, ◌<◌, Bool, true, false, ◌==◌, ltb, ◌||◌, if◌then◌else◌, bit_of, ◌≡◌, refl,
  ◌∙◌, subst, ℤ, pos, negsuc, u64, arith,
}
use linux_rustlux.Base.Cells.{weigh}
use linux_rustlux.Scrubber.{
  SeccCore, Region, Machine, settle, scrub_word, scrub_rounds, scrub_region,
}

-- Whether a status is `RUSTLUX_SECC_CORRECTED`, and whether it is `RUSTLUX_SECC_UNCORRECTABLE`.
abbrev pub is_corrected : ℤ → Bool
is_corrected (pos zero) = false
is_corrected (pos (suc zero)) = true
is_corrected (pos (suc (suc n))) = false
is_corrected (negsuc n) = false

abbrev pub is_lost : ℤ → Bool
is_lost (pos n) = false
is_lost (negsuc zero) = true
is_lost (negsuc (suc n)) = false

-- The counters are 64-bit numbers.
pub record IsCounting (m : Machine) : Type 0 where
  pub corrected : m.corrected < 2 ^ 64
  pub uncorrectable : m.uncorrectable < 2 ^ 64

module _ (core : SeccCore) where
  abbrev pub word_after : ℕ → ℕ → ℕ
  word_after word code =
      let res = core.verify word code in if is_corrected res.status then res.data_word else word

  abbrev pub code_after : ℕ → ℕ → ℕ
  code_after word code =
      let res = core.verify word code in
      if is_corrected res.status
      then core.encode res.data_word
      else if is_lost res.status
      then core.encode word
      else code

  -- One word is settled, and nothing else changes.
  record Settled (i word good : ℕ) (status : ℤ) (r : Region) (m : Machine) (t : Region × Machine)
      : Type 0 where
    addr : t.0.addr ≡ r.addr
    words : t.0.words ≡ r.words
    codes :
        (j : ℕ)
        → t.0.codes j ≡ (
            if i == j
            then if is_corrected status
              then core.encode good
              else if is_lost status
              then core.encode word
              else r.codes j
            else r.codes j)
    cells :
        (a : ℕ)
        → t.1.cells a
          ≡ (if r.addr + i == a then if is_corrected status then good else m.cells a else m.cells a)
    corrected : t.1.corrected ≡ (if is_corrected status then u64 (m.corrected + 1) else m.corrected)
    uncorrectable :
        t.1.uncorrectable ≡ (if is_lost status then u64 (m.uncorrectable + 1) else m.uncorrectable)
    tainted : t.1.tainted ≡ (m.tainted || is_lost status)

  settle-Settled :
      (i word good : ℕ) (status : ℤ) (r : Region) (m : Machine)
      → Settled i word good status r m (settle core r i word m status good)
  unfolding settle
  settle-Settled i word good status r m = record {
    addr = ground arith;
    words = ground arith;
    codes = λ j. ground arith;
    cells = λ a. ground arith;
    corrected = ground arith;
    uncorrectable = ground arith;
    tainted = ground arith;
  }

  scrub_word-Settled :
      (n word code : ℕ) (t : Region × Machine)
      → t.1.cells (t.0.addr + n) ≡ word
      → t.0.codes n ≡ code
      → Settled n word
          (core.verify word code).data_word
          (core.verify word code).status
          t.0
          t.1
          (scrub_word core n t)
  unfolding scrub_word
  scrub_word-Settled n word code t e f =
      subst
        (λ (c : ℕ).
          Settled n word (core.verify word c).data_word (core.verify word c).status t.0 t.1
            (scrub_word core n t))
        f
        (subst
          (λ (w : ℕ).
            Settled n w (core.verify w (t.0.codes n)).data_word (core.verify w (t.0.codes n)).status
              t.0 t.1 (scrub_word core n t))
          e (settle-Settled n _ _ _ t.0 t.1))

  module _ (r : Region) (m : Machine) where
    -- The status that word `j` has before the pass.
    abbrev pub status_at : ℕ → ℤ
    status_at j = (core.verify (m.cells (r.addr + j)) (r.codes j)).status

    abbrev pub corrections : ℕ → ℕ
    corrections n = weigh (λ st. bit_of (is_corrected st)) n status_at

    abbrev pub losses : ℕ → ℕ
    losses n = weigh (λ st. bit_of (is_lost st)) n status_at

    -- After the rounds below `n`: the words below `n` are settled by what they were before, and
    -- the memory outside is as it was.
    pub record After (n : ℕ) (t : Region × Machine) : Type 0 where
      pub addr : t.0.addr ≡ r.addr
      pub words : t.0.words ≡ r.words
      pub codes :
          (j : ℕ)
          → t.0.codes j
            ≡ (if ltb j n then code_after (m.cells (r.addr + j)) (r.codes j) else r.codes j)
      pub cells :
          (j : ℕ)
          → t.1.cells (r.addr + j) ≡ (
              if ltb j n
              then word_after (m.cells (r.addr + j)) (r.codes j)
              else m.cells (r.addr + j))
      pub before : (a : ℕ) → a < r.addr → t.1.cells a ≡ m.cells a
      pub corrected : t.1.corrected ≡ u64 (m.corrected + corrections n)
      pub uncorrectable : t.1.uncorrectable ≡ u64 (m.uncorrectable + losses n)
      pub tainted : t.1.tainted ≡ (m.tainted || ltb 0 (losses n))

    -- One round.
    scrub_word-After :
        (n : ℕ) (t : Region × Machine) → After n t → After (suc n) (scrub_word core n t)
    unfolding weigh
    scrub_word-After n t h =
        let word = m.cells (r.addr + n) in
        let d =
          scrub_word-Settled n word (r.codes n) t (rw h.addr (ground (arith, h.cells n)))
            (ground (arith, h.codes n)) in
        record {
          addr = d.addr ∙ h.addr;
          words = d.words ∙ h.words;
          codes = λ j. ground (arith, d.codes j, h.codes j);
          cells = λ j. ground (arith, d.cells (r.addr + j), h.cells j, h.addr);
          before = λ a lt. ground (arith, d.cells a, h.before a lt, h.addr);
          corrected = ground (arith, d.corrected, h.corrected);
          uncorrectable = ground (arith, d.uncorrectable, h.uncorrectable);
          tainted = ground (arith, d.tainted, h.tainted);
        }

    scrub_rounds-After : IsCounting m → (n : ℕ) → After n (scrub_rounds core n (r, m))
    unfolding scrub_rounds weigh
    scrub_rounds-After fits zero = record {
      addr = refl;
      words = refl;
      codes = λ j. ground arith;
      cells = λ j. ground arith;
      before = λ a lt. refl;
      corrected = ground (arith, fits);
      uncorrectable = ground (arith, fits);
      tainted = ground arith;
    }
    scrub_rounds-After fits (suc n) = scrub_word-After n _ (scrub_rounds-After fits n)

    -- The whole pass.
    pub scrub_region-After : IsCounting m → After r.words (scrub_region core r m)
    unfolding scrub_region
    scrub_region-After fits = scrub_rounds-After fits r.words
