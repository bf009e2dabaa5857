-- ===== src/Scrubber/Passes.antt =====
-- patches/0009-rustlux-soft-ecc.patch: `softecc_scrub_fn`, a pass over all regions, where no two
-- share a word.
use linux_rustlux.Base.{
  ℕ, ◌+◌, ◌-◌, ◌≤◌, ◌<◌, ◌≡◌, ◌⊎◌, inl, inr, refl, ◌∙◌, subst, Option, List, [], ◌∷◌, arith,
}
use linux_rustlux.Base.Cells.{AllBelow, AllBelow-of, AllBelow-at}
use linux_rustlux.SoftEcc.Secded.{Flip}
use linux_rustlux.Scrubber.{SeccCore, Region, Machine, scrub_region, scrub_regions}
use linux_rustlux.Scrubber.Core.{IsSecded}
use linux_rustlux.Scrubber.Regions.{IsCounting, scrub_region-After}
use linux_rustlux.Scrubber.Flips.{IsStruck, scrub_region-struck}

abbrev pub AllRegions : (Region → Type 0) → List Region → Type 0
AllRegions P [] = Unit
AllRegions P (r ∷ rs) = P r × AllRegions P rs

zip_regions :
    {P Q R : Region → Type 0}
    → ((r : Region) → P r → Q r → R r)
    → (rs : List Region) → AllRegions P rs
    → AllRegions Q rs
    → AllRegions R rs
zip_regions f [] p q = tt
zip_regions f (r ∷ rs) p q = (f r p.0 q.0, zip_regions f rs p.1 q.1)

-- No word belongs to both.
abbrev pub Apart : Region → Region → Type 0
Apart r q = (r.addr + r.words ≤ q.addr) ⊎ (q.addr + q.words ≤ r.addr)

abbrev pub Disjoint : List Region → Type 0
Disjoint [] = Unit
Disjoint (r ∷ rs) = AllRegions (Apart r) rs × Disjoint rs

-- The word at `a` belongs to another region or to none.
abbrev pub Outside : ℕ → Region → Type 0
Outside a r = (a < r.addr) ⊎ (r.addr + r.words ≤ a)

-- A region with the same words is apart from the same regions.
pub moved-Apart :
    (r q : Region) (rs : List Region)
    → q.addr ≡ r.addr
    → q.words ≡ r.words
    → AllRegions (Apart r) rs
    → AllRegions (Apart q) rs
moved-Apart r q [] e f apart = tt
moved-Apart r q (p ∷ rs) e f apart = (rw (e, f) apart.0, moved-Apart r q rs e f apart.1)

module _ (core : SeccCore) (laws : IsSecded core) (cells : ℕ → ℕ) where
  -- Flips are told by the address of the word that they strike.
  abbrev pub IsStruckAt : (ℕ → Option Flip) → Machine → Region → Type 0
  IsStruckAt hits m r = IsStruck core laws cells (λ j. hits (r.addr + j)) r m

  -- A region holds the sealed words, and their codes.
  abbrev pub Holds : (ℕ → ℕ) → Region → Type 0
  Holds found r =
      AllBelow
        (λ j.
          (found (r.addr + j) ≡ cells (r.addr + j))
          × (r.codes j ≡ core.encode (cells (r.addr + j))))
        r.words

  -- A pass over one region leaves the words of the others alone.
  scrub_region-cells :
      (r : Region) (m : Machine)
      → IsCounting m
      → (a : ℕ) → (a < r.addr) ⊎ (r.addr + r.words ≤ a)
      → (scrub_region core r m).1.cells a ≡ m.cells a
  scrub_region-cells r m fits a (inl low) = (scrub_region-After core r m fits).before a low
  scrub_region-cells r m fits a (inr high) =
      let e : r.addr + (a - r.addr) ≡ a = omega arith in
      let done = scrub_region-After core r m fits in
      subst (λ (b : ℕ). (scrub_region core r m).1.cells b ≡ m.cells b) e
        (ground (arith, done.cells (a - r.addr)))

  pass-IsCounting : (r : Region) (m : Machine) → IsCounting m → IsCounting (scrub_region core r m).1
  pass-IsCounting r m fits =
      let done = scrub_region-After core r m fits in
      ground (arith, done.corrected, done.uncorrectable)

  scrub_regions-cells :
      (rs : List Region) (m : Machine) (a : ℕ)
      → IsCounting m
      → AllRegions (Outside a) rs
      → (scrub_regions core rs m).1.cells a ≡ m.cells a
  unfolding scrub_regions
  scrub_regions-cells [] m a fits away = refl
  scrub_regions-cells (r ∷ rs) m a fits away =
      scrub_regions-cells rs (scrub_region core r m).1 a (pass-IsCounting r m fits) away.1
      ∙ scrub_region-cells r m fits a away.0

  -- A word of a region lies outside the regions that are apart from it.
  Apart-Outside :
      (r : Region) (rs : List Region) (j : ℕ)
      → j < r.words
      → AllRegions (Apart r) rs
      → AllRegions (Outside (r.addr + j)) rs
  Apart-Outside r [] j lt away = tt
  Apart-Outside r (q ∷ rs) j lt (inl low, away) = (inl (omega arith), Apart-Outside r rs j lt away)
  Apart-Outside r (q ∷ rs) j lt (inr high, away) = (inr (omega arith), Apart-Outside r rs j lt away)

  Apart-word :
      (r q : Region) (j : ℕ)
      → j < q.words
      → Apart r q
      → (q.addr + j < r.addr) ⊎ (r.addr + r.words ≤ q.addr + j)
  Apart-word r q j lt away = ground arith

  -- A pass over a region leaves the others as they were struck.
  still_struck :
      (hits : ℕ → Option Flip) (r : Region) (m : Machine)
      → IsCounting m
      → (q : Region) → Apart r q
      → IsStruckAt hits m q
      → IsStruckAt hits (scrub_region core r m).1 q
  still_struck hits r m fits q away struck = AllBelow-of _ q.words λ j lt.
      let (h, w, c) = AllBelow-at _ q.words j lt struck in
      (h, scrub_region-cells r m fits (q.addr + j) (Apart-word r q j lt away) ∙ w, c)

  -- x
  pub scrub_regions-struck :
      (hits : ℕ → Option Flip) (rs : List Region) (m : Machine)
      → IsCounting m
      → Disjoint rs
      → AllRegions (IsStruckAt hits m) rs
      → let t = scrub_regions core rs m in
        AllRegions (Holds t.1.cells) t.0
        × (t.1.uncorrectable ≡ m.uncorrectable)
        × (t.1.tainted ≡ m.tainted)
        × IsCounting t.1
  unfolding scrub_regions
  scrub_regions-struck hits [] m fits apart struck = (tt, refl, refl, fits)
  scrub_regions-struck hits (r ∷ rs) m fits apart struck =
      let here = scrub_region-struck core laws cells (λ j. hits (r.addr + j)) r m fits struck.0 in
      let done = scrub_region-After core r m fits in
      let m' = (scrub_region core r m).1 in
      let rest =
        scrub_regions-struck hits rs m' (pass-IsCounting r m fits) apart.1
          (zip_regions (still_struck hits r m fits) rs apart.0 struck.1) in
      (
        (
          rw (done.addr, done.words)
              (AllBelow-of _ r.words λ j lt.
                let (kept, code) = AllBelow-at _ r.words j lt here.0 in
                (
                  scrub_regions-cells rs m' (r.addr + j) (pass-IsCounting r m fits)
                        (Apart-Outside r rs j lt apart.0)
                      ∙ kept,
                  code,
                )),
          rest.0,
        ),
        rest.1 ∙ here.2,
        rest.2 ∙ here.3,
        rest.3,
      )

  -- Regions stay where they are.
  scrub_regions-Apart :
      (r : Region) (rs : List Region) (m : Machine)
      → IsCounting m
      → AllRegions (Apart r) rs
      → AllRegions (Apart r) (scrub_regions core rs m).0
  unfolding scrub_regions
  scrub_regions-Apart r [] m fits apart = tt
  scrub_regions-Apart r (q ∷ rs) m fits apart =
      let done = scrub_region-After core q m fits in
      (
        rw (done.addr, done.words) apart.0,
        scrub_regions-Apart r rs (scrub_region core q m).1 (pass-IsCounting q m fits) apart.1,
      )

  pub scrub_regions-Disjoint :
      (rs : List Region) (m : Machine)
      → IsCounting m
      → Disjoint rs
      → Disjoint (scrub_regions core rs m).0
  unfolding scrub_regions
  scrub_regions-Disjoint [] m fits apart = tt
  scrub_regions-Disjoint (r ∷ rs) m fits apart =
      let done = scrub_region-After core r m fits in
      let fits' = pass-IsCounting r m fits in
      let m' = (scrub_region core r m).1 in
      (
        moved-Apart r (scrub_region core r m).0 _ done.addr done.words
            (scrub_regions-Apart r rs m' fits' apart.0),
        scrub_regions-Disjoint rs m' fits' apart.1,
      )
