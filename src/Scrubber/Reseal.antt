-- ===== src/Scrubber/Reseal.antt =====
-- patches/0009-rustlux-soft-ecc.patch: a region that has been written on purpose is resealed.
use linux_rustlux.Base.{
  ℕ, ◌+◌, ◌<◌, true, false, ◌==◌, ◌≡◌, ◌≢◌, ◌⊎◌, inl, inr, ◌∙◌, ap, sym, List, [], ◌∷◌, ℕ_discrete,
  arith,
}
use linux_rustlux.Base.Cells.{AllBelow, AllBelow-of, AllBelow-at}
use linux_rustlux.Scrubber.{SeccCore, Region, System, reseal_regions, reseal}
use linux_rustlux.Scrubber.Repair.{IsSealed}
use linux_rustlux.Scrubber.Passes.{AllRegions, Apart, Disjoint}
use linux_rustlux.Scrubber.Seal.{seal-IsSealed, AllSealed}

module _ (core : SeccCore) (cells cells' : ℕ → ℕ) (addr : ℕ) where
  -- A region starts at `addr`, or its words are the same in both memories.
  abbrev pub IsKept : Region → Type 0
  IsKept r = (r.addr ≡ addr) ⊎ AllBelow (λ j. cells' (r.addr + j) ≡ cells (r.addr + j)) r.words

  kept-IsSealed :
      (r : Region) → r.addr ≢ addr → IsKept r → IsSealed core cells r → IsSealed core cells' r
  kept-IsSealed r ne (inl e) sealed = absurd (ne e)
  kept-IsSealed r ne (inr same) sealed = AllBelow-of _ r.words λ j lt.
      AllBelow-at _ r.words j lt sealed ∙ ap core.encode (sym (AllBelow-at _ r.words j lt same))

  -- No region that is apart from one at `addr` starts there, unless it is empty.
  others-IsSealed :
      (r : Region) (rs : List Region)
      → r.addr ≡ addr
      → 0 < r.words
      → AllRegions (Apart r) rs
      → AllRegions (λ q. 0 < q.words) rs
      → AllRegions IsKept rs
      → AllRegions (IsSealed core cells) rs
      → AllRegions (IsSealed core cells') rs
  others-IsSealed r [] e some apart filled kept sealed = tt
  others-IsSealed r (q ∷ rs) e some apart filled kept sealed = (
    kept-IsSealed q (λ same. absurd (grind (arith, e, some, apart.0, filled.0, same))) kept.0
        sealed.0,
    others-IsSealed r rs e some apart.1 filled.1 kept.1 sealed.1,
  )

  reseal_regions-IsSealed :
      (rs : List Region)
      → Disjoint rs
      → AllRegions (λ r. 0 < r.words) rs
      → AllRegions IsKept rs
      → AllRegions (IsSealed core cells) rs
      → AllRegions (IsSealed core cells') (reseal_regions core addr cells' rs)
  unfolding reseal_regions
  reseal_regions-IsSealed [] apart filled kept sealed = tt
  reseal_regions-IsSealed (r ∷ rs) apart filled kept sealed = elim (ℕ_discrete r.addr addr) [
    | yes e ↦
        let found : (r.addr == addr) ≡ true = ground (arith, e) in
        rw found (
          seal-IsSealed core cells' r,
          others-IsSealed r rs e filled.0 apart.0 filled.1 kept.1 sealed.1,
        )
    | no ne ↦
        let other : (r.addr == addr) ≡ false = ground (arith, ne) in
        rw other (
          kept-IsSealed r ne kept.0 sealed.0,
          reseal_regions-IsSealed rs apart.1 filled.1 kept.1 sealed.1,
        )
  ]

-- Where no two regions share a word and none is empty, resealing the region that starts at an
-- address makes all regions sealed again after the memory has changed in that region alone.
pub reseal-AllSealed :
    (core : SeccCore) (s : System) (cells : ℕ → ℕ) (addr : ℕ)
    → Disjoint s.regions
    → AllRegions (λ r. 0 < r.words) s.regions
    → AllSealed core s
    → AllRegions (IsKept core s.machine.cells cells addr) s.regions
    → AllSealed core (reseal core addr (record s { machine = record s.machine { cells = cells } }))
unfolding reseal
reseal-AllSealed core s cells addr apart filled sealed kept =
    reseal_regions-IsSealed core s.machine.cells cells addr s.regions apart filled kept sealed
