-- ===== src/Scrubber/Rewrites.antt =====
-- patches/0009-rustlux-soft-ecc.patch: regions that are written on purpose and resealed between
-- two passes, again and again.
use linux_rustlux.Base.{
  ℕ, ◌+◌, ◌==◌, true, either_way, ◌≡◌, refl, ◌∙◌, ap, sym, Option, none, List, [], ◌∷◌,
}
use linux_rustlux.Base.Cells.{AllBelow, AllBelow-of, AllBelow-at}
use linux_rustlux.SoftEcc.Secded.{Flip}
use linux_rustlux.Scrubber.{
  SeccCore, Region, Machine, System, seal, reseal_regions, reseal, scrub_fn,
}
use linux_rustlux.Scrubber.Core.{IsSecded}
use linux_rustlux.Scrubber.Regions.{IsCounting}
use linux_rustlux.Scrubber.Repair.{IsSealed}
use linux_rustlux.Scrubber.Flips.{struck_word, struck_code}
use linux_rustlux.Scrubber.Passes.{AllRegions, Apart, Disjoint, IsStruckAt, Holds, moved-Apart}
use linux_rustlux.Scrubber.Seal.{AllSealed}
use linux_rustlux.Scrubber.Reseal.{IsKept, reseal-AllSealed}
use linux_rustlux.Scrubber.Visits.{idle, Moves}
use linux_rustlux.Scrubber.Visits.Filled.{Filled, Moves-Filled}
use linux_rustlux.Scrubber.Visits.Safe.{Moves-IsSafe, Moves-restored}

module _ (core : SeccCore) where
  reseal_regions-Filled :
      (addr : ℕ) (cells : ℕ → ℕ) (rs : List Region)
      → Filled rs
      → Filled (reseal_regions core addr cells rs)
  unfolding reseal_regions seal
  reseal_regions-Filled addr cells [] filled = tt
  reseal_regions-Filled addr cells (r ∷ rs) filled =
      either_way Filled (r.addr == addr) filled
        (filled.0, reseal_regions-Filled addr cells rs filled.1)

  reseal_regions-Apart :
      (addr : ℕ) (cells : ℕ → ℕ) (r : Region) (rs : List Region)
      → AllRegions (Apart r) rs
      → AllRegions (Apart r) (reseal_regions core addr cells rs)
  unfolding reseal_regions seal
  reseal_regions-Apart addr cells r [] apart = tt
  reseal_regions-Apart addr cells r (q ∷ rs) apart =
      either_way (AllRegions (Apart r)) (q.addr == addr) apart
        (apart.0, reseal_regions-Apart addr cells r rs apart.1)

  reseal_regions-Disjoint :
      (addr : ℕ) (cells : ℕ → ℕ) (rs : List Region)
      → Disjoint rs
      → Disjoint (reseal_regions core addr cells rs)
  unfolding reseal_regions seal
  reseal_regions-Disjoint addr cells [] apart = tt
  reseal_regions-Disjoint addr cells (r ∷ rs) apart =
      either_way Disjoint (r.addr == addr)
        (moved-Apart r (seal core cells r) rs refl refl apart.0, apart.1)
        (
          reseal_regions-Apart addr cells r rs apart.0,
          reseal_regions-Disjoint addr cells rs apart.1,
        )

  -- No flip is pending in the region.
  abbrev pub IsWhole : (ℕ → Option Flip) → Region → Type 0
  IsWhole hits r = AllBelow (λ j. hits (r.addr + j) ≡ none) r.words

  whole-IsSealed :
      (laws : IsSecded core) (cells : ℕ → ℕ) (hits : ℕ → Option Flip) (m : Machine)
      (rs : List Region)
      → AllRegions (IsStruckAt core laws cells hits m) rs
      → AllRegions (IsWhole hits) rs
      → AllRegions (IsSealed core m.cells) rs
  whole-IsSealed laws cells hits m [] struck whole = tt
  whole-IsSealed laws cells hits m (r ∷ rs) struck whole = (
    AllBelow-of _ r.words λ j lt.
        let (h, w, c) = AllBelow-at _ r.words j lt struck.0 in
        let none_left = AllBelow-at _ r.words j lt whole.0 in
        c
        ∙ ap (λ k. struck_code k (core.encode (cells (r.addr + j)))) none_left
        ∙ ap core.encode (sym (w ∙ ap (λ k. struck_word k (cells (r.addr + j))) none_left)),
    whole-IsSealed laws cells hits m rs struck.1 whole.1,
  )

  -- The lives of a system from its first sealing on, by the moment from which the regions hold
  -- what they should: when nothing is pending and no pass is under way, the region at `addr` is
  -- written to on purpose and resealed before the next pass.
  pub data Lives (first : System) : System → Type 0 where
    begun : Lives first first
    rewritten :
        {start s : System} {hits : ℕ → Option Flip} (addr : ℕ) (cells : ℕ → ℕ)
        → Lives first start
        → Moves core start s idle hits
        → AllRegions (IsWhole hits) s.regions
        → AllRegions (IsKept core s.machine.cells cells addr) s.regions
        → Lives first (reseal core addr (record s { machine = record s.machine { cells = cells } }))

  module _ (laws : IsSecded core) (first : System) where
    record IsSeat (start : System) : Type 0 where
      apart : Disjoint start.regions
      filled : Filled start.regions
      counting : IsCounting start.machine
      sealed : AllSealed core start
      uncorrectable : start.machine.uncorrectable ≡ first.machine.uncorrectable
      tainted : start.machine.tainted ≡ first.machine.tainted

    Lives-IsSeat : {start : System} → IsSeat first → Lives first start → IsSeat start
    unfolding reseal
    Lives-IsSeat seat begun = seat
    Lives-IsSeat seat (rewritten {start} {s} {hits} addr cells lives moves whole kept) =
        let before = Lives-IsSeat seat lives in
        let (sound, fit) =
          Moves-IsSafe core laws start before.apart before.counting before.sealed moves in
        let filled = Moves-Filled core before.filled moves in
        record {
          apart = reseal_regions-Disjoint addr cells s.regions sound.apart;
          filled = reseal_regions-Filled addr cells s.regions filled;
          counting = record {
            corrected = sound.counting.corrected;
            uncorrectable = sound.counting.uncorrectable;
          };
          sealed =
              reseal-AllSealed core s cells addr sound.apart filled
                (whole-IsSealed laws start.machine.cells hits s.machine s.regions sound.struck
                  whole)
                kept;
          uncorrectable = sound.uncorrectable ∙ before.uncorrectable;
          tainted = sound.tainted ∙ before.tainted;
        }

    -- With a core that meets IsSecded, where no two regions share a word, none is empty and all
    -- are sealed at first: however often a region is written to on purpose and resealed, each
    -- time between two passes and with no flip pending, and whatever flips, steps of passes,
    -- writes outside of the regions and sysctl writes come between and after, without a second
    -- flip of a word while one is pending, the next undisturbed pass with the scrubber enabled
    -- brings all words back to those at the last resealing, with no word counted as lost and no
    -- taint.
    pub Lives-restored :
        {start t : System} {hits : ℕ → Option Flip}
        → Disjoint first.regions
        → Filled first.regions
        → IsCounting first.machine
        → AllSealed core first
        → Lives first start
        → Moves core start t idle hits
        → t.enabled ≡ true
        → let u = scrub_fn core t in
          AllRegions (Holds core laws start.machine.cells u.machine.cells) u.regions
          × (u.machine.uncorrectable ≡ first.machine.uncorrectable)
          × (u.machine.tainted ≡ first.machine.tainted)
    Lives-restored {start} apart filled counting sealed lives moves on =
        let seat =
          Lives-IsSeat
            (record {
              apart = apart;
              filled = filled;
              counting = counting;
              sealed = sealed;
              uncorrectable = refl;
              tainted = refl;
            })
            lives in
        let done = Moves-restored core laws start seat.apart seat.counting seat.sealed moves on in
        (done.0, done.1 ∙ seat.uncorrectable, done.2 ∙ seat.tainted)
