-- ===== src/Scrubber/Sound.antt =====
-- patches/0009-rustlux-soft-ecc.patch: regions that are apart, whose words have been struck by at most
-- one flip each.
use linux_rustlux.Base.{ℕ, Bool, ◌≡◌, refl, Option, none, some, List, [], ◌∷◌}
use linux_rustlux.Base.Cells.{update, AllBelow-of, AllBelow-at}
use linux_rustlux.SoftEcc.Secded.{Flip, IsFlip}
use linux_rustlux.Scrubber.{SeccCore, Region, System}
use linux_rustlux.Scrubber.Core.{IsSecded}
use linux_rustlux.Scrubber.Regions.{IsCounting}
use linux_rustlux.Scrubber.Repair.{IsSealed}
use linux_rustlux.Scrubber.Passes.{AllRegions, Disjoint, IsStruckAt, Holds}
use linux_rustlux.Scrubber.Strikes.{
  strike, strike_codes-Disjoint, strike_codes-struck, Holds-struck,
}

-- The invariant: regions are apart, and each word of theirs is the one that was sealed, struck at
-- most once; and nothing has been lost.
pub record Sound (core : SeccCore) (laws : IsSecded core) (start s : System)
    (hits : ℕ → Option Flip) : Type 0 where
  pub apart : Disjoint s.regions
  pub counting : IsCounting s.machine
  pub struck : AllRegions (IsStruckAt core laws start.machine.cells hits s.machine) s.regions
  pub uncorrectable : s.machine.uncorrectable ≡ start.machine.uncorrectable
  pub tainted : s.machine.tainted ≡ start.machine.tainted

module _ (core : SeccCore) (laws : IsSecded core) (start : System) where
  IsSealed-Holds :
      (rs : List Region)
      → AllRegions (IsSealed core start.machine.cells) rs
      → AllRegions (Holds core laws start.machine.cells start.machine.cells) rs
  IsSealed-Holds [] sealed = tt
  IsSealed-Holds (r ∷ rs) sealed = (
    AllBelow-of _ r.words (λ j lt. (refl, AllBelow-at _ r.words j lt sealed.0)),
    IsSealed-Holds rs sealed.1,
  )

  -- Writes of the sysctl, and scheduling, change nothing else.
  pub toggle-Sound :
      (s : System) (hits : ℕ → Option Flip) (enabled scheduled : Bool)
      → Sound core laws start s hits
      → Sound core laws start (record s { enabled = enabled; scheduled = scheduled }) hits
  toggle-Sound s hits enabled scheduled before = record {
    apart = before.apart;
    counting = record {
      corrected = before.counting.corrected;
      uncorrectable = before.counting.uncorrectable;
    };
    struck = before.struck;
    uncorrectable = before.uncorrectable;
    tainted = before.tainted;
  }

  pub strike-Sound :
      (s : System) (hits : ℕ → Option Flip) (a : ℕ) (x : Flip)
      → hits a ≡ none
      → IsFlip x
      → Sound core laws start s hits
      → Sound core laws start (strike a x s) (update hits a (some x))
  unfolding strike
  strike-Sound s hits a x whole flip before = record {
    apart = strike_codes-Disjoint a x s.regions before.apart;
    counting = record {
      corrected = before.counting.corrected;
      uncorrectable = before.counting.uncorrectable;
    };
    struck =
        strike_codes-struck core laws start.machine.cells hits s.machine a x s.regions whole flip
          before.struck;
    uncorrectable = before.uncorrectable;
    tainted = before.tainted;
  }

  module _ (apart : Disjoint start.regions) (counting : IsCounting start.machine)
      (sealed : AllRegions (IsSealed core start.machine.cells) start.regions) where
    pub start-Sound : Sound core laws start start (λ a. none)
    start-Sound = record {
      apart = apart;
      counting = counting;
      struck =
          Holds-struck core laws start.machine.cells start.machine start.regions
            (IsSealed-Holds start.regions sealed);
      uncorrectable = refl;
      tainted = refl;
    }
