-- ===== src/Scrubber/Visits/Safe.antt =====
-- patches/0009-rustlux-soft-ecc.patch: flips in the middle of a pass.
use linux_rustlux.Base.{ℕ, ◌+◌, ◌==◌, true, false, ◌≡◌, ◌∙◌, Option, List, [], ◌∷◌, arith}
use linux_rustlux.Base.Cells.{update, AllBelow-of, AllBelow-at}
use linux_rustlux.SoftEcc.Secded.{Flip}
use linux_rustlux.Scrubber.{SeccCore, Region, Machine, System, scrub_fn}
use linux_rustlux.Scrubber.Core.{IsSecded}
use linux_rustlux.Scrubber.Repair.{IsSealed}
use linux_rustlux.Scrubber.Regions.{IsCounting}
use linux_rustlux.Scrubber.Passes.{
  AllRegions, Disjoint, Outside, IsStruckAt, Holds, scrub_regions-struck,
}
use linux_rustlux.Scrubber.Sound.{Sound, start-Sound, strike-Sound, toggle-Sound}
use linux_rustlux.Scrubber.Visits.{
  write, wrote, Phase, idle, Moves, started, flipped, advanced, toggled,
}
use linux_rustlux.Scrubber.Visits.Verdicts.{strike-InPhase}
use linux_rustlux.Scrubber.Visits.Advance.{IsSafe, advance-IsSafe}

module _ (core : SeccCore) (laws : IsSecded core) (start : System) where
  write-struck :
      (hits : ℕ → Option Flip) (m : Machine) (a value : ℕ) (rs : List Region)
      → AllRegions (Outside a) rs
      → AllRegions (IsStruckAt core laws start.machine.cells hits m) rs
      → AllRegions
          (IsStruckAt core laws start.machine.cells hits
            (record m { cells = update m.cells a value }))
          rs
  write-struck hits m a value [] away struck = tt
  write-struck hits m a value (r ∷ rs) away struck = (
    AllBelow-of _ r.words λ j lt.
        let there : (a == r.addr + j) ≡ false = ground (arith, away.0, lt) in
        rw there (AllBelow-at _ r.words j lt struck.0),
    write-struck hits m a value rs away.1 struck.1,
  )

  write-Sound :
      (s : System) (hits : ℕ → Option Flip) (a value : ℕ)
      → AllRegions (Outside a) s.regions
      → Sound core laws start s hits
      → Sound core laws start (write a value s) hits
  write-Sound s hits a value away before = record {
    apart = before.apart;
    counting = record {
      corrected = before.counting.corrected;
      uncorrectable = before.counting.uncorrectable;
    };
    struck = write-struck hits s.machine a value s.regions away before.struck;
    uncorrectable = before.uncorrectable;
    tainted = before.tainted;
  }

  module _ (apart : Disjoint start.regions) (counting : IsCounting start.machine)
      (sealed : AllRegions (IsSealed core start.machine.cells) start.regions) where
    pub Moves-IsSafe :
        {s : System} {phase : Phase} {hits : ℕ → Option Flip}
        → Moves core start s phase hits
        → IsSafe core laws start hits (record { system = s; phase = phase })
    Moves-IsSafe started = (start-Sound core laws start apart counting sealed, tt)
    Moves-IsSafe (flipped {s} {phase} {hits} a x moves whole flip) =
        let (sound, fit) = Moves-IsSafe moves in
        (
          strike-Sound core laws start s hits a x whole flip sound,
          strike-InPhase start.machine.cells s hits phase a x whole fit,
        )
    Moves-IsSafe (advanced {s} {phase} {hits} moves) =
        advance-IsSafe core laws start s phase hits (Moves-IsSafe moves)
    Moves-IsSafe (wrote {s} {phase} {hits} a value moves away) =
        let (sound, fit) = Moves-IsSafe moves in (write-Sound s hits a value away sound, fit)
    Moves-IsSafe (toggled {s} {phase} {hits} enabled moves) =
        let (sound, fit) = Moves-IsSafe moves in
        (toggle-Sound core laws start s hits enabled s.scheduled sound, fit)

    -- With a core that meets IsSecded, at every moment of any interleaving of the steps of
    -- passes with flips, writes outside of the regions and sysctl writes, where regions share no
    -- words and are sealed at the start, the counters fit in 64 bits, and no word with its code
    -- is struck while a flip of it is pending (until the visit after it writes what it struck,
    -- the word or the code), each word with its code is the one of the start, struck by no other
    -- flip than the pending one, and no word has been counted as lost and the kernel not been
    -- tainted.
    pub Moves-struck :
        {s : System} {phase : Phase} {hits : ℕ → Option Flip}
        → Moves core start s phase hits
        → AllRegions (IsStruckAt core laws start.machine.cells hits s.machine) s.regions
          × (s.machine.uncorrectable ≡ start.machine.uncorrectable)
          × (s.machine.tainted ≡ start.machine.tainted)
    Moves-struck moves =
        let (sound, fit) = Moves-IsSafe moves in (sound.struck, sound.uncorrectable, sound.tainted)

    -- A pass that nothing disturbs then puts all words and codes right.
    pub Moves-restored :
        {s : System} {hits : ℕ → Option Flip}
        → Moves core start s idle hits
        → s.enabled ≡ true
        → let t = scrub_fn core s in
          AllRegions (Holds core laws start.machine.cells t.machine.cells) t.regions
          × (t.machine.uncorrectable ≡ start.machine.uncorrectable)
          × (t.machine.tainted ≡ start.machine.tainted)
    unfolding scrub_fn
    Moves-restored {s} {hits} moves on =
        let (before, fit) = Moves-IsSafe moves in
        let after =
          scrub_regions-struck core laws start.machine.cells hits s.regions s.machine
            before.counting before.apart before.struck in
        rw on (after.0, after.1 ∙ before.uncorrectable, after.2 ∙ before.tainted)
