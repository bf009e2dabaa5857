-- ===== src/Scrubber/Boot.antt =====
-- patches/0012-rustlux-softecc-seal-after-ro.patch: the boot, up to the moment when everything is
-- sealed, and what follows.
use linux_rustlux.Base.{ℕ, Bool, true, false, ◌≡◌, refl, ◌∙◌, Option, List, [], ◌∷◌, arith}
use linux_rustlux.SoftEcc.Secded.{Flip}
use linux_rustlux.Scrubber.{
  SeccCore, Region, System, scrub_fn, protect, init, seal, seal_regions, seal_all,
}
use linux_rustlux.Scrubber.Core.{IsSecded}
use linux_rustlux.Scrubber.Passes.{AllRegions, Disjoint, Holds, Apart}
use linux_rustlux.Scrubber.Seal.{seal_regions-IsSealed}
use linux_rustlux.Scrubber.Visits.{write, idle, Moves}
use linux_rustlux.Scrubber.Visits.Safe.{Moves-restored}

-- The state before the first initcall.
abbrev pub powered_on : (ℕ → ℕ) → System
powered_on cells = record {
  machine = record { cells = cells; corrected = 0; uncorrectable = 0; tainted = false };
  regions = [];
  enabled = true;
  scheduled = false;
}

-- The initcalls, in any order: they write to the memory, guarded or not, and register regions;
-- a pass runs only if it has been scheduled.
pub data Boot (core : SeccCore) : System → Type 0 where
  powered : (cells : ℕ → ℕ) → Boot core (powered_on cells)
  wrote : {s : System} (a value : ℕ) → Boot core s → Boot core (write a value s)
  registered :
      {s : System} (label addr size : ℕ) (readonly region_found codes_found : Bool)
      (garbage : ℕ → ℕ)
      → Boot core s
      → Boot core (protect core label addr size readonly region_found codes_found garbage s).0
  inited :
      {s : System} (label start size : ℕ) (region_found codes_found : Bool) (garbage : ℕ → ℕ)
      → Boot core s
      → Boot core (init core label start size region_found codes_found garbage s).0
  ran : {s : System} → Boot core s → s.scheduled ≡ true → Boot core (scrub_fn core s)

-- Nothing has been scheduled, and so no pass has touched anything.
record IsFresh (s : System) : Type 0 where
  scheduled : s.scheduled ≡ false
  corrected : s.machine.corrected ≡ 0
  uncorrectable : s.machine.uncorrectable ≡ 0
  tainted : s.machine.tainted ≡ false

seal_regions-Apart :
    (core : SeccCore) (cells : ℕ → ℕ) (r q : Region) (rs : List Region)
    → q.addr ≡ r.addr
    → q.words ≡ r.words
    → AllRegions (Apart r) rs
    → AllRegions (Apart q) (seal_regions core cells rs)
unfolding seal_regions seal
seal_regions-Apart core cells r q [] e f apart = tt
seal_regions-Apart core cells r q (p ∷ rs) e f apart =
    (rw (e, f) apart.0, seal_regions-Apart core cells r q rs e f apart.1)

seal_regions-Disjoint :
    (core : SeccCore) (cells : ℕ → ℕ) (rs : List Region)
    → Disjoint rs
    → Disjoint (seal_regions core cells rs)
unfolding seal_regions seal
seal_regions-Disjoint core cells [] apart = tt
seal_regions-Disjoint core cells (r ∷ rs) apart = (
  seal_regions-Apart core cells r (seal core cells r) rs refl refl apart.0,
  seal_regions-Disjoint core cells rs apart.1,
)

module _ (core : SeccCore) where
  protect-IsFresh :
      (label addr size : ℕ) (readonly region_found codes_found : Bool) (garbage : ℕ → ℕ)
      (s : System)
      → IsFresh s
      → IsFresh (protect core label addr size readonly region_found codes_found garbage s).0
  unfolding protect
  protect-IsFresh label addr size readonly true true garbage s f = record {
    scheduled = f.scheduled;
    corrected = f.corrected;
    uncorrectable = f.uncorrectable;
    tainted = f.tainted;
  }
  protect-IsFresh label addr size readonly true false garbage s f = f
  protect-IsFresh label addr size readonly false codes_found garbage s f = f

  Boot-IsFresh : {s : System} → Boot core s → IsFresh s
  unfolding init
  Boot-IsFresh (powered cells) = record {
    scheduled = refl;
    corrected = refl;
    uncorrectable = refl;
    tainted = refl;
  }
  Boot-IsFresh (wrote a value steps) =
      let f = Boot-IsFresh steps in
      record {
        scheduled = f.scheduled;
        corrected = f.corrected;
        uncorrectable = f.uncorrectable;
        tainted = f.tainted;
      }
  Boot-IsFresh (registered {s} label addr size readonly region_found codes_found garbage steps) =
      protect-IsFresh label addr size readonly region_found codes_found garbage s
        (Boot-IsFresh steps)
  Boot-IsFresh (inited {s} label start size region_found codes_found garbage steps) =
      protect-IsFresh label start size true region_found codes_found garbage s (Boot-IsFresh steps)
  Boot-IsFresh (ran {s} steps due) = absurd (cc ((Boot-IsFresh steps).scheduled, due))

  -- With a core that meets IsSecded, whatever the initcalls write and register, no pass is
  -- scheduled before everything is sealed; and where no two regions share a word, whatever
  -- flips, steps of passes, writes outside of the regions and sysctl writes follow, without a
  -- second flip of a word while one is pending, the next undisturbed pass with the scrubber
  -- enabled brings all words back to those at the moment of sealing, with no word counted as
  -- lost and no taint.
  pub Boot-restored :
      (laws : IsSecded core) {s t : System} {hits : ℕ → Option Flip}
      → Boot core s
      → Disjoint s.regions
      → Moves core (seal_all core s) t idle hits
      → t.enabled ≡ true
      → let u = scrub_fn core t in
        AllRegions (Holds core laws s.machine.cells u.machine.cells) u.regions
        × (u.machine.uncorrectable ≡ 0)
        × (u.machine.tainted ≡ false)
        × (s.scheduled ≡ false)
  unfolding seal_all
  Boot-restored laws {s} boot apart moves on =
      let fresh = Boot-IsFresh boot in
      let done =
        Moves-restored core laws (seal_all core s)
          (seal_regions-Disjoint core s.machine.cells s.regions apart)
          (record {
            corrected = omega (arith, fresh.corrected);
            uncorrectable = omega (arith, fresh.uncorrectable);
          })
          (seal_regions-IsSealed core s.machine.cells s.regions) moves on in
      (done.0, done.1 ∙ fresh.uncorrectable, done.2 ∙ fresh.tainted, fresh.scheduled)
