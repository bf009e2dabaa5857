-- ===== src/Scrubber/Visits.antt =====
-- patches/0009-rustlux-soft-ecc.patch: a pass step by step, with flips between any two steps. A
-- visit of a word reads it, reads its code and verifies, writes the word that was found if it is
-- another, and then its code, and counts.
pub mod Places
pub mod Settles
pub mod Verdicts
pub mod Advance
pub mod Safe
pub mod Filled
pub mod Whole
use linux_rustlux.Base.{
  ℕ, zero, suc, ◌+◌, Bool, true, ltb, u64, if◌then◌else◌, ◌≡◌, ℤ, pos, negsuc, Option, none, some,
  List, [], ◌∷◌, get_elem?,
}
use linux_rustlux.Base.Cells.{update}
use linux_rustlux.InTree.Ecc.{SeccResult}
use linux_rustlux.SoftEcc.Secded.{Flip, IsFlip, data_bit, code_bit}
use linux_rustlux.Scrubber.{SeccCore, Region, Machine, System, fix_word}
use linux_rustlux.Scrubber.Regions.{is_corrected}
use linux_rustlux.Scrubber.Passes.{AllRegions, Outside}
use linux_rustlux.Scrubber.Strikes.{strike}

abbrev pub write : ℕ → ℕ → System → System
write a value s = record s { machine = record s.machine { cells = update s.machine.cells a value } }

-- Where the pass is: between two passes; before word `i` of region `k`; after it has read that
-- word; after it has verified it; after it has repaired it.
pub data Phase : Type 0 where
  idle : Phase
  at : (k i : ℕ) → Phase
  loaded : (k i word : ℕ) → Phase
  judged : (k i word : ℕ) → SeccResult → Phase
  fixed : (k i word : ℕ) → SeccResult → Phase

pub record Scan : Type 0 where
  pub system : System
  pub phase : Phase

-- The word that is next, the first one of the next region, or the end of the pass.
unfoldable pub load : System → ℕ → ℕ → Option Region → Scan
load s k i none = record { system = record s { scheduled = true }; phase = idle }
load s k i (some r) = record {
  system = s;
  phase = if ltb i r.words then loaded k i (s.machine.cells (r.addr + i)) else at (suc k) 0;
}

-- The region is still there.
unfoldable pub judge_with : (ℕ → ℕ → SeccResult) → ℕ → ℕ → ℕ → Option Region → Phase
judge_with verify k i word none = idle
judge_with verify k i word (some r) = judged k i word (verify word (r.codes i))

-- A word that has been repaired is struck in its code at most, and one whose code has been written
-- in itself at most.
abbrev pub clear_word : Option Flip → Option Flip
clear_word none = none
clear_word (some (data_bit i)) = none
clear_word (some (code_bit i)) = some (code_bit i)

abbrev pub clear_code : Option Flip → Option Flip
clear_code none = none
clear_code (some (data_bit i)) = some (data_bit i)
clear_code (some (code_bit i)) = none

abbrev pub hits_at :
    (Option Flip → Option Flip)
    → (ℕ → Option Flip)
    → SeccResult
    → ℕ
    → Option Region
    → ℕ
    → Option Flip
hits_at clear hits res i none = hits
hits_at clear hits res i (some r) =
    if is_corrected res.status then update hits (r.addr + i) (clear (hits (r.addr + i))) else hits

-- The flips that are left after a step.
abbrev pub hits_after : (ℕ → Option Flip) → System → Phase → ℕ → Option Flip
hits_after hits s (judged k i word res) = hits_at clear_word hits res i (get_elem? s.regions k)
hits_after hits s (fixed k i word res) = hits_at clear_code hits res i (get_elem? s.regions k)
hits_after hits s phase = hits

module _ (core : SeccCore) where
  -- The call of `softecc_fix_word`.
  unfoldable pub fix_with : ℕ → SeccResult → Machine → Option Region → Machine
  unfolding fix_word
  fix_with i res m none = m
  fix_with i res m (some r) =
      if is_corrected res.status then fix_word core r i res.data_word m else m

  -- The rest of the `switch`.
  unfoldable pub note : Region → ℕ → ℕ → Machine → ℤ → ℕ → Region × Machine
  note r i word m (pos (suc zero)) good = (
    record r { codes = update r.codes i (core.encode good) },
    record m { corrected = u64 (m.corrected + 1) },
  )
  note r i word m (negsuc zero) good = (
    record r { codes = update r.codes i (core.encode word) },
    record m { uncorrectable = u64 (m.uncorrectable + 1); tainted = true },
  )
  note r i word m status good = (r, m)

  unfoldable pub note_at : ℕ → ℕ → ℕ → SeccResult → List Region → Machine → List Region × Machine
  unfolding note
  note_at k i word res [] m = ([], m)
  note_at zero i word res (r ∷ rs) m =
      let (r', m') = note r i word m res.status res.data_word in (r' ∷ rs, m')
  note_at (suc k) i word res (r ∷ rs) m = let (rs', m') = note_at k i word res rs m in (r ∷ rs', m')

  unfoldable pub advance : System → Phase → Scan
  unfolding load judge_with fix_with note_at
  advance s idle =
      if s.enabled
      then record { system = s; phase = at 0 0 }
      else record { system = record s { scheduled = true }; phase = idle }
  advance s (at k i) = load s k i (get_elem? s.regions k)
  advance s (loaded k i word) = record {
    system = s;
    phase = judge_with core.verify k i word (get_elem? s.regions k);
  }
  advance s (judged k i word res) = record {
    system = record s { machine = fix_with i res s.machine (get_elem? s.regions k) };
    phase = fixed k i word res;
  }
  advance s (fixed k i word res) =
      let (regions, machine) = note_at k i word res s.regions s.machine in
      record { system = record s { regions = regions; machine = machine }; phase = at k (suc i) }

  -- What happens, and which words are struck: a flip of one bit of a word that is not struck, or of
  -- its code, at any moment; a step of the pass; a write to a word of no region; and writes of the
  -- sysctl.
  pub data Moves (start : System) : System → Phase → (ℕ → Option Flip) → Type 0 where
    started : Moves start start idle (λ a. none)
    flipped :
        {s : System} {phase : Phase} {hits : ℕ → Option Flip} (a : ℕ) (x : Flip)
        → Moves start s phase hits
        → hits a ≡ none
        → IsFlip x
        → Moves start (strike a x s) phase (update hits a (some x))
    advanced :
        {s : System} {phase : Phase} {hits : ℕ → Option Flip}
        → Moves start s phase hits
        → Moves start (advance s phase).system (advance s phase).phase (hits_after hits s phase)
    wrote :
        {s : System} {phase : Phase} {hits : ℕ → Option Flip} (a value : ℕ)
        → Moves start s phase hits
        → AllRegions (Outside a) s.regions
        → Moves start (write a value s) phase hits
    toggled :
        {s : System} {phase : Phase} {hits : ℕ → Option Flip} (enabled : Bool)
        → Moves start s phase hits
        → Moves start (record s { enabled = enabled }) phase hits
