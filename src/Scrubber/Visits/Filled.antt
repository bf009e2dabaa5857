-- ===== src/Scrubber/Visits/Filled.antt =====
-- patches/0009-rustlux-soft-ecc.patch: no step of a pass and no flip makes a region empty.
use linux_rustlux.Base.{
  ℕ, zero, suc, ◌<◌, either_way, ◌≡◌, refl, pos, negsuc, Option, none, some, List, [], ◌∷◌, arith,
  get_elem?, ℤ,
}
use linux_rustlux.InTree.Ecc.{SeccResult}
use linux_rustlux.SoftEcc.Secded.{Flip}
use linux_rustlux.Scrubber.{SeccCore, Region, Machine, System}
use linux_rustlux.Scrubber.Passes.{AllRegions}
use linux_rustlux.Scrubber.Strikes.{strike_code, strike_codes, strike}
use linux_rustlux.Scrubber.Visits.{
  Scan, Phase, idle, at, loaded, judged, fixed, load, note, note_at, advance, Moves, started,
  flipped, advanced, wrote, toggled,
}

abbrev pub Filled : List Region → Type 0
Filled rs = AllRegions (λ r. 0 < r.words) rs

-- No region becomes empty.
strike_codes-Filled :
    (a : ℕ) (x : Flip) (rs : List Region) → Filled rs → Filled (strike_codes a x rs)
unfolding strike_codes strike_code
strike_codes-Filled a x [] filled = tt
strike_codes-Filled a x (r ∷ rs) filled = (filled.0, strike_codes-Filled a x rs filled.1)

module _ (core : SeccCore) where
  note-words :
      (r : Region) (i word : ℕ) (m : Machine) (status : ℤ) (good : ℕ)
      → (note core r i word m status good).0.words ≡ r.words
  unfolding note
  note-words r i word m (pos zero) good = refl
  note-words r i word m (pos (suc zero)) good = refl
  note-words r i word m (pos (suc (suc n))) good = refl
  note-words r i word m (negsuc zero) good = refl
  note-words r i word m (negsuc (suc n)) good = refl

  note_at-Filled :
      (k i word : ℕ) (res : SeccResult) (rs : List Region) (m : Machine)
      → Filled rs
      → Filled (note_at core k i word res rs m).0
  unfolding note_at
  note_at-Filled k i word res [] m filled = tt
  note_at-Filled zero i word res (r ∷ rs) m filled =
      (omega (arith, filled.0, note-words r i word m res.status res.data_word), filled.1)
  note_at-Filled (suc k) i word res (r ∷ rs) m filled =
      (filled.0, note_at-Filled k i word res rs m filled.1)

  load-regions :
      (s : System) (k i : ℕ) (o : Option Region) → (load s k i o).system.regions ≡ s.regions
  unfolding load
  load-regions s k i none = refl
  load-regions s k i (some r) = refl

  advance-Filled :
      (s : System) (phase : Phase) → Filled s.regions → Filled (advance core s phase).system.regions
  unfolding advance
  advance-Filled s idle filled =
      either_way (λ (t : Scan). Filled t.system.regions) s.enabled filled filled
  advance-Filled s (at k i) filled = rw (load-regions s k i (get_elem? s.regions k)) filled
  advance-Filled s (loaded k i word) filled = filled
  advance-Filled s (judged k i word res) filled = filled
  advance-Filled s (fixed k i word res) filled =
      note_at-Filled k i word res s.regions s.machine filled

  pub Moves-Filled :
      {start s : System} {phase : Phase} {hits : ℕ → Option Flip}
      → Filled start.regions
      → Moves core start s phase hits
      → Filled s.regions
  unfolding strike
  Moves-Filled filled started = filled
  Moves-Filled filled (flipped {s} a x moves whole flip) =
      strike_codes-Filled a x s.regions (Moves-Filled filled moves)
  Moves-Filled filled (advanced {s} {phase} moves) =
      advance-Filled s phase (Moves-Filled filled moves)
  Moves-Filled filled (wrote a value moves away) = Moves-Filled filled moves
  Moves-Filled filled (toggled enabled moves) = Moves-Filled filled moves
