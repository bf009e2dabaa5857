-- ===== src/Scrubber/Visits/Settles.antt =====
-- patches/0009-rustlux-soft-ecc.patch: what repairing a word, and then its code, leaves of the
-- regions.
use linux_rustlux.Base.{
  ℕ, zero, suc, ◌+◌, ◌<◌, ◌==◌, true, false, ◌≡◌, ◌≢◌, refl, ap, pos, u64, Option, none, some, List,
  [], ◌∷◌, ℕ_discrete, arith,
}
use linux_rustlux.Base.Cells.{update, AllBelow-of, AllBelow-at}
use linux_rustlux.SoftEcc.Secded.{Flip, data_bit, code_bit}
use linux_rustlux.Scrubber.{SeccCore, Region, Machine}
use linux_rustlux.Scrubber.Core.{IsSecded}
use linux_rustlux.Scrubber.Flips.{IsStrike, struck_word, struck_code}
use linux_rustlux.Scrubber.Passes.{AllRegions, Apart, Disjoint, IsStruckAt}
use linux_rustlux.Scrubber.Visits.{clear_word, clear_code, note, note_at}
use linux_rustlux.Scrubber.Visits.Places.{IsPlace, Apart-IsPlace}

module _ (core : SeccCore) where
  pub note_at-clean :
      (rs : List Region) (k i word good : ℕ) (m : Machine)
      → note_at core k i word (record { status = pos 0; data_word = good }) rs m ≡ (rs, m)
  unfolding note_at note
  note_at-clean [] k i word good m = refl
  note_at-clean (r ∷ rs) zero i word good m = refl
  note_at-clean (r ∷ rs) (suc k) i word good m = rw (note_at-clean rs k i word good m) refl

  abbrev pub counted : Machine → Machine
  counted m = record m { corrected = u64 (m.corrected + 1) }

  pub note_at-machine :
      (rs : List Region) (k i a word good : ℕ) (m : Machine)
      → IsPlace rs k i a
      → (note_at core k i word (record { status = pos 1; data_word = good }) rs m).1 ≡ counted m
  unfolding note_at note
  note_at-machine [] k i a word good m place = elim place [ ]
  note_at-machine (r ∷ rs) zero i a word good m place = refl
  note_at-machine (r ∷ rs) (suc k) i a word good m place =
      note_at-machine rs k i a word good m place

  note_at-Apart :
      (q : Region) (rs : List Region) (k i word good : ℕ) (m : Machine)
      → AllRegions (Apart q) rs
      → AllRegions
          (Apart q)
          (note_at core k i word (record { status = pos 1; data_word = good }) rs m).0
  unfolding note_at note
  note_at-Apart q [] k i word good m apart = tt
  note_at-Apart q (r ∷ rs) zero i word good m apart = apart
  note_at-Apart q (r ∷ rs) (suc k) i word good m apart =
      (apart.0, note_at-Apart q rs k i word good m apart.1)

  pub note_at-Disjoint :
      (rs : List Region) (k i word good : ℕ) (m : Machine)
      → Disjoint rs
      → Disjoint (note_at core k i word (record { status = pos 1; data_word = good }) rs m).0
  unfolding note_at note
  note_at-Disjoint [] k i word good m apart = tt
  note_at-Disjoint (r ∷ rs) zero i word good m apart = apart
  note_at-Disjoint (r ∷ rs) (suc k) i word good m apart =
      (note_at-Apart r rs k i word good m apart.0, note_at-Disjoint rs k i word good m apart.1)

  -- What is found of a word and its code after a flip, or none.
  IsHit : ℕ → ℕ → ℕ → Option Flip → Type 0
  IsHit word found code h =
      IsStrike h × (found ≡ struck_word h word) × (code ≡ struck_code h (core.encode word))

  repaired-IsHit :
      (word found code : ℕ) (h : Option Flip)
      → IsHit word found code h
      → IsHit word word code (clear_word h)
  unfolding IsHit
  repaired-IsHit word found code none (flip, w, c) = (tt, refl, c)
  repaired-IsHit word found code (some (data_bit i)) (flip, w, c) = (tt, refl, c)
  repaired-IsHit word found code (some (code_bit i)) (flip, w, c) = (flip, refl, c)

  encoded-IsHit :
      (word found code : ℕ) (h : Option Flip)
      → IsHit word found code h
      → IsHit word found (core.encode word) (clear_code h)
  unfolding IsHit
  encoded-IsHit word found code none (flip, w, c) = (tt, w, refl)
  encoded-IsHit word found code (some (data_bit i)) (flip, w, c) = (flip, w, refl)
  encoded-IsHit word found code (some (code_bit i)) (flip, w, c) = (tt, w, refl)

  module _ (laws : IsSecded core) (cells : ℕ → ℕ) (hits : ℕ → Option Flip) where
    repaired_at :
        (found : ℕ → ℕ) (a b code : ℕ)
        → IsHit (cells b) (found b) code (hits b)
        → IsHit (cells b) (update found a (cells a) b) code (update hits a (clear_word (hits a)) b)
    unfolding IsHit
    repaired_at found a b code before = elim (ℕ_discrete a b) [
      | yes e ↦
          let here : (a == b) ≡ true = ground (arith, e) in
          rw (here, ap cells e, ap hits e) (repaired-IsHit (cells b) (found b) code (hits b) before)
      | no ne ↦ let there : (a == b) ≡ false = ground (arith, ne) in rw there before
    ]

    -- The word is repaired; a region that shares it would profit too.
    pub fix-struck :
        (m : Machine) (a : ℕ) (rs : List Region)
        → AllRegions (IsStruckAt core laws cells hits m) rs
        → AllRegions
            (IsStruckAt core laws cells
              (update hits a (clear_word (hits a)))
              (record m { cells = update m.cells a (cells a) }))
            rs
    unfolding IsHit
    fix-struck m a [] struck = tt
    fix-struck m a (r ∷ rs) struck = (
      AllBelow-of _ r.words λ j lt.
          repaired_at m.cells a (r.addr + j) (r.codes j) (AllBelow-at _ r.words j lt struck.0),
      fix-struck m a rs struck.1,
    )

    still-IsHit :
        (a b found code : ℕ)
        → b ≢ a
        → IsHit (cells b) found code (hits b)
        → IsHit (cells b) found code (update hits a (clear_code (hits a)) b)
    unfolding IsHit
    still-IsHit a b found code ne before =
        let there : (a == b) ≡ false = ground (arith, ne) in rw there before

    elsewhere :
        (m : Machine) (q : Region) (a : ℕ)
        → ((j : ℕ) → j < q.words → q.addr + j ≢ a)
        → IsStruckAt core laws cells hits m q
        → IsStruckAt core laws cells (update hits a (clear_code (hits a))) m q
    unfolding IsHit
    elsewhere m q a away struck = AllBelow-of _ q.words λ j lt.
        still-IsHit a (q.addr + j) (m.cells (q.addr + j)) (q.codes j) (away j lt)
          (AllBelow-at _ q.words j lt struck)

    all_elsewhere :
        (m : Machine) (r : Region) (rs : List Region) (i a : ℕ)
        → AllRegions (Apart r) rs
        → i < r.words
        → r.addr + i ≡ a
        → AllRegions (IsStruckAt core laws cells hits m) rs
        → AllRegions (IsStruckAt core laws cells (update hits a (clear_code (hits a))) m) rs
    all_elsewhere m r [] i a apart lt e struck = tt
    all_elsewhere m r (q ∷ rs) i a apart lt e struck = (
      elsewhere m q a (λ j below same. ground (arith, apart.0, lt, e, below, same)) struck.0,
      all_elsewhere m r rs i a apart.1 lt e struck.1,
    )

    encoded_here :
        (m : Machine) (r : Region) (i a : ℕ)
        → r.addr + i ≡ a
        → IsStruckAt core laws cells hits m r
        → IsStruckAt core laws cells
            (update hits a (clear_code (hits a)))
            m
            (record r { codes = update r.codes i (core.encode (cells a)) })
    unfolding IsHit
    encoded_here m r i a e struck = AllBelow-of _ r.words λ j lt. elim (ℕ_discrete i j) [
      | yes same ↦
          let here : (a == r.addr + j) ≡ true = ground (arith, e, same) in
          let here' : (i == j) ≡ true = ground (arith, same) in
          let there : a ≡ r.addr + j = ground (arith, e, same) in
          rw (here, here', ap cells there, ap hits there)
            (encoded-IsHit (cells (r.addr + j)) (m.cells (r.addr + j)) (r.codes j)
              (hits (r.addr + j)) (AllBelow-at _ r.words j lt struck))
      | no ne ↦
          let there : (i == j) ≡ false = ground (arith, ne) in
          rw there (
            still-IsHit a (r.addr + j) (m.cells (r.addr + j)) (r.codes j)
              (λ same. ground (arith, e, same, ne)) (AllBelow-at _ r.words j lt struck))
    ]

    pub note_at-struck :
        (rs : List Region) (k i a word : ℕ) (m : Machine)
        → IsPlace rs k i a
        → Disjoint rs
        → AllRegions (IsStruckAt core laws cells hits m) rs
        → AllRegions
            (IsStruckAt core laws cells (update hits a (clear_code (hits a))) m)
            (note_at core k i word (record { status = pos 1; data_word = cells a }) rs m).0
    unfolding note_at note
    note_at-struck [] k i a word m place apart struck = tt
    note_at-struck (r ∷ rs) zero i a word m place apart struck = (
      encoded_here m r i a place.1 struck.0,
      all_elsewhere m r rs i a apart.0 place.0 place.1 struck.1,
    )
    note_at-struck (r ∷ rs) (suc k) i a word m place apart struck = (
      elsewhere m r a (λ j lt. Apart-IsPlace r rs k i a j apart.0 place lt) struck.0,
      note_at-struck rs k i a word m place apart.1 struck.1,
    )
