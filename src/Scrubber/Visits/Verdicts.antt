-- ===== src/Scrubber/Visits/Verdicts.antt =====
-- patches/0009-rustlux-soft-ecc.patch: what a pass has read of a word and found of it, while flips
-- go on.
use linux_rustlux.Base.{
  ℕ, ◌+◌, ◌==◌, false, ◌≡◌, ◌⊎◌, inl, inr, refl, sym, ap, subst, pos, Option, none, some, List,
  get_elem?, ℕ_discrete, arith,
}
use linux_rustlux.Base.Cells.{update, AllBelow-at}
use linux_rustlux.InTree.Ecc.{SeccResult}
use linux_rustlux.SoftEcc.Secded.{Flip, data_bit, code_bit, hit_word}
use linux_rustlux.Scrubber.{SeccCore, Region, Machine, System}
use linux_rustlux.Scrubber.Core.{IsSecded}
use linux_rustlux.Scrubber.Flips.{IsStrike, struck_word, struck_code}
use linux_rustlux.Scrubber.Passes.{AllRegions, IsStruckAt}
use linux_rustlux.Scrubber.Strikes.{strike}
use linux_rustlux.Scrubber.Visits.{Phase, idle, at, loaded, judged, fixed}
use linux_rustlux.Scrubber.Visits.Places.{IsPlace, place-IsFound, strike_codes-IsPlace}

-- A word that was read is the sealed one, or that one after the flip that still strikes it.
abbrev pub Seen : Option Flip → ℕ → ℕ → Type 0
Seen h word found = (found ≡ word) ⊎ ((x : Flip) × (h ≡ some x) × (found ≡ hit_word x word))

-- A verdict is that the word is clean, or what the struck word was.
abbrev pub Verdict : ℕ → SeccResult → Type 0
Verdict word res =
    (res ≡ record { status = pos 0; data_word = word })
    ⊎ (res ≡ record { status = pos 1; data_word = word })

module _ (core : SeccCore) (laws : IsSecded core) where
  pub verify-Verdict :
      (h : Option Flip) (word found code : ℕ)
      → IsStrike h
      → code ≡ struck_code h (core.encode word)
      → Seen h word found
      → Verdict word (core.verify found code)
  verify-Verdict none word found code flip c (inl e) = rw (c, e) (inl (laws.clean word))
  verify-Verdict none word found code flip c (inr (x, h, e)) = absurd (cc h)
  verify-Verdict (some (data_bit i)) word found code flip c (inl e) =
      rw (c, e) (inl (laws.clean word))
  verify-Verdict (some (code_bit i)) word found code flip c (inl e) =
      rw (c, e) (inr (laws.one_flip word (code_bit i) flip))
  verify-Verdict (some x) word found code flip c (inr (y, h, e)) =
      let same : x ≡ y = cc h in rw (c, e, sym same) (inr (laws.one_flip word x flip))

  pub place-struck :
      (cells : ℕ → ℕ) (hits : ℕ → Option Flip) (m : Machine) (rs : List Region) (k i a : ℕ)
      → AllRegions (IsStruckAt core laws cells hits m) rs
      → IsPlace rs k i a
      → (r : Region) × (get_elem? rs k ≡ some r)
        × (r.addr + i ≡ a)
        × IsStrike (hits a)
        × (m.cells a ≡ struck_word (hits a) (cells a))
        × (r.codes i ≡ struck_code (hits a) (core.encode (cells a)))
  place-struck cells hits m rs k i a struck place =
      let (r, f) = place-IsFound (IsStruckAt core laws cells hits m) rs k i a struck place in
      let (flip, word, code) =
        subst
          (λ b.
            IsStrike (hits b)
            × (m.cells b ≡ struck_word (hits b) (cells b))
            × (r.codes i ≡ struck_code (hits b) (core.encode (cells b))))
          f.address (AllBelow-at _ r.words i f.within f.holds) in
      (r, f.found, f.address, flip, word, code)

-- What is read of a struck word.
pub struck-Seen :
    (h : Option Flip) (word found : ℕ) → found ≡ struck_word h word → Seen h word found
struck-Seen none word found e = inl e
struck-Seen (some x) word found e = inr (x, refl, e)

hit-stays :
    (hits : ℕ → Option Flip) (a b : ℕ) (x y : Flip)
    → hits a ≡ none
    → hits b ≡ some y
    → update hits a (some x) b ≡ some y
hit-stays hits a b x y whole struck = elim (ℕ_discrete a b) [
  | yes e ↦ absurd (cc (whole, struck, ap hits e))
  | no ne ↦ let there : (a == b) ≡ false = ground (arith, ne) in rw there struck
]

module _ (cells : ℕ → ℕ) where
  abbrev pub InPhase : List Region → (ℕ → Option Flip) → Phase → Type 0
  InPhase rs hits idle = Unit
  InPhase rs hits (at k i) = Unit
  InPhase rs hits (loaded k i word) = (a : ℕ) × IsPlace rs k i a × Seen (hits a) (cells a) word
  InPhase rs hits (judged k i word res) = (a : ℕ) × IsPlace rs k i a × Verdict (cells a) res
  InPhase rs hits (fixed k i word res) = (a : ℕ) × IsPlace rs k i a × Verdict (cells a) res

  pub strike-InPhase :
      (s : System) (hits : ℕ → Option Flip) (phase : Phase) (a : ℕ) (x : Flip)
      → hits a ≡ none
      → InPhase s.regions hits phase
      → InPhase (strike a x s).regions (update hits a (some x)) phase
  unfolding strike
  strike-InPhase s hits idle a x whole before = tt
  strike-InPhase s hits (at k i) a x whole before = tt
  strike-InPhase s hits (loaded k i word) a x whole (b, place, inl e) =
      (b, strike_codes-IsPlace a x s.regions k i b place, inl e)
  strike-InPhase s hits (loaded k i word) a x whole (b, place, inr (y, h, e)) = (
    b,
    strike_codes-IsPlace a x s.regions k i b place,
    inr (y, hit-stays hits a b x y whole h, e),
  )
  strike-InPhase s hits (judged k i word res) a x whole (b, place, verdict) =
      (b, strike_codes-IsPlace a x s.regions k i b place, verdict)
  strike-InPhase s hits (fixed k i word res) a x whole (b, place, verdict) =
      (b, strike_codes-IsPlace a x s.regions k i b place, verdict)
