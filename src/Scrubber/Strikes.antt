-- ===== src/Scrubber/Strikes.antt =====
-- patches/0009-rustlux-soft-ecc.patch: a flip of one bit of a word or of its code, and what it leaves
-- of regions that were whole there.
use linux_rustlux.Base.{
  ℕ, ◌+◌, true, false, ◌==◌, if◌then◌else◌, ◌≡◌, refl, ◌∙◌, sym, ap, subst, Option, none, some,
  List, [], ◌∷◌, arith, ℕ_discrete,
}
use linux_rustlux.Base.Cells.{update, AllBelow-of, AllBelow-at}
use linux_rustlux.SoftEcc.Secded.{Flip, IsFlip, hit_word, hit_code}
use linux_rustlux.Scrubber.{SeccCore, Region, Machine, System}
use linux_rustlux.Scrubber.Core.{IsSecded}
use linux_rustlux.Scrubber.Flips.{IsStrike, struck_word, struck_code}
use linux_rustlux.Scrubber.Passes.{AllRegions, Apart, Disjoint, IsStruckAt, Holds}

-- The byte that guards the word at `a` is struck.
unfoldable pub strike_code : ℕ → Flip → Region → Region
strike_code a x r = record r {
  codes = λ j. if r.addr + j == a then hit_code x (r.codes j) else r.codes j;
}

unfoldable pub strike_codes : ℕ → Flip → List Region → List Region
unfolding strike_code
strike_codes a x [] = []
strike_codes a x (r ∷ rs) = strike_code a x r ∷ strike_codes a x rs

unfoldable pub strike : ℕ → Flip → System → System
unfolding strike_codes strike_code
strike a x s = record s {
  machine = record s.machine { cells = update s.machine.cells a (hit_word x (s.machine.cells a)) };
  regions = strike_codes a x s.regions;
}

strike_codes-Apart :
    (a : ℕ) (x : Flip) (r : Region) (rs : List Region)
    → AllRegions (Apart r) rs
    → AllRegions (Apart r) (strike_codes a x rs)
unfolding strike_codes strike_code
strike_codes-Apart a x r [] apart = tt
strike_codes-Apart a x r (q ∷ rs) apart = (apart.0, strike_codes-Apart a x r rs apart.1)

pub strike_codes-Disjoint :
    (a : ℕ) (x : Flip) (rs : List Region) → Disjoint rs → Disjoint (strike_codes a x rs)
unfolding strike_codes strike_code
strike_codes-Disjoint a x [] apart = tt
strike_codes-Disjoint a x (r ∷ rs) apart =
    (strike_codes-Apart a x r rs apart.0, strike_codes-Disjoint a x rs apart.1)

module _ (core : SeccCore) (laws : IsSecded core) (cells : ℕ → ℕ) where
  -- A word that was whole has then been struck once.
  struck_at :
      (hits : ℕ → Option Flip) (found : ℕ → ℕ) (a : ℕ) (x : Flip) (b code : ℕ)
      → hits a ≡ none
      → IsFlip x
      → IsStrike (hits b)
        × (found b ≡ struck_word (hits b) (cells b))
        × (code ≡ struck_code (hits b) (core.encode (cells b)))
      → let hits' = update hits a (some x) in
        IsStrike (hits' b)
        × (update found a (hit_word x (found a)) b ≡ struck_word (hits' b) (cells b))
        × ((if b == a then hit_code x code else code)
            ≡ struck_code (hits' b) (core.encode (cells b)))
  struck_at hits found a x b code whole flip before = elim (ℕ_discrete a b) [
    | yes e ↦
        let here : (a == b) ≡ true = ground (arith, e) in
        let here' : (b == a) ≡ true = ground (arith, e) in
        let (h, w, c) =
          subst
            (λ (k : Option Flip).
              IsStrike k
              × (found b ≡ struck_word k (cells b))
              × (code ≡ struck_code k (core.encode (cells b))))
            (ap hits (sym e) ∙ whole) before in
        rw (here, here', ap found e, w, c) (flip, refl, refl)
    | no ne ↦
        let there : (a == b) ≡ false = ground (arith, ne) in
        let there' : (b == a) ≡ false = ground (arith, ne) in rw (there, there') before
  ]

  pub strike_codes-struck :
      (hits : ℕ → Option Flip) (m : Machine) (a : ℕ) (x : Flip) (rs : List Region)
      → hits a ≡ none
      → IsFlip x
      → AllRegions (IsStruckAt core laws cells hits m) rs
      → AllRegions
          (IsStruckAt core laws cells
            (update hits a (some x))
            (record m { cells = update m.cells a (hit_word x (m.cells a)) }))
          (strike_codes a x rs)
  unfolding strike_codes strike_code
  strike_codes-struck hits m a x [] whole flip struck = tt
  strike_codes-struck hits m a x (r ∷ rs) whole flip struck = (
    AllBelow-of _ r.words λ j lt.
        struck_at hits m.cells a x (r.addr + j) (r.codes j) whole flip
          (AllBelow-at _ r.words j lt struck.0),
    strike_codes-struck hits m a x rs whole flip struck.1,
  )

  -- What holds regions of `cells` holds them struck by no flip.
  pub Holds-struck :
      (m : Machine) (rs : List Region)
      → AllRegions (Holds core laws cells m.cells) rs
      → AllRegions (IsStruckAt core laws cells (λ a. none) m) rs
  Holds-struck m [] all = tt
  Holds-struck m (r ∷ rs) all = (
    AllBelow-of _ r.words λ j lt. let (w, c) = AllBelow-at _ r.words j lt all.0 in (tt, w, c),
    Holds-struck m rs all.1,
  )
