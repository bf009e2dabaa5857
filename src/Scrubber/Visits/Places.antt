-- ===== src/Scrubber/Visits/Places.antt =====
-- patches/0009-rustlux-soft-ecc.patch: which word is visited.
use linux_rustlux.Base.{
  ℕ, zero, suc, ◌+◌, ◌<◌, ◌≡◌, ◌≢◌, refl, sym, subst, some, List, [], ◌∷◌, get_elem?, arith,
}
use linux_rustlux.SoftEcc.Secded.{Flip}
use linux_rustlux.Scrubber.{Region}
use linux_rustlux.Scrubber.Passes.{AllRegions, Apart}
use linux_rustlux.Scrubber.Strikes.{strike_codes, strike_code}

-- `a` is the address of word `i` of region `k`.
abbrev pub IsPlace : List Region → ℕ → ℕ → ℕ → Type 0
IsPlace [] k i a = ⊥
IsPlace (r ∷ rs) zero i a = (i < r.words) × (r.addr + i ≡ a)
IsPlace (r ∷ rs) (suc k) i a = IsPlace rs k i a

pub strike_codes-IsPlace :
    (b : ℕ) (x : Flip) (rs : List Region) (k i a : ℕ)
    → IsPlace rs k i a
    → IsPlace (strike_codes b x rs) k i a
unfolding strike_codes strike_code
strike_codes-IsPlace b x [] k i a place = elim place [ ]
strike_codes-IsPlace b x (r ∷ rs) zero i a place = place
strike_codes-IsPlace b x (r ∷ rs) (suc k) i a place = strike_codes-IsPlace b x rs k i a place

pub get_elem-IsPlace :
    (rs : List Region) (k i : ℕ) (r : Region)
    → get_elem? rs k ≡ some r
    → i < r.words
    → IsPlace rs k i (r.addr + i)
get_elem-IsPlace [] k i r e lt = absurd (cc e)
get_elem-IsPlace (q ∷ rs) zero i r e lt =
    let same : q ≡ r = cc e in
    subst (λ (p : Region). (i < p.words) × (p.addr + i ≡ r.addr + i)) (sym same) (lt, refl)
get_elem-IsPlace (q ∷ rs) (suc k) i r e lt = get_elem-IsPlace rs k i r e lt

-- The region of a place.
pub record IsFound (P : Region → Type 0) (rs : List Region) (k i a : ℕ) (r : Region) : Type 0 where
  pub found : get_elem? rs k ≡ some r
  pub holds : P r
  pub within : i < r.words
  pub address : r.addr + i ≡ a

pub place-IsFound :
    (P : Region → Type 0) (rs : List Region) (k i a : ℕ)
    → AllRegions P rs
    → IsPlace rs k i a
    → (r : Region) × IsFound P rs k i a r
place-IsFound P [] k i a all place = elim place [ ]
place-IsFound P (q ∷ rs) zero i a all place =
    (q, record { found = refl; holds = all.0; within = place.0; address = place.1 })
place-IsFound P (q ∷ rs) (suc k) i a all place =
    let (r, f) = place-IsFound P rs k i a all.1 place in
    (r, record { found = f.found; holds = f.holds; within = f.within; address = f.address })

-- No word of a region that is apart is at the place.
pub Apart-IsPlace :
    (r : Region) (rs : List Region) (k i a j : ℕ)
    → AllRegions (Apart r) rs
    → IsPlace rs k i a
    → j < r.words
    → r.addr + j ≢ a
Apart-IsPlace r [] k i a j apart place lt e = place
Apart-IsPlace r (q ∷ rs) zero i a j apart place lt e = ground (arith, apart.0, place, lt, e)
Apart-IsPlace r (q ∷ rs) (suc k) i a j apart place lt e =
    Apart-IsPlace r rs k i a j apart.1 place lt e
