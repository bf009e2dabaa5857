-- ===== src/Cachy/Inherit/Scan.antt =====
-- patches/0002-bore-cachy.patch: the scan of the children stays in bounds.
use linux_rustlux.Base.{
  ℕ, ◌+◌, ◌*◌, ◌^◌, ◌≤◌, ◌<◌, not, leb, true, false, dec_lt, ◌≡◌, u32, List, [], ◌∷◌, either_way,
  arith,
}
use linux_rustlux.Cachy.Inherit.{Child, scan_children}

abbrev pub AllPenalties : List Child → Type 0
AllPenalties [] = Unit
AllPenalties (child ∷ children) = (child.penalty < 2 ^ 16) × AllPenalties children

abbrev pub AllUpTo : ℕ → List Child → Type 0
AllUpTo limit [] = Unit
AllUpTo limit (child ∷ children) = (child.penalty ≤ limit) × AllUpTo limit children

pub AllUpTo-AllPenalties : (children : List Child) → AllPenalties children → AllUpTo 65535 children
AllUpTo-AllPenalties [] small = tt
AllUpTo-AllPenalties (child ∷ children) small =
    (omega (arith, small.0), AllUpTo-AllPenalties children small.1)

-- At most 63 children are counted, of at most the limit each.
abbrev pub InBounds : ℕ → ℕ × ℕ → Type 0
InBounds limit t = (t.0 ≤ 63) × (t.1 ≤ t.0 * limit)

one_more :
    (limit count total penalty : ℕ)
    → limit ≤ 65535
    → count < 63
    → penalty ≤ limit
    → total ≤ count * limit
    → InBounds limit (count + 1, u32 (total + penalty))
one_more limit count total penalty narrow few small le = grind arith

pub scan_children-InBounds :
    (limit : ℕ) (children : List Child) (count total scan_count : ℕ)
    → limit ≤ 65535
    → AllUpTo limit children
    → InBounds limit (count, total)
    → InBounds limit (scan_children children count total scan_count)
unfolding scan_children
scan_children-InBounds limit [] count total scan_count narrow small fits = fits
scan_children-InBounds limit (child ∷ children) count total scan_count narrow small fits =
    let next = scan_count + 1 in
    let skipped = scan_children-InBounds limit children count total next narrow small.1 fits in
    elim (dec_lt count 63) [
      | yes few ↦
          let room : leb 63 count ≡ false = ground (arith, few) in
          let counted =
            scan_children-InBounds limit children (count + 1) (u32 (total + child.penalty)) next
              narrow small.1 (one_more limit count total child.penalty narrow few small.0 fits.1) in
          rw room (
            either_way (InBounds limit) (leb 126 scan_count) fits
              (either_way (InBounds limit) (not child.is_eligible) skipped counted))
      | no many ↦ let full : leb 63 count ≡ true = ground (arith, many) in rw full fits
    ]
