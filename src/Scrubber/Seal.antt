-- ===== src/Scrubber/Seal.antt =====
-- patches/0009-rustlux-soft-ecc.patch and 0012-rustlux-softecc-seal-after-ro.patch: registering,
-- sealing and resealing regions.
use linux_rustlux.Base.{
  ℕ, zero, suc, ◌+◌, Bool, true, false, ltb, if◌then◌else◌, ◌≡◌, refl, List, [], ◌∷◌, ◌++◌, pos,
  negsuc, ◌&&◌, arith,
}
use linux_rustlux.Base.Cells.{AllBelow-of}
use linux_rustlux.Scrubber.{
  SeccCore, Region, Machine, System, scrub_regions, scrub_fn, encode_rounds, seal, protect,
  seal_regions, seal_all,
}
use linux_rustlux.Scrubber.Core.{IsSecded}
use linux_rustlux.Scrubber.Repair.{IsSealed, scrub_region-eq}
use linux_rustlux.Scrubber.Passes.{AllRegions}

module _ (core : SeccCore) where
  encode_rounds_lem :
      (n : ℕ) (cells : ℕ → ℕ) (r : Region) (j : ℕ)
      → encode_rounds core n cells r j
        ≡ (if ltb j n then core.encode (cells (r.addr + j)) else r.codes j)
  unfolding encode_rounds
  encode_rounds_lem zero cells r j = ground arith
  encode_rounds_lem (suc n) cells r j = ground (arith, encode_rounds_lem n cells r j)

  pub seal-IsSealed : (cells : ℕ → ℕ) (r : Region) → IsSealed core cells (seal core cells r)
  unfolding seal
  seal-IsSealed cells r =
      AllBelow-of _ r.words λ j lt. ground (arith, encode_rounds_lem r.words cells r j)

  pub seal_regions-IsSealed :
      (cells : ℕ → ℕ) (rs : List Region)
      → AllRegions (IsSealed core cells) (seal_regions core cells rs)
  unfolding seal_regions
  seal_regions-IsSealed cells [] = tt
  seal_regions-IsSealed cells (r ∷ rs) = (seal-IsSealed cells r, seal_regions-IsSealed cells rs)

  AllRegions-append :
      (P : Region → Type 0) (rs : List Region) (r : Region)
      → AllRegions P rs
      → P r
      → AllRegions P (rs ++ r ∷ [])
  AllRegions-append P [] r p q = (q, tt)
  AllRegions-append P (x ∷ rs) r p q = (p.0, AllRegions-append P rs r p.1 q)

  abbrev pub AllSealed : System → Type 0
  AllSealed s = AllRegions (IsSealed core s.machine.cells) s.regions

  -- Where all regions are sealed, registering one keeps all sealed and the memory as it is; it
  -- fails with -ENOMEM exactly when one of the two allocations fails.
  protect_lem :
      (label addr size : ℕ) (readonly region_found codes_found : Bool) (garbage : ℕ → ℕ)
      (s : System)
      → AllSealed s
      → let (s', error) =
          protect core label addr size readonly region_found codes_found garbage s in
        AllSealed s'
        × (s'.machine ≡ s.machine)
        × (error ≡ (if region_found && codes_found then pos 0 else negsuc 11))
  unfolding protect
  protect_lem label addr size readonly true true garbage s sealed =
      (AllRegions-append _ s.regions _ sealed (seal-IsSealed s.machine.cells _), refl, refl)
  protect_lem label addr size readonly true false garbage s sealed = (sealed, refl, refl)
  protect_lem label addr size readonly false codes_found garbage s sealed = (sealed, refl, refl)

  module _ (laws : IsSecded core) where
    pub scrub_regions-eq :
        (rs : List Region) (m : Machine)
        → AllRegions (IsSealed core m.cells) rs
        → scrub_regions core rs m ≡ (rs, m)
    unfolding scrub_regions
    scrub_regions-eq [] m sealed = refl
    scrub_regions-eq (r ∷ rs) m sealed =
        rw (scrub_region-eq core laws r m sealed.0, scrub_regions-eq rs m sealed.1)

    -- A pass right after everything has been sealed changes nothing.
    scrub_fn-seal_all : (s : System) → scrub_fn core (seal_all core s) ≡ seal_all core s
    unfolding scrub_fn seal_all
    scrub_fn-seal_all s = ground (
      arith,
      scrub_regions-eq (seal_regions core s.machine.cells s.regions) s.machine
          (seal_regions-IsSealed s.machine.cells s.regions),
    )
