-- ===== src/Scrubber.antt =====
-- patches/0009-rustlux-soft-ecc.patch, as changed by 0012-rustlux-softecc-seal-after-ro.patch:
-- mm/rustlux_softecc.c, which keeps a code byte for each word of some regions of the kernel's
-- memory and repairs the words from time to time. Memory is a function of the word's address;
-- regions are handed a first word and a number of words. The core that encodes and verifies one
-- word is a parameter, since the kernel is built with the Rust one or with the C one.
pub mod Core
pub mod RustCore
pub mod Regions
pub mod Repair
pub mod Flips
pub mod Passes
pub mod Seal
pub mod Reseal
pub mod Strikes
pub mod Sound
pub mod Boot
pub mod Rewrites
pub mod Visits
pub mod Fallback
mod Tests
use linux_rustlux.Base.{
  ℕ, zero, suc, ◌+◌, ◌/◌, ◌%◌, ◌^◌, Bool, true, false, not, ◌==◌, if◌then◌else◌, u64, ℤ, pos,
  negsuc, List, [], ◌∷◌, ◌++◌,
}
use linux_rustlux.Base.Cells.{update}
use linux_rustlux.InTree.Ecc.{SeccResult}

-- The functions rustlux_softecc_encode and rustlux_softecc_verify.
pub record SeccCore : Type 0 where
  pub encode : ℕ → ℕ
  pub verify : ℕ → ℕ → SeccResult

pub record Region : Type 0 where
  pub label : ℕ
  pub addr : ℕ
  pub words : ℕ
  pub codes : ℕ → ℕ
  pub readonly : Bool

-- The memory, the two counters, and whether the kernel is tainted.
pub record Machine : Type 0 where
  pub cells : ℕ → ℕ
  pub corrected : ℕ
  pub uncorrectable : ℕ
  pub tainted : Bool

pub record System : Type 0 where
  pub machine : Machine
  pub regions : List Region
  pub enabled : Bool
  pub scheduled : Bool

module _ (core : SeccCore) where
  unfoldable pub fix_word : Region → ℕ → ℕ → Machine → Machine
  fix_word r i good m = record m { cells = update m.cells (r.addr + i) good }

  -- The `switch` on the status of the word that was read.
  unfoldable pub settle : Region → ℕ → ℕ → Machine → ℤ → ℕ → Region × Machine
  unfolding fix_word
  settle r i word m (pos (suc zero)) good = (
    record r { codes = update r.codes i (core.encode good) },
    record (fix_word r i good m) { corrected = u64 (m.corrected + 1) },
  )
  settle r i word m (negsuc zero) good = (
    record r { codes = update r.codes i (core.encode word) },
    record m { uncorrectable = u64 (m.uncorrectable + 1); tainted = true },
  )
  settle r i word m status good = (r, m)

  unfoldable pub scrub_word : ℕ → Region × Machine → Region × Machine
  unfolding settle
  scrub_word i (r, m) =
      let word = m.cells (r.addr + i) in
      let res = core.verify word (r.codes i) in settle r i word m res.status res.data_word

  -- `for (i = 0; i < words; i++)`, after the rounds below `n`.
  unfoldable pub scrub_rounds : ℕ → Region × Machine → Region × Machine
  scrub_rounds zero s = s
  scrub_rounds (suc n) s = scrub_word n (scrub_rounds n s)

  unfoldable pub scrub_region : Region → Machine → Region × Machine
  scrub_region r m = scrub_rounds r.words (r, m)

  -- `list_for_each_entry`
  unfoldable pub scrub_regions : List Region → Machine → List Region × Machine
  scrub_regions [] m = ([], m)
  scrub_regions (r ∷ rs) m =
      let (r', m') = scrub_region r m in let (rs', m'') = scrub_regions rs m' in (r' ∷ rs', m'')

  unfoldable pub scrub_fn : System → System
  scrub_fn s =
      if s.enabled
      then (let (regions, machine) = scrub_regions s.regions s.machine in
          record s { machine = machine; regions = regions; scheduled = true })
      else record s { scheduled = true }

  -- The codes after the rounds below `n` of the loop that encodes a region's words.
  unfoldable pub encode_rounds : ℕ → (ℕ → ℕ) → Region → ℕ → ℕ
  encode_rounds zero cells r = r.codes
  encode_rounds (suc n) cells r =
      update (encode_rounds n cells r) n (core.encode (cells (r.addr + n)))

  unfoldable pub seal : (ℕ → ℕ) → Region → Region
  unfolding encode_rounds
  seal cells r = record r { codes = encode_rounds r.words cells r }

  -- `size / sizeof(u64)` words; -12 is -ENOMEM. The two flags say whether kzalloc and kvmalloc
  -- find memory; what kvmalloc returns is not initialised, and `garbage`.
  unfoldable pub protect : ℕ → ℕ → ℕ → Bool → Bool → Bool → (ℕ → ℕ) → System → System × ℤ
  unfolding seal
  protect label addr size readonly region_found codes_found garbage s =
      if not region_found
      then (s, negsuc 11)
      else if not codes_found
      then (s, negsuc 11)
      else (let r : Region = record {
        label = label;
        addr = addr;
        words = size / 8;
        codes = garbage;
        readonly = readonly;
      } in
          (record s { regions = s.regions ++ seal s.machine.cells r ∷ [] }, pos 0))

  -- The first region that starts at `addr`; then `break`.
  unfoldable pub reseal_regions : ℕ → (ℕ → ℕ) → List Region → List Region
  reseal_regions addr cells [] = []
  reseal_regions addr cells (r ∷ rs) =
      if r.addr == addr then seal cells r ∷ rs else r ∷ reseal_regions addr cells rs

  unfoldable pub reseal : ℕ → System → System
  unfolding reseal_regions
  reseal addr s = record s { regions = reseal_regions addr s.machine.cells s.regions }

  unfoldable pub seal_regions : (ℕ → ℕ) → List Region → List Region
  seal_regions cells [] = []
  seal_regions cells (r ∷ rs) = seal cells r ∷ seal_regions cells rs

  unfoldable pub seal_all : System → System
  unfolding seal_regions
  seal_all s = record s { regions = seal_regions s.machine.cells s.regions; scheduled = true }

  -- `rustlux_softecc_init`, which only registers, for the section from `start` on.
  unfoldable pub init : ℕ → ℕ → ℕ → Bool → Bool → (ℕ → ℕ) → System → System × ℤ
  unfolding protect
  init label start size region_found codes_found garbage s =
      ((protect label start size true region_found codes_found garbage s).0, pos 0)
