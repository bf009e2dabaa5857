-- ===== src/Scrubber/Tests.antt =====
-- patches/0009-rustlux-soft-ecc.patch: the theorems at a small memory, with the Rust core.
use linux_rustlux.Base.{
  zero, suc, inr, leb, ◌*◌, ℕ, ◌+◌, ◌<◌, ◌≡◌, refl, true, false, if◌then◌else◌, Option, none, some,
  [], ◌∷◌, inl, arith,
}
use linux_rustlux.Base.Cells.{update}
use linux_rustlux.SoftEcc.Secded.{Flip, data_bit, code_bit, hit_word}
use linux_rustlux.Bits.Count.{count_ones}
use linux_rustlux.InTree.Ecc.{
  secc_encode, secc_verify, secc_judge, secc_data_syndrome, secc_syndrome_loop, secc_is_parity_pos,
  secc_index_loop,
}
use linux_rustlux.Scrubber.Fallback.{
  Hweight, IsHweight, fallback_encode, fallback_verify, fallback_core-same,
}
use linux_rustlux.Scrubber.{
  reseal, Region, Machine, System, settle, scrub_word, scrub_rounds, scrub_region, scrub_regions,
  scrub_fn, protect, init, seal_all,
}
use linux_rustlux.Scrubber.RustCore.{rust_core, rust_core-IsSecded}
use linux_rustlux.Scrubber.Regions.{IsCounting}
use linux_rustlux.Scrubber.Flips.{scrub_region-lost}
use linux_rustlux.Scrubber.Passes.{AllRegions, IsStruckAt, Holds}
use linux_rustlux.Scrubber.Rewrites.{Lives, begun, rewritten, Lives-restored}
use linux_rustlux.Scrubber.Strikes.{strike}
use linux_rustlux.Scrubber.Visits.{
  Scan, Phase, idle, write, advance, load, judge_with, fix_with, note, note_at, hits_after, Moves,
  started, flipped, advanced,
}
use linux_rustlux.Scrubber.Visits.Safe.{Moves-struck}
use linux_rustlux.Scrubber.Visits.Whole.{advances, advances-scrub_fn}
use linux_rustlux.Scrubber.Boot.{powered_on, Boot, powered, wrote, inited, Boot-restored}

-- Each word is its own address, and two regions of two words are sealed.
abbrev table : ℕ → Region
table addr = record {
  label = 0;
  addr = addr;
  words = 2;
  codes = λ j. rust_core.encode (addr + j);
  readonly = true;
}

abbrev memory : Machine
memory = record { cells = λ a. a; corrected = 0; uncorrectable = 0; tainted = false }

memory-IsCounting : IsCounting memory
memory-IsCounting = record { corrected = omega arith; uncorrectable = omega arith }

abbrev system : System
system = record {
  machine = memory;
  regions = table 100 ∷ table 102 ∷ [];
  enabled = true;
  scheduled = true;
}

abbrev steps : ℕ → System → Phase → Scan
steps zero s phase = record { system = s; phase = phase }
steps (suc n) s phase = advance rust_core (steps n s phase).system (steps n s phase).phase

-- A pass begins and reads the word at 100; bit 3 of the word at 101 flips; the pass goes on until it
-- has repaired that word, and then bit 7 of its code flips, just before the code is written anew.
abbrev reading : Scan
reading = steps 2 system idle

abbrev repaired : Scan
repaired = steps 6 (strike 101 (data_bit 3) reading.system) reading.phase

abbrev struck_again : System
struck_again = strike 101 (code_bit 7) repaired.system

abbrev settled : Scan
settled = steps 1 struck_again repaired.phase

abbrev hit : ℕ → Option Flip
hit = update (update (update (λ a. none) 101 (some (data_bit 3))) 101 none) 101 (some (code_bit 7))

moves :
    Moves rust_core system settled.system settled.phase (hits_after hit struck_again repaired.phase)
unfolding strike advance load judge_with fix_with note note_at settle secc_verify secc_judge
    secc_data_syndrome secc_syndrome_loop secc_is_parity_pos secc_encode count_ones
moves = advanced (
    flipped 101 (code_bit 7)
      (advanced (
        advanced (
          advanced (
            advanced (
              advanced (
                advanced
                  (flipped 101 (data_bit 3) (advanced (advanced started)) refl (omega arith))))))))
      refl (omega arith))

Moves-struck_example :
    AllRegions
      (IsStruckAt rust_core rust_core-IsSecded
        (λ a. a)
        (hits_after hit struck_again repaired.phase)
        settled.system.machine)
      settled.system.regions
    × (settled.system.machine.uncorrectable ≡ 0)
    × (settled.system.machine.tainted ≡ false)
Moves-struck_example =
    Moves-struck rust_core rust_core-IsSecded system ((inl (omega arith), tt), (tt, tt))
      memory-IsCounting ((refl, (refl, tt)), ((refl, (refl, tt)), tt)) moves

advances-scrub_fn_example :
    advances rust_core
      (suc (4 * 2 + 1 + (4 * 2 + 1 + 1)))
      (record { system = strike 101 (data_bit 3) system; phase = idle })
    ≡ record { system = scrub_fn rust_core (strike 101 (data_bit 3) system); phase = idle }
unfolding strike
advances-scrub_fn_example = advances-scrub_fn rust_core (strike 101 (data_bit 3) system) refl

-- The section at 100 is registered, and its second word is written to before all is sealed.
abbrev booted : System
booted = write 101 7 (init rust_core 0 100 16 true true (λ j. 0) (powered_on (λ a. a))).0

boot : Boot rust_core booted
boot = wrote 101 7 (inited 0 100 16 true true (λ j. 0) (powered (λ a. a)))

-- Bit 3 of that word flips.
abbrev struck_boot : System
struck_boot = strike 101 (data_bit 3) (seal_all rust_core booted)

Boot-restored_example :
    let u = scrub_fn rust_core struck_boot in
    AllRegions (Holds rust_core rust_core-IsSecded booted.machine.cells u.machine.cells) u.regions
    × (u.machine.uncorrectable ≡ 0)
    × (u.machine.tainted ≡ false)
    × (booted.scheduled ≡ false)
unfolding strike seal_all init protect
Boot-restored_example =
    Boot-restored rust_core rust_core-IsSecded boot (tt, tt)
      (flipped 101 (data_bit 3) started refl (omega arith)) refl

-- Two bits of the first word of a region have flipped.
abbrev lost_memory : Machine
lost_memory = record memory {
  cells = update (λ a. a) 100 (hit_word (data_bit 9) (hit_word (data_bit 3) 100));
}

lost_memory-IsCounting : IsCounting lost_memory
lost_memory-IsCounting = record { corrected = omega arith; uncorrectable = omega arith }

scrub_region-lost_example :
    let t = scrub_region rust_core (table 100) lost_memory in
    (t.1.cells 100 ≡ lost_memory.cells 100)
    × (t.0.codes 0 ≡ rust_core.encode (lost_memory.cells 100))
    × (0 < t.1.uncorrectable)
    × (t.1.tainted ≡ true)
scrub_region-lost_example =
    scrub_region-lost rust_core rust_core-IsSecded (table 100) lost_memory 100 0 (data_bit 3)
      (data_bit 9) lost_memory-IsCounting (omega arith) (omega arith) (omega arith) (omega arith)
      (λ e. absurd (grind arith)) refl refl

abbrev hweight : Hweight
hweight = record { hweight64 = count_ones 64; hweight8 = count_ones 8 }

hweight-IsHweight : IsHweight hweight
hweight-IsHweight = record { ones64 = λ x. refl; ones8 = λ x. refl }

fallback_core-same_example :
    (fallback_encode hweight 0xdead_beef ≡ secc_encode 0xdead_beef)
    × (fallback_verify hweight 0xdead_beef 5 ≡ secc_verify 0xdead_beef 5)
fallback_core-same_example =
    fallback_core-same hweight hweight-IsHweight 0xdead_beef 5 (omega arith)

-- The table at 102 is written to on purpose.
abbrev written : ℕ → ℕ
written a = if leb 102 a then a * 3 else a

-- It is resealed, and then bit 3 of its first word flips.
abbrev resealed : System
resealed = reseal rust_core 102 (record system { machine = record memory { cells = written } })

rewritten_once : Lives rust_core system resealed
rewritten_once =
    rewritten 102 written begun started ((refl, (refl, tt)), ((refl, (refl, tt)), tt))
      (inr (refl, (refl, tt)), (inl refl, tt))

Lives-restored_example :
    let u = scrub_fn rust_core (strike 102 (data_bit 3) resealed) in
    AllRegions (Holds rust_core rust_core-IsSecded written u.machine.cells) u.regions
    × (u.machine.uncorrectable ≡ 0)
    × (u.machine.tainted ≡ false)
unfolding strike reseal
Lives-restored_example =
    Lives-restored rust_core rust_core-IsSecded system ((inl (omega arith), tt), (tt, tt))
      (omega arith, (omega arith, tt)) memory-IsCounting
      ((refl, (refl, tt)), ((refl, (refl, tt)), tt)) rewritten_once
      (flipped 102 (data_bit 3) started refl (omega arith)) refl

-- A pass before the resealing writes the old value back, where the new one differs in one bit.
undone :
    let s = reseal rust_core 102 (scrub_fn rust_core (write 102 110 system)) in
    s.machine.cells 102 ≡ 102
unfolding reseal scrub_fn scrub_regions scrub_region scrub_rounds scrub_word settle secc_verify
    secc_judge secc_data_syndrome secc_syndrome_loop secc_index_loop secc_is_parity_pos secc_encode
    count_ones
undone = refl
