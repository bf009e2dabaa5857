-- ===== src/Scrubber/Visits/Advance.antt =====
-- patches/0009-rustlux-soft-ecc.patch: a step of a pass keeps each word struck at most once.
use linux_rustlux.Base.{
  ℕ, ◌+◌, ltb, true, false, ◌≡◌, inl, inr, refl, sym, subst, pos, Option, none, some, get_elem?,
  arith, dec_lt, either_way,
}
use linux_rustlux.InTree.Ecc.{SeccResult}
use linux_rustlux.SoftEcc.Secded.{Flip}
use linux_rustlux.Scrubber.{SeccCore, Region, Machine, System, fix_word}
use linux_rustlux.Scrubber.Core.{IsSecded}
use linux_rustlux.Scrubber.Sound.{Sound, toggle-Sound}
use linux_rustlux.Scrubber.Visits.{
  Scan, Phase, idle, at, loaded, judged, fixed, load, judge_with, fix_with, advance, clear_word,
  clear_code, hits_at, hits_after,
}
use linux_rustlux.Scrubber.Visits.Places.{IsPlace, get_elem-IsPlace}
use linux_rustlux.Scrubber.Visits.Settles.{
  note_at-clean, note_at-machine, note_at-Disjoint, note_at-struck, fix-struck,
}
use linux_rustlux.Scrubber.Visits.Verdicts.{verify-Verdict, place-struck, struck-Seen, InPhase}

hits_at-clean :
    (clear : Option Flip → Option Flip) (hits : ℕ → Option Flip) (good i : ℕ) (o : Option Region)
    → hits_at clear hits (record { status = pos 0; data_word = good }) i o ≡ hits
hits_at-clean clear hits good i none = refl
hits_at-clean clear hits good i (some r) = refl

fix_with-clean :
    (core : SeccCore) (good i : ℕ) (m : Machine) (o : Option Region)
    → fix_with core i (record { status = pos 0; data_word = good }) m o ≡ m
unfolding fix_with
fix_with-clean core good i m none = refl
fix_with-clean core good i m (some r) = refl

module _ (core : SeccCore) (laws : IsSecded core) (start : System) where
  -- Regions are sound, and what the pass has read and found is as it should be.
  abbrev pub IsSafe : (ℕ → Option Flip) → Scan → Type 0
  IsSafe hits t =
      Sound core laws start t.system hits
      × InPhase start.machine.cells t.system.regions hits t.phase

  load-IsSafe :
      (s : System) (hits : ℕ → Option Flip) (k i : ℕ) (o : Option Region)
      → get_elem? s.regions k ≡ o
      → Sound core laws start s hits
      → IsSafe hits (load s k i o)
  unfolding load
  load-IsSafe s hits k i none e sound =
      (toggle-Sound core laws start s hits s.enabled true sound, tt)
  load-IsSafe s hits k i (some r) e sound = (
    sound,
    elim (dec_lt i r.words) [
      | yes lt ↦
          let below : ltb i r.words ≡ true = ground (arith, lt) in
          rw below (
            let place = get_elem-IsPlace s.regions k i r e lt in
            let (q, found, address, flip, word, code) =
              place-struck core laws start.machine.cells hits s.machine s.regions k i (r.addr + i)
                sound.struck place in
            (
              r.addr + i,
              place,
              struck-Seen (hits (r.addr + i)) (start.machine.cells (r.addr + i)) _ word,
            ))
      | no ge ↦ let beyond : ltb i r.words ≡ false = ground (arith, ge) in rw beyond tt
    ],
  )

  judge-IsSafe :
      (s : System) (hits : ℕ → Option Flip) (k i word : ℕ)
      → IsSafe hits (record { system = s; phase = loaded k i word })
      → IsSafe hits
          (record { system = s; phase = judge_with core.verify k i word (get_elem? s.regions k) })
  unfolding judge_with
  judge-IsSafe s hits k i word (sound, (a, place, seen)) =
      let (r, found, address, flip, read, code) =
        place-struck core laws start.machine.cells hits s.machine s.regions k i a sound.struck
          place in
      rw found (
        sound,
        (
          a,
          place,
          verify-Verdict core laws (hits a) (start.machine.cells a) word (r.codes i) flip code seen,
        ),
      )

  -- A clean word is left alone.
  fix_clean-IsSafe :
      (s : System) (hits : ℕ → Option Flip) (k i word a : ℕ)
      → Sound core laws start s hits
      → IsPlace s.regions k i a
      → let res : SeccResult = record { status = pos 0; data_word = start.machine.cells a } in
        IsSafe (hits_after hits s (judged k i word res)) (advance core s (judged k i word res))
  unfolding advance
  fix_clean-IsSafe s hits k i word a sound place =
      rw
        (
          fix_with-clean core (start.machine.cells a) i s.machine (get_elem? s.regions k),
          hits_at-clean clear_word hits (start.machine.cells a) i (get_elem? s.regions k),
        )
        (sound, (a, place, inl refl))

  note_clean-IsSafe :
      (s : System) (hits : ℕ → Option Flip) (k i word good : ℕ)
      → Sound core laws start s hits
      → let res : SeccResult = record { status = pos 0; data_word = good } in
        IsSafe (hits_after hits s (fixed k i word res)) (advance core s (fixed k i word res))
  unfolding advance
  note_clean-IsSafe s hits k i word good sound =
      rw
        (
          note_at-clean core s.regions k i word good s.machine,
          hits_at-clean clear_code hits good i (get_elem? s.regions k),
        )
        (sound, tt)

  -- A word that was found is written.
  fix-IsSafe :
      (s : System) (hits : ℕ → Option Flip) (k i word a : ℕ)
      → Sound core laws start s hits
      → IsPlace s.regions k i a
      → let res : SeccResult = record { status = pos 1; data_word = start.machine.cells a } in
        IsSafe (hits_after hits s (judged k i word res)) (advance core s (judged k i word res))
  unfolding advance fix_with fix_word
  fix-IsSafe s hits k i word a sound place =
      let (r, found, address, flip, read, code) =
        place-struck core laws start.machine.cells hits s.machine s.regions k i a sound.struck
          place in
      rw (found, address)
        (
          record {
            apart = sound.apart;
            counting = record {
              corrected = sound.counting.corrected;
              uncorrectable = sound.counting.uncorrectable;
            };
            struck =
                fix-struck core laws start.machine.cells hits s.machine a s.regions sound.struck;
            uncorrectable = sound.uncorrectable;
            tainted = sound.tainted;
          },
          (a, place, inr refl),
        )

  -- And then its code, which counts.
  note-IsSafe :
      (s : System) (hits : ℕ → Option Flip) (k i word a : ℕ)
      → Sound core laws start s hits
      → IsPlace s.regions k i a
      → let res : SeccResult = record { status = pos 1; data_word = start.machine.cells a } in
        IsSafe (hits_after hits s (fixed k i word res)) (advance core s (fixed k i word res))
  unfolding advance
  note-IsSafe s hits k i word a sound place =
      let (r, found, address, flip, read, code) =
        place-struck core laws start.machine.cells hits s.machine s.regions k i a sound.struck
          place in
      let good = start.machine.cells a in
      let machine = note_at-machine core s.regions k i a word good s.machine place in
      rw (found, address)
        (
          record {
            apart = note_at-Disjoint core s.regions k i word good s.machine sound.apart;
            counting =
                rw machine (record {
                  corrected = omega arith;
                  uncorrectable = sound.counting.uncorrectable;
                });
            struck = rw machine (
                note_at-struck core laws start.machine.cells hits s.regions k i a word s.machine
                  place sound.apart sound.struck);
            uncorrectable = rw machine sound.uncorrectable;
            tainted = rw machine sound.tainted;
          },
          tt,
        )

  -- A step, by the phase before it.
  After : System → (ℕ → Option Flip) → Phase → Type 0
  After s hits phase = IsSafe (hits_after hits s phase) (advance core s phase)

  pub advance-IsSafe :
      (s : System) (phase : Phase) (hits : ℕ → Option Flip)
      → IsSafe hits (record { system = s; phase = phase })
      → IsSafe (hits_after hits s phase) (advance core s phase)
  unfolding advance After
  advance-IsSafe s idle hits (sound, fit) =
      either_way (IsSafe hits) s.enabled (sound, tt)
        (toggle-Sound core laws start s hits s.enabled true sound, tt)
  advance-IsSafe s (at k i) hits (sound, fit) =
      load-IsSafe s hits k i (get_elem? s.regions k) refl sound
  advance-IsSafe s (loaded k i word) hits safe = judge-IsSafe s hits k i word safe
  advance-IsSafe s (judged k i word res) hits (sound, (a, place, inl e)) =
      subst (λ (res : SeccResult). After s hits (judged k i word res)) (sym e)
        (fix_clean-IsSafe s hits k i word a sound place)
  advance-IsSafe s (judged k i word res) hits (sound, (a, place, inr e)) =
      subst (λ (res : SeccResult). After s hits (judged k i word res)) (sym e)
        (fix-IsSafe s hits k i word a sound place)
  advance-IsSafe s (fixed k i word res) hits (sound, (a, place, inl e)) =
      subst (λ (res : SeccResult). After s hits (fixed k i word res)) (sym e)
        (note_clean-IsSafe s hits k i word (start.machine.cells a) sound)
  advance-IsSafe s (fixed k i word res) hits (sound, (a, place, inr e)) =
      subst (λ (res : SeccResult). After s hits (fixed k i word res)) (sym e)
        (note-IsSafe s hits k i word a sound place)
