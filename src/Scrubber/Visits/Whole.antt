-- ===== src/Scrubber/Visits/Whole.antt =====
-- patches/0009-rustlux-soft-ecc.patch: a pass that nothing disturbs, step by step and as a whole.
use linux_rustlux.Base.{
  ℕ, zero, suc, ◌+◌, ◌*◌, ◌≤◌, ◌<◌, ltb, if◌then◌else◌, Bool, true, false, ◌≡◌, refl, sym, ap, ◌∙◌,
  ℤ, pos, negsuc, none, some, List, [], ◌∷◌, ◌++◌, length, get_elem?, arith,
}
use linux_rustlux.InTree.Ecc.{SeccResult}
use linux_rustlux.Scrubber.{
  fix_word, SeccCore, Region, Machine, System, settle, scrub_word, scrub_rounds, scrub_region,
  scrub_regions, scrub_fn,
}
use linux_rustlux.Scrubber.Visits.{
  Scan, Phase, idle, at, load, judge_with, fix_with, note, note_at, advance,
}

unfoldable pub advances : SeccCore → ℕ → Scan → Scan
advances core zero t = t
advances core (suc n) t = advances core n (advance core t.system t.phase)

-- Four steps for each word, one to go on to the next region, and one to end.
abbrev pub pass_length : List Region → ℕ
pass_length [] = 1
pass_length (r ∷ rs) = 4 * r.words + 1 + pass_length rs

get_elem-next :
    (before : List Region) (r : Region) (rs : List Region)
    → get_elem? (before ++ r ∷ rs) (length before) ≡ some r
get_elem-next [] r rs = refl
get_elem-next (q ∷ before) r rs = get_elem-next before r rs

get_elem-end : (rs : List Region) → get_elem? (rs ++ []) (length rs) ≡ none
get_elem-end [] = refl
get_elem-end (r ∷ rs) = get_elem-end rs

append_one :
    (before : List Region) (r : Region) (rs : List Region)
    → (before ++ r ∷ []) ++ rs ≡ before ++ r ∷ rs
append_one [] r rs = refl
append_one (q ∷ before) r rs = ap (λ qs. q ∷ qs) (append_one before r rs)

length_one : (before : List Region) (r : Region) → length (before ++ r ∷ []) ≡ suc (length before)
length_one [] r = refl
length_one (q ∷ before) r = ap suc (length_one before r)

module _ (core : SeccCore) where
  advances-then :
      (m n : ℕ) (t : Scan) → advances core (m + n) t ≡ advances core n (advances core m t)
  unfolding advances
  advances-then zero n t = let e : 0 + n ≡ n = omega arith in ap (λ k. advances core k t) e
  advances-then (suc m) n t =
      let e : suc m + n ≡ suc (m + n) = omega arith in
      ap (λ k. advances core k t) e ∙ advances-then m n (advance core t.system t.phase)

  -- The two writes make up the `switch`.
  note-settle :
      (r : Region) (i word : ℕ) (m : Machine) (status : ℤ) (good : ℕ)
      → note core r i word
          (fix_with core i (record { status = status; data_word = good }) m (some r))
          status
          good
        ≡ settle core r i word m status good
  unfolding note fix_with fix_word settle
  note-settle r i word m (pos zero) good = refl
  note-settle r i word m (pos (suc zero)) good = refl
  note-settle r i word m (pos (suc (suc n))) good = refl
  note-settle r i word m (negsuc zero) good = refl
  note-settle r i word m (negsuc (suc n)) good = refl

  note_at-next :
      (before : List Region) (r : Region) (rs : List Region) (i word : ℕ) (res : SeccResult)
      (m : Machine)
      → let (r', m') = note core r i word m res.status res.data_word in
        note_at core (length before) i word res (before ++ r ∷ rs) m ≡ (before ++ r' ∷ rs, m')
  unfolding note_at
  note_at-next [] r rs i word res m = refl
  note_at-next (q ∷ before) r rs i word res m = rw (note_at-next before r rs i word res m) refl

  settle-words :
      (r : Region) (i word : ℕ) (m : Machine) (status : ℤ) (good : ℕ)
      → (settle core r i word m status good).0.words ≡ r.words
  unfolding settle
  settle-words r i word m status good = ground arith

  rounds-words : (r : Region) (m : Machine) (n : ℕ) → (scrub_rounds core n (r, m)).0.words ≡ r.words
  unfolding scrub_rounds scrub_word
  rounds-words r m zero = refl
  rounds-words r m (suc n) =
      settle-words (scrub_rounds core n (r, m)).0 n _ _ _ _ ∙ rounds-words r m n

  module _ (s : System) where
    -- The pass at some moment, where the regions before are done.
    spot : List Region → Region × Machine → List Region → Phase → Scan
    spot before t rs phase = record {
      system = record s { regions = before ++ t.0 ∷ rs; machine = t.1 };
      phase = phase;
    }

    word_steps :
        (before : List Region) (t : Region × Machine) (rs : List Region) (i : ℕ)
        → i < t.0.words
        → advances core 4 (spot before t rs (at (length before) i))
          ≡ spot before (scrub_word core i t) rs (at (length before) (suc i))
    unfolding spot advances advance load judge_with scrub_word
    word_steps before t rs i lt =
        let next = get_elem-next before t.0 rs in
        let below : ltb i t.0.words ≡ true = ground (arith, lt) in
        let word = t.1.cells (t.0.addr + i) in
        let res = core.verify word (t.0.codes i) in
        let m = fix_with core i res t.1 (some t.0) in
        rw (next, below)
          (rw next (
            rw next (
              rw
                (
                  note_at-next before t.0 rs i word res m,
                  note-settle t.0 i word t.1 res.status res.data_word,
                )
                refl)))

    move_on :
        (before : List Region) (t : Region × Machine) (rs : List Region) (n : ℕ)
        → t.0.words ≤ n
        → advances core 1 (spot before t rs (at (length before) n))
          ≡ spot before t rs (at (suc (length before)) 0)
    unfolding spot advances advance load
    move_on before t rs n le =
        let beyond : ltb n t.0.words ≡ false = ground (arith, le) in
        rw (get_elem-next before t.0 rs, beyond) refl

    rounds_steps :
        (before : List Region) (r : Region) (m : Machine) (rs : List Region) (n : ℕ)
        → n ≤ r.words
        → advances core (4 * n) (spot before (r, m) rs (at (length before) 0))
          ≡ spot before (scrub_rounds core n (r, m)) rs (at (length before) n)
    unfolding scrub_rounds advances
    rounds_steps before r m rs zero le = refl
    rounds_steps before r m rs (suc n) le =
        let t = spot before (r, m) rs (at (length before) 0) in
        let e : 4 * suc n ≡ 4 * n + 4 = omega arith in
        ap (λ k. advances core k t) e
        ∙ advances-then (4 * n) 4 t
        ∙ ap (advances core 4) (rounds_steps before r m rs n (omega arith))
        ∙ word_steps before (scrub_rounds core n (r, m)) rs n (omega (arith, rounds-words r m n))

    region_steps :
        (before : List Region) (r : Region) (m : Machine) (rs : List Region)
        → advances core (4 * r.words + 1) (spot before (r, m) rs (at (length before) 0))
          ≡ spot before (scrub_region core r m) rs (at (suc (length before)) 0)
    unfolding scrub_region
    region_steps before r m rs =
        let t = spot before (r, m) rs (at (length before) 0) in
        advances-then (4 * r.words) 1 t
        ∙ ap (advances core 1) (rounds_steps before r m rs r.words (omega arith))
        ∙ move_on before (scrub_rounds core r.words (r, m)) rs r.words
            (omega (arith, rounds-words r m r.words))

    regions_steps :
        (before rs : List Region) (m : Machine)
        → advances core (pass_length rs) (record {
          system = record s { regions = before ++ rs; machine = m };
          phase = at (length before) 0;
        })
          ≡ record {
            system = record s {
              regions = before ++ (scrub_regions core rs m).0;
              machine = (scrub_regions core rs m).1;
              scheduled = true;
            };
            phase = idle;
          }
    unfolding scrub_regions advances advance load spot
    regions_steps before [] m = rw (get_elem-end before) refl
    regions_steps before (r ∷ rs) m =
        let t = scrub_region core r m in
        let before' = before ++ t.0 ∷ [] in
        let from : List Region → ℕ → Scan = λ regions k. record {
          system = record s { regions = regions; machine = t.1 };
          phase = at k 0;
        } in
        let ended : List Region → Scan = λ regions. record {
          system = record s {
            regions = regions;
            machine = (scrub_regions core rs t.1).1;
            scheduled = true;
          };
          phase = idle;
        } in
        advances-then (4 * r.words + 1) (pass_length rs)
          (spot before (r, m) rs (at (length before) 0))
        ∙ ap (advances core (pass_length rs)) (
            region_steps before r m rs
            ∙ ap (λ regions. from regions (suc (length before))) (sym (append_one before t.0 rs))
            ∙ ap (from (before' ++ rs)) (sym (length_one before t.0)))
        ∙ regions_steps before' rs t.1
        ∙ ap ended (append_one before t.0 (scrub_regions core rs t.1).0)

  -- A pass that nothing disturbs ends after exactly four steps for each word, one for each
  -- region and two more, with the scrubber enabled, in the system that `scrub_fn` gives, for
  -- every core.
  pub advances-scrub_fn :
      (s : System)
      → s.enabled ≡ true
      → advances core (suc (pass_length s.regions)) (record { system = s; phase = idle })
        ≡ record { system = scrub_fn core s; phase = idle }
  unfolding advances advance scrub_fn
  advances-scrub_fn s on =
      let t = scrub_regions core s.regions s.machine in
      let begun : Scan = record { system = s; phase = at 0 0 } in
      let off : System = record s { scheduled = true } in
      let done : System = record s { machine = t.1; regions = t.0; scheduled = true } in
      ap
        (λ (b : Bool).
          advances core (pass_length s.regions)
            (if b then begun else record { system = off; phase = idle }))
        on
      ∙ regions_steps s [] s.regions s.machine
      ∙ ap (λ (b : Bool). record { system = if b then done else off; phase = idle }) (sym on)
