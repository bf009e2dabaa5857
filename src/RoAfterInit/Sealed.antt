-- ===== src/RoAfterInit/Sealed.antt =====
-- rust/rustlux_mm/src/ro_after_init.rs: what holds after `seal`, with debug assertions and without.
use linux_rustlux.Base.{
  ◌≡◌, refl, Bool, true, false, if◌then◌else◌, Option, none, some, List, [], ◌∷◌,
}
use linux_rustlux.RoAfterInit.{
  Outcome, returns, panics, undefined, RoAfterInit, uninit, Call, call_init, call_seal, call_read,
  call, calls,
}

module _ {ℓ} {T : Type ℓ} where
  abbrev pub sealed : T → RoAfterInit T
  sealed v = record { value = some v; is_sealed = true }

  -- Whether a program calls `init`.
  abbrev pub writes : List (Call T) → Bool
  writes [] = false
  writes (call_init w ∷ xs) = true
  writes (call_seal ∷ xs) = writes xs
  writes (call_read ∷ xs) = writes xs

  -- The values that a cell's reads give while it keeps `v`, in front of those seen before.
  abbrev pub reads_of : T → List T → List (Call T) → List T
  reads_of v seen [] = seen
  reads_of v seen (call_init w ∷ xs) = reads_of v seen xs
  reads_of v seen (call_seal ∷ xs) = reads_of v seen xs
  reads_of v seen (call_read ∷ xs) = reads_of v (v ∷ seen) xs

  calls-sealed_value :
      (v : T) (seen : List T) (xs : List (Call T))
      → calls true (sealed v, seen) xs
        ≡ (if writes xs then panics else returns (sealed v, reads_of v seen xs))
  unfolding calls call
  calls-sealed_value v seen [] = refl
  calls-sealed_value v seen (call_init w ∷ xs) = refl
  calls-sealed_value v seen (call_seal ∷ xs) = calls-sealed_value v seen xs
  calls-sealed_value v seen (call_read ∷ xs) = calls-sealed_value v (v ∷ seen) xs

  -- A cell that was sealed before anything was written to it.
  abbrev pub sealed_empty : RoAfterInit T
  sealed_empty = record { value = none; is_sealed = true }

  -- The first call of a program that is not `seal`.
  abbrev pub first_access : List (Call T) → Option (Call T)
  first_access [] = none
  first_access (call_init w ∷ xs) = some (call_init w)
  first_access (call_seal ∷ xs) = first_access xs
  first_access (call_read ∷ xs) = some call_read

  -- What such a call does to that cell.
  abbrev pub ends_in : List T → Option (Call T) → Outcome (RoAfterInit T × List T)
  ends_in seen none = returns (sealed_empty, seen)
  ends_in seen (some (call_init w)) = panics
  ends_in seen (some call_seal) = returns (sealed_empty, seen)
  ends_in seen (some call_read) = undefined

  calls-sealed_empty :
      (seen : List T) (xs : List (Call T))
      → calls true (sealed_empty, seen) xs ≡ ends_in seen (first_access xs)
  unfolding calls call
  calls-sealed_empty seen [] = refl
  calls-sealed_empty seen (call_init w ∷ xs) = refl
  calls-sealed_empty seen (call_seal ∷ xs) = calls-sealed_empty seen xs
  calls-sealed_empty seen (call_read ∷ xs) = refl

  -- With debug assertions, every program on a sealed cell that holds a value returns, with the
  -- cell unchanged and its value from each read, unless the program calls `init`, and then it
  -- panics; on a cell that was sealed before anything was written, a program of seals alone
  -- returns with the cell unchanged, and any other one panics if `init` is the first other call
  -- that it makes, and reads memory that was never written if that is a read.
  pub calls-sealed :
      (v : T) (seen : List T) (xs : List (Call T))
      → (calls true (sealed v, seen) xs
          ≡ (if writes xs then panics else returns (sealed v, reads_of v seen xs)))
        × (calls true (sealed_empty, seen) xs ≡ ends_in seen (first_access xs))
  calls-sealed v seen xs = (calls-sealed_value v seen xs, calls-sealed_empty seen xs)

  -- The value that the last `init` wrote, or the one before all of them.
  abbrev pub last_written : T → List (Call T) → T
  last_written v [] = v
  last_written v (call_init w ∷ xs) = last_written w xs
  last_written v (call_seal ∷ xs) = last_written v xs
  last_written v (call_read ∷ xs) = last_written v xs

  abbrev pub reads_of_last : T → List T → List (Call T) → List T
  reads_of_last v seen [] = seen
  reads_of_last v seen (call_init w ∷ xs) = reads_of_last w seen xs
  reads_of_last v seen (call_seal ∷ xs) = reads_of_last v seen xs
  reads_of_last v seen (call_read ∷ xs) = reads_of_last v (v ∷ seen) xs

  -- Without debug assertions the seal stops nothing: every program on a sealed cell returns, the
  -- cell ends with the value of the last `init`, and each read gives the value last written.
  calls-sealed_release :
      (v : T) (seen : List T) (xs : List (Call T))
      → calls false (sealed v, seen) xs
        ≡ returns (sealed (last_written v xs), reads_of_last v seen xs)
  unfolding calls call
  calls-sealed_release v seen [] = refl
  calls-sealed_release v seen (call_init w ∷ xs) = calls-sealed_release w seen xs
  calls-sealed_release v seen (call_seal ∷ xs) = calls-sealed_release v seen xs
  calls-sealed_release v seen (call_read ∷ xs) = calls-sealed_release v (v ∷ seen) xs

  calls-quiet :
      (v : T) (seen : List T) (xs : List (Call T))
      → writes xs ≡ false
      → calls false (sealed v, seen) xs ≡ returns (sealed v, reads_of v seen xs)
  unfolding calls call
  calls-quiet v seen [] quiet = refl
  calls-quiet v seen (call_init w ∷ xs) quiet = cc
  calls-quiet v seen (call_seal ∷ xs) quiet = calls-quiet v seen xs quiet
  calls-quiet v seen (call_read ∷ xs) quiet = calls-quiet v (v ∷ seen) xs quiet

  -- A value that is written and sealed is what every later program without `init` reads, with
  -- debug assertions and without.
  init-seal-reads :
      (debug : Bool) (v : T) (xs : List (Call T))
      → writes xs ≡ false
      → calls debug (uninit, []) (call_init v ∷ call_seal ∷ xs)
        ≡ returns (sealed v, reads_of v [] xs)
  unfolding calls call
  init-seal-reads true v xs quiet = rw (calls-sealed_value v [] xs, quiet)
  init-seal-reads false v xs quiet = calls-quiet v [] xs quiet
