-- ===== src/RoAfterInit.antt =====
-- rust/rustlux_mm/src/ro_after_init.rs: a value that is written before `seal` and read after it.
-- `debug` says whether the program is built with debug assertions, without which the two
-- `debug_assert!` lines are no code.
pub mod Sealed
mod UnitTests
mod Tests
use linux_rustlux.Base.{
  Bool, true, false, not, ◌&&◌, if◌then◌else◌, Option, none, some, List, [], ◌∷◌,
}

-- What a call does: it returns, it panics, or it reads memory that was never written.
pub data Outcome {ℓ} (A : Type ℓ) : Type ℓ where
  returns : A → Outcome A
  panics : Outcome A
  undefined : Outcome A

infixl 5 ◌>>=◌
abbrev pub ◌>>=◌ {ℓ κ} : {A : Type ℓ} {B : Type κ} → Outcome A → (A → Outcome B) → Outcome B
returns a >>= f = f a
panics >>= f = panics
undefined >>= f = undefined

-- `none` is a value that is not initialised.
pub record RoAfterInit {ℓ} (T : Type ℓ) : Type ℓ where
  pub value : Option T
  pub is_sealed : Bool

module _ {ℓ} {T : Type ℓ} where
  abbrev pub uninit : RoAfterInit T
  uninit = record { value = none; is_sealed = false }

  abbrev pub new : T → RoAfterInit T
  new v = record { value = some v; is_sealed = false }

  unfoldable pub init : Bool → RoAfterInit T → T → Outcome (RoAfterInit T)
  init debug c v = if debug && c.is_sealed then panics else returns (record c { value = some v })

  unfoldable pub seal : RoAfterInit T → RoAfterInit T
  seal c = record c { is_sealed = true }

  unfoldable pub assume_init : Option T → Outcome T
  assume_init none = undefined
  assume_init (some v) = returns v

  unfoldable pub read : Bool → RoAfterInit T → Outcome T
  unfolding assume_init
  read debug c = if debug && not c.is_sealed then panics else assume_init c.value

-- A program's calls on one cell.
pub data Call {ℓ} (T : Type ℓ) : Type ℓ where
  call_init : T → Call T
  call_seal : Call T
  call_read : Call T

module _ {ℓ} {T : Type ℓ} where
  -- One call; a read adds what it returned to the values read so far, the last one first.
  unfoldable pub call : Bool → RoAfterInit T × List T → Call T → Outcome (RoAfterInit T × List T)
  unfolding init seal read
  call debug (c, seen) (call_init v) = do c' ← init debug c v; returns (c', seen)
  call debug (c, seen) call_seal = returns (seal c, seen)
  call debug (c, seen) call_read = do v ← read debug c; returns (c, v ∷ seen)

  unfoldable pub calls :
      Bool → RoAfterInit T × List T → List (Call T) → Outcome (RoAfterInit T × List T)
  calls debug s [] = returns s
  calls debug s (x ∷ xs) = do s' ← call debug s x; calls debug s' xs
