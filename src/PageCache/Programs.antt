-- ===== src/PageCache/Programs.antt =====
-- rust/rustlux_mm/src/page_cache.rs: programs that ask for permits, drop them and take pages. Safe
-- code makes a permit only by `PageWritePermit::new`, and a permit is neither `Clone` nor `Copy`.
use linux_rustlux.Base.{
  ℕ, ◌+◌, ◌-◌, ◌≤◌, ◌<◌, Bool, not, ◌&&◌, ◌==◌, if◌then◌else◌, bit_of, ◌≡◌, refl, Result, ok, err,
  Option, none, some, List, [], ◌∷◌, ◌++◌, arith, dec_lt, subst,
}
use linux_rustlux.Bits.Digit.{digit}
use linux_rustlux.PageCache.{
  from_raw, PageWriteError, PageWritePermit, PageMut, permit, permit_new, page_mut,
}
use linux_rustlux.PageCache.Permit.{flag_tests}

pub data Call : Type 0 where
  ask : (bits : ℕ) → (sb_readonly : Bool) → Call
  release : Call
  take : (index : ℕ) → Call

-- How many permits are alive, and the pages that have been taken.
pub record Holdings : Type 0 where
  pub permits : ℕ
  pub pages : List PageMut

unfoldable pub granted : Result PageWritePermit PageWriteError → ℕ
granted (ok p) = 1
granted (err error) = 0

-- `none` is a program that is not well typed, for it has no permit to drop or to lend.
unfoldable pub call : Call → Holdings → Option Holdings
unfolding granted
call (ask bits sb_readonly) s =
    some (record s { permits = s.permits + granted (permit_new (from_raw bits) sb_readonly) })
call release s = if s.permits == 0 then none else some (record s { permits = s.permits - 1 })
call (take index) s =
    if s.permits == 0
    then none
    else some (record s { pages = s.pages ++ page_mut index permit ∷ [] })

unfoldable pub calls : List Call → Holdings → Option Holdings
calls [] s = some s
calls (c ∷ cs) s = elim (call c s) [ none ↦ none | some s' ↦ calls cs s' ]

-- An inode that may be written to: none of its four flags is set, on a writable file system.
abbrev pub is_writable : ℕ → Bool → Bool
is_writable bits sb_readonly =
    (digit bits 11 == 0)
    && (digit bits 10 == 0)
    && not sb_readonly
    && (digit bits 3 == 0)
    && (digit bits 4 == 0)

-- How often a program has asked for such an inode.
abbrev pub asked : List Call → ℕ
asked [] = 0
asked (ask bits sb_readonly ∷ cs) = bit_of (is_writable bits sb_readonly) + asked cs
asked (release ∷ cs) = asked cs
asked (take index ∷ cs) = asked cs

granted_lem :
    (bits : ℕ) (sb_readonly : Bool)
    → granted (permit_new (from_raw bits) sb_readonly) ≡ bit_of (is_writable bits sb_readonly)
unfolding granted permit_new
granted_lem bits sb_readonly = ground (arith, flag_tests bits)

-- A call makes no permit but by asking for a writable inode.
call-permits :
    (c : Call) (cs : List Call) (s t : Holdings)
    → call c s ≡ some t
    → t.permits + asked cs ≤ s.permits + asked (c ∷ cs)
unfolding call
call-permits (ask bits sb_readonly) cs s t e = ground (arith, e, granted_lem bits sb_readonly)
call-permits release cs s t e = ground (arith, e)
call-permits (take index) cs s t e = ground (arith, e)

module _ (index : ℕ) (rest : List Call) where
  -- A call that is well typed, and what follows it.
  after_call :
      (c : Call) (program : List Call) (s t : Holdings) (o : Option Holdings)
      → call c s ≡ o
      → (elim o [ none ↦ none | some s' ↦ calls (program ++ take index ∷ rest) s' ]) ≡ some t
      → ((s' : Holdings)
          → calls (program ++ take index ∷ rest) s' ≡ some t
          → 0 < s'.permits + asked program)
      → 0 < s.permits + asked (c ∷ program)
  after_call c program s t none same e before = absurd (cc e)
  after_call c program s t (some s') same e before =
      omega (arith, call-permits c program s s' same, before s' e)

  -- The same, from a state on.
  asked_before :
      (program : List Call) (s t : Holdings)
      → calls (program ++ take index ∷ rest) s ≡ some t
      → 0 < s.permits + asked program
  unfolding calls call
  asked_before [] s t e = elim (dec_lt 0 s.permits) [
    | yes some_left ↦ omega (arith, some_left)
    | no none_left ↦
        let none_yet : s.permits ≡ 0 = omega (arith, none_left) in
        absurd (
          cc (
            subst
              (λ n.
                elim (if n == 0
                  then none
                  else some (record s { pages = s.pages ++ page_mut index permit ∷ [] })) [
                    | none ↦ none
                    | some s' ↦ calls rest s'
                  ]
                ≡ some t)
              none_yet e))
  ]
  asked_before (c ∷ program) s t e =
      after_call c program s t (call c s) refl e (λ s'. asked_before program s' t)

  -- A program of calls that starts with no permit, makes permits only by `PageWritePermit::new`
  -- and neither copies them nor lends or drops one that it does not hold, has asked for an inode
  -- that may be written to (none of the four flags, and a writable file system) before it takes
  -- a page.
  pub take-asked :
      (program : List Call) (t : Holdings)
      → calls (program ++ take index ∷ rest) (record { permits = 0; pages = [] }) ≡ some t
      → 0 < asked program
  take-asked program t e =
      omega (arith, asked_before program (record { permits = 0; pages = [] }) t e)
