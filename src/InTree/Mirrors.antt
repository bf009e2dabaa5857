-- ===== src/InTree/Mirrors.antt =====
-- patches/0005-rustlux-kernel-module.patch: the crate rust/rustlux_mm mirrors the soft-ECC core and
-- the memory sentinel.
use linux_rustlux.Base.{ℕ, zero, suc, ◌+◌, ◌-◌, ◌≡◌, refl, Bool, arith}
use linux_rustlux.SoftEcc.{
  SoftEccResult, is_parity_pos, toggle, syndrome_loop, data_syndrome, index_loop, data_bit_index,
  encode, judge, verify, to_result, softecc_encode, softecc_verify,
}
use linux_rustlux.MemSentinel.{
  MemSentinel, on_error, open_window, expired, compare_exchange, reset_count, fetch_add,
  decide_action,
}
use linux_rustlux.MemSentinel
use linux_rustlux.InTree.{Windows, memsentinel_on_error}
use linux_rustlux.InTree.Ecc.{
  SeccResult, secc_is_parity_pos, secc_syndrome_loop, secc_data_syndrome, secc_encode,
  secc_index_loop, secc_judge, secc_verify,
}

-- The crate's result and state, in the module's records.
abbrev pub as_secc : SoftEccResult → SeccResult
as_secc r = record { status = r.status; data_word = r.data_word }

abbrev pub as_windows : MemSentinel → Windows
as_windows m = record { start_ms = m.window_start_ms; count = m.window_count }

syndrome_loop-same :
    (left p bit syn word : ℕ)
    → secc_syndrome_loop left p bit syn word ≡ syndrome_loop left p bit syn word
unfolding secc_syndrome_loop syndrome_loop secc_is_parity_pos is_parity_pos toggle
syndrome_loop-same zero p bit syn word = refl
syndrome_loop-same (suc left) p bit syn word = syndrome_loop-same left (p + 1) _ _ word

index_loop-same : (left p bit : ℕ) → secc_index_loop left p bit ≡ index_loop left p bit
unfolding secc_index_loop index_loop secc_is_parity_pos is_parity_pos
index_loop-same zero p bit = refl
index_loop-same (suc left) p bit =
    ground (arith, index_loop-same left (p + 1) bit, index_loop-same left (p + 1) (bit + 1))

data_syndrome-same : (word : ℕ) → secc_data_syndrome word ≡ data_syndrome word
unfolding secc_data_syndrome data_syndrome
data_syndrome-same word = syndrome_loop-same 71 1 0 0 word

judge-same :
    (word syn : ℕ) (parity_ok : Bool)
    → secc_judge word syn parity_ok ≡ as_secc (to_result word (judge word syn parity_ok))
unfolding secc_judge judge to_result data_bit_index secc_is_parity_pos is_parity_pos
judge-same word syn parity_ok = ground (arith, index_loop-same (syn - 1) 1 0)

-- The soft-ECC entry points of the in-tree module answer as those of the crate, for every word
-- and byte.
pub secc_lem :
    (word code : ℕ)
    → (secc_encode word ≡ softecc_encode word)
      × (secc_verify word code ≡ as_secc (softecc_verify word code))
unfolding secc_encode secc_verify softecc_encode softecc_verify encode verify
secc_lem word code = rw (data_syndrome-same word) (refl, judge-same word _ _)

-- The in-tree handler of memory errors goes through the same states with the same answers as
-- that of the crate.
pub memsentinel-same :
    (m : MemSentinel) (now_ms uncorrected threshold : ℕ)
    → let twin = MemSentinel.memsentinel_on_error m now_ms uncorrected threshold in
      memsentinel_on_error (as_windows m) now_ms uncorrected threshold ≡ (as_windows twin.0, twin.1)
unfolding memsentinel_on_error MemSentinel.memsentinel_on_error
memsentinel-same m now_ms uncorrected threshold = ground arith
