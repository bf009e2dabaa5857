-- ===== src/SoftEcc.antt =====
-- rust/rustlux_mm/src/soft_ecc.rs: the Hamming(72,64) SECDED code of one 64-bit word.
-- A word of `w` bits is a number; what is computed from words below 2 ^ w stays below it.
pub mod Linear
pub mod Errors
pub mod Correct
pub mod Sound
pub mod Secded
mod UnitTests
mod Tests
use linux_rustlux.Base.{
  ℕ, zero, suc, ◌+◌, ◌-◌, ◌*◌, ◌/◌, ◌%◌, ◌^◌, bit_and, bit_or, bit_xor, Bool, true, false, ltb,
  ◌==◌, if◌then◌else◌, u8, u64, ◌<<<◌, ◌>>>◌, wrapping_sub32, ℤ, pos, negsuc,
}
use linux_rustlux.Bits.Count.{count_ones}

abbrev pub positions : ℕ
positions = 71

pub data ScrubOutcome : Type 0 where
  clean : ScrubOutcome
  corrected : ℕ → ScrubOutcome
  uncorrectable : ScrubOutcome

pub record SoftEccResult : Type 0 where
  pub status : ℤ
  pub data_word : ℕ

unfoldable pub is_parity_pos : ℕ → Bool
is_parity_pos p = bit_and p (wrapping_sub32 p 1) == 0

-- The inner test of the loop: `if (data >> bit) & 1 == 1 { syn ^= pos; }`.
unfoldable pub toggle : ℕ → ℕ → ℕ → ℕ → ℕ
toggle word bit p syn = if bit_and (word >>> bit) 1 == 1 then bit_xor syn p else syn

-- The loop at position `p`, with `left` rounds to go.
unfoldable pub syndrome_loop : ℕ → ℕ → ℕ → ℕ → ℕ → ℕ
syndrome_loop zero p bit syn word = syn
syndrome_loop (suc left) p bit syn word =
    syndrome_loop left (p + 1) (if is_parity_pos p then bit else bit + 1)
      (if is_parity_pos p then syn else toggle word bit p syn) word

unfoldable pub data_syndrome : ℕ → ℕ
data_syndrome word = syndrome_loop positions 1 0 0 word

-- `for pos in 1..err_pos`, with `left` rounds to go.
unfoldable pub index_loop : ℕ → ℕ → ℕ → ℕ
index_loop zero p idx = idx
index_loop (suc left) p idx = index_loop left (p + 1) (if is_parity_pos p then idx else idx + 1)

unfoldable pub data_bit_index : ℕ → ℕ
data_bit_index err_pos = index_loop (err_pos - 1) 1 0

unfoldable pub encode : ℕ → ℕ
encode word =
    let code = u8 (bit_and (data_syndrome word) 0x7f) in
    if bit_and (count_ones 64 word + count_ones 32 code) 1 == 1 then bit_or code 0x80 else code

-- The `match` at the end of `verify`.
unfoldable pub judge : ℕ → ℕ → Bool → ScrubOutcome
judge word syn parity_ok =
    if syn == 0
    then (if parity_ok then clean else corrected word)
    else (if parity_ok
        then uncorrectable
        else (if ltb positions syn
            then uncorrectable
            else (if is_parity_pos syn
                then corrected word
                else corrected (bit_xor word (u64 (1 <<< data_bit_index syn))))))

unfoldable pub verify : ℕ → ℕ → ScrubOutcome
verify word code =
    judge word (bit_xor (data_syndrome word) (bit_and code 0x7f))
      (bit_and (count_ones 64 word + count_ones 32 code) 1 == 0)

unfoldable pub softecc_encode : ℕ → ℕ
softecc_encode word = encode word

unfoldable pub to_result : ℕ → ScrubOutcome → SoftEccResult
to_result word clean = record { status = pos 0; data_word = word }
to_result word (corrected fixed) = record { status = pos 1; data_word = fixed }
to_result word uncorrectable = record { status = negsuc 0; data_word = word }

unfoldable pub softecc_verify : ℕ → ℕ → SoftEccResult
softecc_verify word code = to_result word (verify word code)
