-- ===== src/InTree/Ecc.antt =====
-- patches/0005-rustlux-kernel-module.patch: the soft-ECC core of rust/kernel/rustlux.rs.
use linux_rustlux.Base.{
  ℕ, zero, suc, ◌+◌, ◌-◌, bit_and, bit_or, bit_xor, Bool, not, ltb, ◌==◌, if◌then◌else◌, u8, u64,
  ◌<<<◌, ◌>>>◌, wrapping_sub32, ℤ, pos, negsuc,
}
use linux_rustlux.Bits.Count.{count_ones}

abbrev pub secc_positions : ℕ
secc_positions = 71

pub record SeccResult : Type 0 where
  pub status : ℤ
  pub data_word : ℕ

unfoldable pub secc_is_parity_pos : ℕ → Bool
secc_is_parity_pos p = bit_and p (wrapping_sub32 p 1) == 0

-- `for pos in 1..=SECC_POSITIONS`, at `p` with `left` rounds to go; `continue` keeps both.
unfoldable pub secc_syndrome_loop : ℕ → ℕ → ℕ → ℕ → ℕ → ℕ
secc_syndrome_loop zero p bit syn word = syn
secc_syndrome_loop (suc left) p bit syn word =
    let parity = secc_is_parity_pos p in
    let hit = bit_and (word >>> bit) 1 == 1 in
    secc_syndrome_loop left (p + 1) (if parity then bit else bit + 1)
      (if parity then syn else if hit then bit_xor syn p else syn) word

unfoldable pub secc_data_syndrome : ℕ → ℕ
secc_data_syndrome word = secc_syndrome_loop secc_positions 1 0 0 word

unfoldable pub secc_encode : ℕ → ℕ
secc_encode word =
    let code = u8 (bit_and (secc_data_syndrome word) 0x7f) in
    if bit_and (count_ones 64 word + count_ones 32 code) 1 == 1 then bit_or code 0x80 else code

-- `for p in 1..pos`
unfoldable pub secc_index_loop : ℕ → ℕ → ℕ → ℕ
secc_index_loop zero p bit = bit
secc_index_loop (suc left) p bit =
    secc_index_loop left (p + 1) (if not (secc_is_parity_pos p) then bit + 1 else bit)

-- The `match` on the syndrome and the parity.
unfoldable pub secc_judge : ℕ → ℕ → Bool → SeccResult
secc_judge word syn parity_ok =
    if syn == 0
    then (if parity_ok
        then record { status = pos 0; data_word = word }
        else record { status = pos 1; data_word = word })
    else (if parity_ok
        then record { status = negsuc 0; data_word = word }
        else (if ltb secc_positions syn
            then record { status = negsuc 0; data_word = word }
            else (if secc_is_parity_pos syn
                then record { status = pos 1; data_word = word }
                else record {
                  status = pos 1;
                  data_word = bit_xor word (u64 (1 <<< secc_index_loop (syn - 1) 1 0));
                })))

unfoldable pub secc_verify : ℕ → ℕ → SeccResult
secc_verify word code =
    secc_judge word (bit_xor (secc_data_syndrome word) (bit_and code 0x7f))
      (bit_and (count_ones 64 word + count_ones 32 code) 1 == 0)
