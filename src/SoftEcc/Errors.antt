-- ===== src/SoftEcc/Errors.antt =====
-- rust/rustlux_mm/src/soft_ecc.rs: the errors of one bit. Data bit `i` has its own position,
-- which no parity bit has, and code bit `b` is a parity bit or the bit of the overall parity.
use linux_rustlux.Base.{
  ℕ, ◌%◌, ◌^◌, ◌≤◌, ◌<◌, ◌≡◌, refl, sym, ap, ◌∙◌, ◌≢◌, Bool, true, false, ◌&&◌, ◌||◌, not, ◌==◌,
  leb, u64, ◌<<<◌, arith, all_below, all_below_sound,
}
use linux_rustlux.Bits.Count.{count_ones}
use linux_rustlux.SoftEcc.{
  is_parity_pos, toggle, syndrome_loop, data_syndrome, positions, index_loop, data_bit_index,
}

-- The codeword position of data bit `i`.
abbrev pub position : ℕ → ℕ
position i = data_syndrome (2 ^ i)

abbrev data_bit_test : ℕ → Bool
data_bit_test i =
    not (is_parity_pos (position i))
    && leb (position i) positions
    && data_bit_index (position i) == i
    && count_ones 64 (2 ^ i) == 1
    && u64 (1 <<< i) == 2 ^ i

data_bit_table : all_below 64 data_bit_test ≡ true
unfolding data_syndrome data_bit_index syndrome_loop index_loop toggle is_parity_pos count_ones
data_bit_table = refl

pub record IsDataBit (i : ℕ) : Type 0 where
  pub no_parity : is_parity_pos (position i) ≡ false
  pub inside : position i ≤ positions
  pub back : data_bit_index (position i) ≡ i
  pub odd : count_ones 64 (2 ^ i) ≡ 1
  pub shifted : u64 (1 <<< i) ≡ 2 ^ i

pub data_bit_lem : (i : ℕ) → i < 64 → IsDataBit i
data_bit_lem i h = ground (arith, all_below_sound 64 data_bit_test i data_bit_table h)

abbrev code_bit_test : ℕ → Bool
code_bit_test b =
    is_parity_pos (2 ^ b % 128) && leb (2 ^ b % 128) positions && count_ones 32 (2 ^ b) == 1

code_bit_table : all_below 8 code_bit_test ≡ true
unfolding is_parity_pos count_ones
code_bit_table = refl

pub record IsCodeBit (b : ℕ) : Type 0 where
  pub parity : is_parity_pos (2 ^ b % 128) ≡ true
  pub inside : 2 ^ b % 128 ≤ positions
  pub odd : count_ones 32 (2 ^ b) ≡ 1

pub code_bit_lem : (b : ℕ) → b < 8 → IsCodeBit b
code_bit_lem b h = ground (arith, all_below_sound 8 code_bit_test b code_bit_table h)

pub position-injective : (i j : ℕ) → i < 64 → j < 64 → position i ≡ position j → i ≡ j
position-injective i j hi hj e =
    sym (data_bit_lem i hi).back ∙ ap data_bit_index e ∙ (data_bit_lem j hj).back

-- Zero counts as a parity position, so no data bit has the position zero.
pub zero_parity : is_parity_pos 0 ≡ true
unfolding is_parity_pos
zero_parity = refl

pub position-ne-zero : (i : ℕ) → i < 64 → position i ≢ 0
position-ne-zero i hi e = cc ((data_bit_lem i hi).no_parity, zero_parity, ap is_parity_pos e)

pub position-ne-code : (i b : ℕ) → i < 64 → b < 8 → position i ≢ 2 ^ b % 128
position-ne-code i b hi hb e =
    cc ((data_bit_lem i hi).no_parity, (code_bit_lem b hb).parity, ap is_parity_pos e)

abbrev code_pair_test : ℕ → ℕ → Bool
code_pair_test a b = a == b || not (2 ^ a % 128 == 2 ^ b % 128)

code_pair_table : all_below 8 (λ a. all_below 8 (code_pair_test a)) ≡ true
code_pair_table = refl

pub code-injective : (a b : ℕ) → a < 8 → b < 8 → 2 ^ a % 128 ≡ 2 ^ b % 128 → a ≡ b
code-injective a b ha hb e = ground (
  arith,
  all_below_sound 8 (code_pair_test a) b
      (all_below_sound 8 (λ a. all_below 8 (code_pair_test a)) a code_pair_table ha) hb,
)

pub syndrome_zero : data_syndrome 0 ≡ 0
unfolding data_syndrome syndrome_loop toggle is_parity_pos
syndrome_zero = refl
