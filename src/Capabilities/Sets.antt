-- ===== src/Capabilities/Sets.antt =====
-- rust/rustlux_security/src/capabilities.rs: `with` and `without` as operations on sets.
use linux_rustlux.Base.{
  ◌-◌, ◌^◌, ◌≡◌, Bool, not, ◌&&◌, ◌||◌, ◌==◌, bit_of, u64, ◌<<<◌, ◌>>>◌, arith,
}
use linux_rustlux.Bits.And.{and-one}
use linux_rustlux.Bits.Digit.{digit, digit-and, digit-or}
use linux_rustlux.Capabilities.{Cap, cap_number, CapSet, has, with_cap, without_cap}

abbrev pub same_cap : Cap → Cap → Bool
same_cap a b = cap_number a == cap_number b

pub has-digit : (caps : CapSet) (cap : Cap) → has caps cap ≡ (digit caps.mask (cap_number cap) == 1)
unfolding has
has-digit caps cap = ground (arith, and-one (caps.mask >>> cap_number cap))

own_bit :
    (cap other : Cap)
    → (digit (u64 (1 <<< cap_number cap)) (cap_number other) ≡ bit_of (same_cap cap other))
      × (digit (2 ^ 64 - 1 - u64 (1 <<< cap_number cap)) (cap_number other)
          ≡ bit_of (not (same_cap cap other)))
own_bit cap other = ground arith

-- Adding a capability gives that one and changes no other, taking it away removes that one and
-- changes no other.
pub has-with_without :
    (caps : CapSet) (cap other : Cap)
    → (has (with_cap caps cap) other ≡ (same_cap cap other || has caps other))
      × (has (without_cap caps cap) other ≡ (not (same_cap cap other) && has caps other))
unfolding with_cap without_cap
has-with_without caps cap other = (
  ground (
    arith,
    has-digit caps other,
    has-digit (with_cap caps cap) other,
    digit-or (cap_number other) caps.mask (u64 (1 <<< cap_number cap)),
    (own_bit cap other).0,
  ),
  ground (
    arith,
    has-digit caps other,
    has-digit (without_cap caps cap) other,
    digit-and (cap_number other) caps.mask (2 ^ 64 - 1 - u64 (1 <<< cap_number cap)),
    (own_bit cap other).1,
  ),
)
