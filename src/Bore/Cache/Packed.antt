-- ===== src/Bore/Cache/Packed.antt =====
-- rust/rustlux_sched/src/bore.rs: reading a packed cache back, and its age.
use linux_rustlux.Base.{ℕ, ◌+◌, ◌-◌, ◌*◌, ◌/◌, ◌%◌, ◌^◌, ◌≤◌, ◌<◌, ltb, ◌≡◌, ap, arith}
use linux_rustlux.Bits.Fields.{or-fields}
use linux_rustlux.Bore.Cache.{BoreBc, timestamp, penalty_of, pack, is_expired}

pub pack_value : (t p : ℕ) → t < 2 ^ 64 → p < 2 ^ 16 → (pack t p).value ≡ t / 2 ^ 16 * 2 ^ 16 + p
unfolding pack
pack_value t p ht hp = ground (arith, or-fields 16 (t / 2 ^ 16) p hp)

-- A packed cache of a 64-bit time and a 16-bit penalty gives back its penalty, and its time
-- stamp rounded down to 2 ^ 16 nanoseconds.
pack-fields :
    (t p : ℕ)
    → t < 2 ^ 64
    → p < 2 ^ 16
    → (penalty_of (pack t p) ≡ p) × (timestamp (pack t p) ≡ t - t % 2 ^ 16)
unfolding penalty_of timestamp
pack-fields t p ht hp = omega (arith, pack_value t p ht hp)

-- A cache packed no later than now, a 64-bit time, with a 16-bit penalty has expired exactly
-- when more time than its lifetime has passed since its rounded time stamp.
is_expired-pack :
    (t p now lifetime : ℕ)
    → t ≤ now
    → now < 2 ^ 64
    → p < 2 ^ 16
    → is_expired (pack t p) now lifetime ≡ ltb lifetime (now - t + t % 2 ^ 16)
unfolding is_expired
is_expired-pack t p now lifetime le fits hp = ground (arith, pack_value t p (omega arith) hp)

pack-parts : (bc : BoreBc) → bc.value < 2 ^ 64 → pack (timestamp bc) (penalty_of bc) ≡ bc
unfolding timestamp penalty_of
pack-parts bc fits =
    let same : (pack (timestamp bc) (penalty_of bc)).value ≡ bc.value = omega (
      arith,
      fits,
      pack_value (timestamp bc) (penalty_of bc) (omega (arith, fits)) (omega arith),
    ) in
    ap {B = BoreBc} (λ v. record { value = v }) same

-- A cache packed from a 64-bit time and a 16-bit penalty gives back the penalty, and the time
-- rounded down to 2 ^ 16 nanoseconds; at any later 64-bit time it has expired exactly when more
-- than its lifetime has passed since the rounded time; and each 64-bit cache is the one packed
-- from its own time stamp and penalty.
pub pack_lem :
    (t p now lifetime : ℕ) (bc : BoreBc)
    → t ≤ now
    → now < 2 ^ 64
    → p < 2 ^ 16
    → bc.value < 2 ^ 64
    → (penalty_of (pack t p) ≡ p)
      × (timestamp (pack t p) ≡ t - t % 2 ^ 16)
      × (is_expired (pack t p) now lifetime ≡ ltb lifetime (now - t + t % 2 ^ 16))
      × (pack (timestamp bc) (penalty_of bc) ≡ bc)
pack_lem t p now lifetime bc le fits hp hb =
    let (penalty_back, time_back) = pack-fields t p (omega (arith, le, fits)) hp in
    (penalty_back, time_back, is_expired-pack t p now lifetime le fits hp, pack-parts bc hb)
