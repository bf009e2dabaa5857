-- ===== src/Bore/Ffi/Layout.antt =====
-- rust/rustlux_sched/src/bore_ffi.rs and the struct bore_ctx of patches/0002-bore-cachy.patch, byte
-- by byte: where the two layouts have their fields on a little-endian machine.
use linux_rustlux.Base.{
  ℕ, zero, suc, ◌+◌, ◌*◌, ◌-◌, ◌/◌, ◌%◌, ◌^◌, ◌≡◌, not, ◌==◌, bit_of, if◌then◌else◌, ltb, [], ◌∷◌,
  u16, u64, arith, refl,
}
use linux_rustlux.Bore.Ffi.{BoreCtxFfi, ffi_to_ctx}
use linux_rustlux.Cachy.{BoreCtx}

-- The value of `n` bytes from `at` on.
unfoldable pub little_endian : ℕ → (ℕ → ℕ) → ℕ → ℕ
little_endian zero bytes at = 0
little_endian (suc n) bytes at = bytes at + 256 * little_endian n bytes (at + 1)

-- The byte of `value` that stands at the address `at` if it begins at `start`.
abbrev byte_of : ℕ → ℕ → ℕ → ℕ
byte_of value start at = value / 256 ^ (at - start) % 256

-- A struct bore_ctx, with what stands behind it in the task.
unfoldable pub bore_ctx_bytes : BoreCtx → (ℕ → ℕ) → ℕ → ℕ
bore_ctx_bytes ctx behind at =
    if ltb at 8
    then byte_of ctx.burst_time 0 at
    else if ltb at 10
    then byte_of ctx.prev_penalty 8 at
    else if ltb at 12
    then byte_of ctx.curr_penalty 10 at
    else if ltb at 14
    then byte_of ctx.penalty 12 at
    else if at == 14
    then bit_of ctx.stop_update
    else if at == 15
    then bit_of ctx.futex_waiting
    else if ltb at 24
    then byte_of ctx.subtree.value 16 at
    else if ltb at 32
    then byte_of ctx.group.value 24 at
    else behind (at - 32)

-- The fields of `#[repr(C)] struct BoreCtxFfi` where it has them.
unfoldable pub ffi_at : (ℕ → ℕ) → BoreCtxFfi
ffi_at bytes = record {
  burst_time = little_endian 8 bytes 0;
  prev_penalty = little_endian 2 bytes 8;
  curr_penalty = little_endian 2 bytes 10;
  penalty = little_endian 2 bytes 12;
  score = little_endian 1 bytes 14;
  pad = little_endian 1 bytes 15;
  stop_update = little_endian 1 bytes 16;
  futex_waiting = little_endian 1 bytes 17;
  pad2 = bytes 18 ∷ bytes 19 ∷ bytes 20 ∷ bytes 21 ∷ bytes 22 ∷ bytes 23 ∷ [];
  subtree_value = little_endian 8 bytes 24;
  group_value = little_endian 8 bytes 32;
}

-- Of a struct bore_ctx of bore.c, which is shorter than a BoreCtxFfi, the entry points read the
-- burst and the three penalties as they are, but on a little-endian machine the flag stop_update
-- as the score, the two lowest bytes of the subtree cache as the two flags, the group cache as
-- the subtree cache, and the eight bytes behind the struct as the group cache.
pub ffi_to_ctx-bore_ctx :
    (ctx : BoreCtx) (behind : ℕ → ℕ)
    → let got = ffi_to_ctx (ffi_at (bore_ctx_bytes ctx behind)) in
      (got.burst_time ≡ u64 ctx.burst_time)
      × (got.prev_penalty ≡ u16 ctx.prev_penalty)
      × (got.curr_penalty ≡ u16 ctx.curr_penalty)
      × (got.penalty ≡ u16 ctx.penalty)
      × (got.score ≡ bit_of ctx.stop_update)
      × (got.stop_update ≡ not (ctx.subtree.value % 256 == 0))
      × (got.futex_waiting ≡ not (ctx.subtree.value / 256 % 256 == 0))
      × (got.subtree.value ≡ u64 ctx.group.value)
      × (got.group.value ≡ little_endian 8 behind 0)
unfolding ffi_to_ctx ffi_at bore_ctx_bytes little_endian
ffi_to_ctx-bore_ctx ctx behind = (
  omega arith,
  omega arith,
  omega arith,
  omega arith,
  omega arith,
  ground arith,
  ground arith,
  omega arith,
  refl,
)
