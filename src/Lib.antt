-- ===== src/Lib.antt =====
-- The code of Rustlux: decision cores in Rust that C code of a patched Linux kernel calls through
-- `extern "C"` entry points, in three crates and in a module of the kernel; and the C code that
-- calls them.
--
-- rust/rustlux_mm: memory integrity and the page cache.
--   SoftEcc (rust/rustlux_mm/src/soft_ecc.rs): eight code bits for a 64-bit word. `encode`
--     takes the syndrome of the data bits over the positions 1..=71 that are no power of two
--     (`data_syndrome`) and adds the parity of everything; `verify` recomputes it and decides
--     (`judge` is its part after the two syndromes). Linear, Errors, Correct and Sound lead to
--     Secded.
--   MemSentinel (rust/rustlux_mm/src/mem_sentinel.rs): counts corrected memory errors in
--     windows of 60 seconds. `on_error` is the handler as one CPU runs it, in terms of the
--     operations on the two atomics (`compare_exchange`, `reset_count`, `fetch_add`).
--     MemSentinel/Cpus is the same handler on any number of CPUs, one step for each access to
--     an atomic, and Cpus/Alone shows that the two descriptions agree for a CPU that is not
--     interrupted; Cpus/Progress counts the accesses that are left to each CPU.
--   PageCache (rust/rustlux_mm/src/page_cache.rs): `permit_new` is `PageWritePermit::new`.
--     PageCache/Programs has programs that make permits, take pages by them and drop them.
--   SpliceGuard (rust/rustlux_mm/src/splice_guard.rs): translates the inode's mode and flags
--     for `permit_new`, and its errors to errno values.
--   RoAfterInit (rust/rustlux_mm/src/ro_after_init.rs): a cell that is written, sealed and
--     read; `call` and `calls` run a program of such calls on one cell.
-- rust/rustlux_security: permissions.
--   Capabilities (rust/rustlux_security/src/capabilities.rs): `CapSet` and the checks for
--     perf_event and TIOCSTI (`with_cap` and `without_cap` are `with` and `without`);
--     Capabilities/Granted has sets after any changes.
--   Hardening (rust/rustlux_security/src/hardening.rs,
--     rust/rustlux_security/src/hardening_ffi.rs): the configurations, and the entry points
--     that ask Capabilities under the static configuration `hardening` (`ffi_tiocsti_allowed`
--     is `rustlux_tiocsti_allowed`).
-- rust/rustlux_sched: the BORE scheduler extension.
--   Bore/Params (rust/rustlux_sched/src/params.rs), Bore/Cache, Bore/Penalty, Bore/Context,
--     Bore/Average (rust/rustlux_sched/src/bore.rs): the constants, the packed burst cache,
--     the arithmetic of a penalty, a task's context with `update_curr` at a tick and
--     `restart_burst` at sleep, and averages by a table of reciprocals.
--     Bore/Context/Valid has the life of a task as a step relation, and takes the laws of the
--     arithmetic from Bore/Penalty/Laws.
--   Bore/Ffi (rust/rustlux_sched/src/bore_ffi.rs): the entry points for C on a BoreCtxFfi (`bore_`
--     stands for `rustlux_bore_`); Bore/Ffi/Calls has the calls of a caller that keeps one, and
--     Bore/Ffi/Layout what is in its places if it is a struct bore_ctx of
--     patches/0002-bore-cachy.patch, whose layout is another.
-- modules/rustlux_example: Example (modules/rustlux_example/src/lib.rs), a sample that does nothing.
-- patches: what is added to the kernel.
--   Cachy (patches/0002-bore-cachy.patch): the functions of kernel/sched/bore.c that the
--     comments of bore.rs call equivalent to theirs. Cachy/Arithmetic and Cachy/Contexts compare
--     the two, and Cachy/Runs takes a task through both (`run` and `rust_run`); Cachy/Steady is
--     about its weight. Cachy/Inherit is the function in which bore.c uses the cache and the
--     averages that bore.rs mirrors; Cachy/Family has the relatives of a new task and all three
--     ways to inherit, of which Cachy/Family/Hub is about the ancestor hub, and Cachy/Fork the
--     fork, after which a task goes on in Cachy/Runs. Cachy/Sysctl is the handler that turns BORE
--     on and off; Cachy/Sysctl/Turns takes a task through both sources while that happens.
--   InTree (patches/0005-rustlux-kernel-module.patch): rust/kernel/rustlux.rs, the entry points as
--     the kernel is built with them. InTree/Mirrors and InTree/Decisions compare them with those
--     of the crates.
--   InTree/Hooks (patches/0004-rustlux-splice-guard.patch, patches/0006-rustlux-perf-hook.patch,
--     patches/0007-rustlux-tiocsti-hook.patch): the places in the kernel that ask the checks, and
--     what stands there without Rust. InTree/Guarded says what they let through.
--   Sentinel (patches/0008-rustlux-mem-sentinel.patch): mm/rustlux_memsentinel.c. `record_mce` is
--     `rustlux_memsentinel_record`, with `heed` for the part past its guards and `act` for its
--     switch; `fallback_on_error` is the core in C. `run` goes through machine checks and sysctl
--     writes.
--   Scrubber (patches/0009-rustlux-soft-ecc.patch,
--     patches/0012-rustlux-softecc-seal-after-ro.patch): mm/rustlux_softecc.c. `scrub_fn` is a
--     pass over the regions of a `System`: `scrub_regions`, `scrub_region`, `scrub_rounds`,
--     `scrub_word` and `settle` (the switch) are its parts. It takes the core as a parameter
--     (`SeccCore`) with the laws of Scrubber/Core, which the Rust core (Scrubber/RustCore, from
--     the theorems on SoftEcc) and the C core (Scrubber/Fallback) fill. Scrubber/Visits is the
--     same pass in steps (`advance`): a visit of a word reads it, reads its code and verifies,
--     writes the word (`fix_with`), and writes the code and counts (`note`). `Moves` interleaves
--     these steps with flips and writes, Visits/Safe says what holds at each moment, and
--     Visits/Whole that undisturbed steps make up a `scrub_fn`. Scrubber/Boot has the initcalls
--     before `seal_all`, and joins them to `Moves`; Scrubber/Rewrites has writes on purpose, with
--     `reseal`, between passes.
--
-- Base has the shared names and operators, machine words and cells; Bits has the lemmas on the
-- bits of a number. Entry points drop the prefix `rustlux_`. A component's UnitTests has the unit
-- tests of its source file, each as the proposition that its assertions check, with proofs; its
-- Tests has the theorems at concrete inputs.
--
-- Conventions. Numbers are natural numbers; a `u8`, `u16`, `u32` or `u64` is reduced where the
-- code casts, shifts left or wraps, and where an unchecked operation can leave its width it
-- wraps, as in a build without overflow checks. An `i32` inside a computation is its bit
-- pattern; one that is only compared or returned is an integer (in Cachy, its bit pattern too).
-- `&mut self` and a pointer that the caller guarantees to be valid are states that are handed
-- through; `Result` is `Result`, and an index beyond a table is `none`. In RoAfterInit, `debug`
-- says whether the build has debug assertions, and reading a value that was never written is the
-- outcome `undefined`. No fuel is used: each loop goes along a list or a tree, or has a fixed
-- number of rounds and recurses on the rounds that are left.
--
-- Concurrency. The steps of MemSentinel/Cpus interleave in one order that all CPUs see. The
-- times that errors carry are any numbers, since CPUs read their clocks before they reach the
-- handler. The memory orderings, and the `Send` and `Sync` markers, are not modelled.
--
-- C code. A 64-bit atomic counter wraps. Memory is a function of the number of the word; a
-- region has the number of its first word and how many words it has. What the kernel gives, such
-- as the masks of its headers, `mce_is_memory_error`, `proc_douintvec_minmax`, `IS_IMMUTABLE`
-- and `hweight64`, is a parameter (`Kernel`, `Vfs`, `Hweight`), with what is relied on as a
-- hypothesis (`IsMinmax`, `IsVfs`, `IsHweight`); so is `proc_dou8vec_minmax` (`Proc`).
-- MAX_RT_PRIO is a parameter of Cachy, and `reweight_entity` and the tables of weights are the
-- kernel's: a task's weight is its index in them. Whether a task is eligible is the kernel's to
-- say, and the relatives of a task do not change while it is forked. A hook is modelled up to
-- the point where it goes on into the kernel. The lock of the scrubber, the change of page
-- permissions around a repair, messages, the delay between passes, and machine checks on several
-- CPUs at once are not modelled.
--
-- Not modelled: the slices, deadlines and other sysctls of patches/0002-bore-cachy.patch; the
-- other patches, which change sources of the kernel that are not in the repository; the
-- declarations in rust/rustlux_bindings.h; kernel configuration, scripts and packaging.
pub mod Base
pub mod Bits
pub mod SoftEcc
pub mod MemSentinel
pub mod PageCache
pub mod SpliceGuard
pub mod RoAfterInit
pub mod Capabilities
pub mod Hardening
pub mod Example
pub mod InTree
pub mod Scrubber
pub mod Sentinel
pub mod Bore
pub mod Cachy
