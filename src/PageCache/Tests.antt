-- ===== src/PageCache/Tests.antt =====
-- rust/rustlux_mm/src/page_cache.rs: the theorems at concrete flags.
use linux_rustlux.Base.{◌<◌, ◌≡◌, ◌↔◌, refl, true, false, err, List, [], ◌∷◌}
use linux_rustlux.PageCache.{from_raw, suid_or_sgid, permit, permit_new, page_mut}
use linux_rustlux.PageCache.Programs.{Call, ask, release, granted, call, calls, asked, take-asked}
use linux_rustlux.PageCache.Permit.{Refused, permit_new-eq-err}

permit_new-eq-err_example :
    (permit_new (from_raw 0o4010) true ≡ err suid_or_sgid) ↔ Refused 0o4010 true suid_or_sgid
permit_new-eq-err_example = permit_new-eq-err 0o4010 true suid_or_sgid

-- An inode is refused, another one granted; a page is taken by the permit, which is then dropped.
abbrev program : List Call
program = ask 0o4000 false ∷ ask 0o644 false ∷ []

take-asked_example : 0 < asked program
unfolding calls call granted permit_new
take-asked_example =
    take-asked 7 (release ∷ []) program (record { permits = 0; pages = page_mut 7 permit ∷ [] })
      refl
