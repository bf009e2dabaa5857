-- ===== src/PageCache.antt =====
-- rust/rustlux_mm/src/page_cache.rs: the permit without which no page is handed out for writing.
-- The markers that make the permit neither `Send` nor `Sync` and the lifetime that ties a page to
-- its permit have no content at run time; a page takes its permit as an argument.
pub mod Permit
pub mod Programs
mod UnitTests
mod Tests
use linux_rustlux.Base.{ℕ, bit_and, Bool, not, ◌||◌, ◌==◌, if◌then◌else◌, Result, ok, err}

pub record InodeFlags : Type 0 where
  pub bits : ℕ

abbrev pub suid : InodeFlags
suid = record { bits = 0o4000 }

abbrev pub sgid : InodeFlags
sgid = record { bits = 0o2000 }

abbrev pub immutable : InodeFlags
immutable = record { bits = 8 }

abbrev pub append_only : InodeFlags
append_only = record { bits = 16 }

abbrev pub from_raw : ℕ → InodeFlags
from_raw raw = record { bits = raw }

unfoldable pub contains : InodeFlags → InodeFlags → Bool
contains flags other = not (bit_and flags.bits other.bits == 0)

pub data PageWriteError : Type 0 where
  suid_or_sgid read_only_filesystem immutable_inode append_only_inode permission_denied :
      PageWriteError

pub data PageWritePermit : Type 0 where
  permit : PageWritePermit

unfoldable pub permit_new : InodeFlags → Bool → Result PageWritePermit PageWriteError
unfolding contains
permit_new flags sb_readonly =
    if contains flags suid || contains flags sgid
    then err suid_or_sgid
    else if sb_readonly
    then err read_only_filesystem
    else if contains flags immutable
    then err immutable_inode
    else if contains flags append_only
    then err append_only_inode
    else ok permit

abbrev pub new_unchecked : PageWritePermit
new_unchecked = permit

pub record PageMut : Type 0 where
  pub index : ℕ

abbrev pub page_mut : ℕ → PageWritePermit → PageMut
page_mut index permit = record { index = index }
