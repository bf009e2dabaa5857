-- ===== src/Example/UnitTests.antt =====
-- modules/rustlux_example/src/lib.rs: the unit tests of that file. A test is what its assertions
-- check.
use linux_rustlux.Base.{◌≡◌, refl, true, is_ok}
use linux_rustlux.Example.{name, init}

abbrev ModuleInitSucceeds : Type 0
ModuleInitSucceeds = is_ok init ≡ true

module_init_succeeds : ModuleInitSucceeds
unfolding init
module_init_succeeds = refl

abbrev ModuleHasName : Type 0
ModuleHasName = name ≡ "rustlux_example"

module_has_name : ModuleHasName
module_has_name = refl
