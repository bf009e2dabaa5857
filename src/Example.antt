-- ===== src/Example.antt =====
-- modules/rustlux_example/src/lib.rs: the sample module, less its messages, which are comments.
mod UnitTests
use Prim.Native.String.{String}
use linux_rustlux.Base.{Result, ok}

abbrev pub version : String
version = "0.1.0"

abbrev pub name : String
name = "rustlux_example"

-- No operation of it fails, and none has an effect.
unfoldable pub init : Result (Unit {0}) String
init = ok tt

unfoldable pub cleanup : Unit {0}
cleanup = tt
