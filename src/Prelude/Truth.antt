-- ===== src/Prelude/Truth.antt =====
-- Python's truth of an optional string: `None` and the empty string are false.
use Prim.Native.String.{String}
use mathlib.Core.Option.{Option, none, some}
use nexus_n3_core.Prelude.Tests.{if◌then◌else◌}
use nexus_n3_core.Prelude.Keys.{str_eq}

abbrev pub nonempty : String → Option String
nonempty s = if str_eq s "" then none else some s

-- The string of a true value.
abbrev pub truthy : Option String → Option String
truthy none = none
truthy (some s) = nonempty s

-- `str(v)`
abbrev pub str_of : Option String → String
str_of none = "None"
str_of (some s) = s
