-- ===== src/Prelude/Net.antt =====
-- What the program takes from Go's `net` package: `net.ParseIP` with `IsLoopback` and `IsUnspecified`
-- of its result, and `net.SplitHostPort`, with `none` for an error.
use Prim.Native.String.{String}
use mathlib.Core.Bool.{Bool}
use mathlib.Core.Option.{Option}

pub record Ip : Type 0 where
  pub is_loopback : Bool
  pub is_unspecified : Bool

pub record Net : Type 0 where
  pub parse_ip : String → Option Ip
  pub split_host : String → Option String
