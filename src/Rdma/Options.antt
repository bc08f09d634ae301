-- ===== src/Rdma/Options.antt =====
-- The options of `rcmain`: what `getopt_long` hands over, one by one, and the arguments that are
-- left. An option's number is what `strtoul` made of its text.
pub mod Accepts
use communication_speed.Prelude.{
  ℕ, ◌-◌, ◌^◌, List, [], ◌∷◌, Bool, true, false, Option, none, some, ltb, u32, if◌then◌else◌,
}
use communication_speed.Prelude.Int.{ℤ, pos, negsuc, is_neg}
use communication_speed.Rdma.Types.{Config}

pub data Opt : Type 0 where
  port ib_port gid_idx : (n : ℕ) → Opt
  ib_dev : (name : List ℕ) → Opt
  unknown : Opt

-- The conversion of an `unsigned long` to `int`.
unfoldable pub to_int : ℕ → ℤ
to_int n = let m = u32 n in if ltb m (2 ^ 31) then pos m else negsuc (2 ^ 32 - m - 1)

-- `if( config.x < 0 ) return 1;`
abbrev pub accept_if : Bool → Config → Option Config
accept_if true c = some c
accept_if false c = none

unfoldable pub set_option : Opt → Config → Option Config
set_option (port n) c = some (record c { tcp_port = u32 n })
set_option (ib_dev name) c = some (record c { dev_name = some name })
set_option (ib_port n) c =
    accept_if (if is_neg (to_int n) then false else true) (record c { ib_port = to_int n })
set_option (gid_idx n) c =
    accept_if (if is_neg (to_int n) then false else true) (record c { gid_idx = to_int n })
set_option unknown c = none

-- The loop over the options; `none` is `return 1`.
unfoldable pub read_options : List Opt → Config → Option Config
read_options [] c = some c
read_options (o ∷ os) c = elim (set_option o c) [ none ↦ none | some c' ↦ read_options os c' ]

-- One argument left is the server's name; none makes this side the server.
unfoldable pub read_arguments : List (List ℕ) → Config → Option Config
read_arguments [] c = some c
read_arguments (name ∷ []) c = some (record c { server_name = some name })
read_arguments (name ∷ another ∷ rest) c = none

unfoldable pub configure : List Opt → List (List ℕ) → Config → Option Config
configure os args c = elim (read_options os c) [ none ↦ none | some c' ↦ read_arguments args c' ]
