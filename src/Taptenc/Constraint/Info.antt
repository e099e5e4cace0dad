-- ===== src/Taptenc/Constraint/Info.antt =====
-- What the compilation of constraints returns: taptenc's EncICInfo, TargetSpecs and ICType as
-- src/semantics/platform/taptenc/constraint.cpp builds and inspects them, over the bounds `B`, the
-- action names `N` and the automaton states `G` of taptenc.
use gologpp.Prelude.{String, Bool, true, false, List}

pub data IcType : Type 0 where
  no_op future past since until until_chain : IcType

unfoldable pub ic_type_eq : IcType → IcType → Bool
ic_type_eq no_op no_op = true
ic_type_eq future future = true
ic_type_eq past past = true
ic_type_eq since since = true
ic_type_eq until until = true
ic_type_eq until_chain until_chain = true
ic_type_eq _ _ = false

pub record TargetSpecs (B G : Type 0) : Type 0 where
  pub bounds : B
  pub targets : List G

-- The subclasses of EncICInfo.
pub data Info (B N G : Type 0) : Type 0 where
  unary : String → IcType → List N → TargetSpecs B G → Info B N G
  binary : String → IcType → List N → TargetSpecs B G → List G → Info B N G
  chain : String → IcType → List N → List (TargetSpecs B G) → List N → Info B N G

module _ {B N G : Type 0} where
  unfoldable pub type_of : Info B N G → IcType
  type_of (unary id k a s) = k
  type_of (binary id k a s p) = k
  type_of (chain id k a s e) = k
