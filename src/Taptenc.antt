-- ===== src/Taptenc.antt =====
-- src/semantics/platform/taptenc: platform constraints and plans for the taptenc plan
-- transformation. taptenc itself is not part of the repository: its types and constants are
-- parameters.
pub mod Constraint
pub mod Automaton
pub mod Transformation
