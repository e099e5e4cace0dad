-- ===== src/Readylog.antt =====
-- src/semantics/readylog: programs and values as terms of the Prolog engine ECLiPSe, which is not part
-- of the repository. `Engine` is what its C++ interface does with terms.
pub mod Numbers
pub mod Terms
pub mod Values
pub mod Laws
pub mod Tests
use gologpp.Prelude.{String, ◌≡◌, List}
use gologpp.Readylog.Numbers.{ℤ}

-- What a term shows when it is inspected; `W` are terms, and `D` doubles.
pub data View (W D : Type 0) : Type 0 where
  integer : ℤ → View W D
  double : D → View W D
  atom : String → View W D
  quoted : String → View W D
  nil : View W D
  cons : W → W → View W D
  compound : String → List W → View W D
  variable : View W D

-- A term that is built shows what it was built from.
pub record Engine (D : Type 0) : Type 1 where
  pub EcWord : Type 0
  pub build : View EcWord D → EcWord
  pub view : EcWord → View EcWord D
  pub view-build : (v : View EcWord D) → view (build v) ≡ v
