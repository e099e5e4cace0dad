-- ===== src/Execution/Run.antt =====
-- The controller's thread and the platform's threads together: transitions of the program, updates
-- by the platform, exogenous actions and drains of the queue, in any order. Each operation is taken
-- as one step.
pub mod Brackets
pub mod Stuck
pub mod Tests
use gologpp.Prelude.{ℕ, ◌≡◌, ◌<◌, refl, sym, ap, ◌∙◌, true, false, some, [], length, lookup, nat_eq}
use gologpp.Error.{ok}
use gologpp.Execution.Activity.{Hook, target_state}
use gologpp.Execution.Backend.{Transition, current_state, init, set_state}
use gologpp.Execution.Backend.Heap.{IsValid}
use gologpp.Execution.Backend.Laws.{init-IsValid, set_state-IsValid, current_state-set_state_miss}
use gologpp.Execution.Context.{Event, exog, Context, Actions}
use gologpp.Execution.Transition.{trans, update}
use gologpp.Execution.Transition.Enabled.{trans-states}
use gologpp.Execution.Controller.{exog_queue_push, drain_exog_queue}
use gologpp.Execution.Controller.Drain.{drain_exog_queue_lem}

module _ {R X : Type 0} (env : Actions R X) where
  pub data Step (c c' : Context R X) : Type 0 where
    execute : (t : Transition R) → trans env t c ≡ ok (some c') → Step c c'
    report : (i : ℕ) (h : Hook) → i < length c.backend.objects → c' ≡ update i h c → Step c c'
    occur : (x : X) → c' ≡ exog_queue_push (exog x) c → Step c c'
    drain : c' ≡ drain_exog_queue env c → Step c c'

  pub data Reach (c : Context R X) : Context R X → Type 0 where
    here : Reach c c
    next : {d e : Context R X} → Reach c d → Step d e → Reach c e

  abbrev pub empty : Context R X
  empty = record { backend = init; queue = []; history = []; silent = false }

  pub Step-IsValid :
      {c c' : Context R X} → Step c c' → IsValid env.hash c.backend → IsValid env.hash c'.backend
  unfolding update exog_queue_push
  Step-IsValid {c} {c'} (execute t h) v = (trans-states env t c c' v h).0
  Step-IsValid {c} {c'} (report i h _ e) v =
      rw e (set_state-IsValid env.hash i (target_state h) c.backend v)
  Step-IsValid (occur x e) v = rw e v
  Step-IsValid {c} (drain e) v = rw (e, (drain_exog_queue_lem env c).2) v

  -- In every context that a run from the empty one reaches, each entry of the map points to an
  -- activity of its hash.
  pub Reach-IsValid : {c : Context R X} → Reach empty c → IsValid env.hash c.backend
  Reach-IsValid here = init-IsValid env.hash
  Reach-IsValid (next r s) = Step-IsValid s (Reach-IsValid r)
