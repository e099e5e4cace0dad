-- ===== src/Execution/Transition/Enabled.antt =====
-- When a transition is possible, and what it does.
use gologpp.Prelude.{
  ◌≡◌, ◌≢◌, ◌↔◌, refl, ap, inl, inr, true, Option, none, some, Bool-cases, ◌∷◌, lookup, nat_eq,
  ◌==◌, if◌then◌else◌, ◌&&◌, arith, eqb_iff,
}
use gologpp.Error.{Error, Result, ok, err, ◌>>=◌, user_error}
use gologpp.Execution.Activity.{
  Hook, start, end, fail, finish, cancel, State, idle, running, cancelled, hook_eq,
}
use gologpp.Execution.Backend.{
  Backend, Transition, current_state, start_activity, cancel_activity, erase_activity,
}
use gologpp.Execution.Backend.Heap.{IsValid, current_state-none}
use gologpp.Execution.Backend.Laws.{
  start_activity-IsValid, cancel_activity-IsValid, erase_activity-IsValid,
  current_state-start_activity, current_state-cancel_activity, current_state-erase_activity,
}
use gologpp.Execution.Context.{Context, Actions, Entry}
use gologpp.Execution.Transition.{dispatch, conclude, trans}

-- The state of an activity after a hook has been executed. `cancel` only asks the platform.
abbrev pub next_state : Hook → State
next_state start = running
next_state cancel = running
next_state finish = idle
next_state fail = idle
next_state end = idle

module _ {R X : Type 0} (env : Actions R X) where
  -- A transition that is possible is one of the backend's operations, under its guard.
  pub data Operation (t : Transition R) (b b' : Backend R) : Type 0 where
    starting : t.hook ≡ start → start_activity env.hash t b ≡ ok b' → Operation t b b'
    cancelling :
        t.hook ≡ cancel
        → current_state env.hash b t.reference ≡ running
        → cancel_activity env.hash t b ≡ ok b'
        → Operation t b b'
    erasing : next_state t.hook ≡ idle → erase_activity env.hash t b ≡ ok b' → Operation t b b'

  dispatch-some :
      (h : Hook) (t : Transition R) (c : Context R X) (b : Backend R)
      → t.hook ≡ h
      → dispatch env h (current_state env.hash c.backend t.reference) t c ≡ ok (some b)
      → Operation t c.backend b
  unfolding dispatch
  dispatch-some start t c b e d = starting e (ground arith)
  dispatch-some cancel t c b e d = cancelling e (ground arith) (ground arith)
  dispatch-some finish t c b e d = erasing (ap next_state e) (ground arith)
  dispatch-some fail t c b e d = erasing (ap next_state e) (ground arith)
  dispatch-some end t c b e d = erasing (ap next_state e) (ground arith)

  conclude-some :
      (r : Result (Option (Backend R))) (t : Transition R) (c c' : Context R X)
      → (r >>= conclude env t c) ≡ ok (some c')
      → (r ≡ ok (some c'.backend))
        × (c'.history ≡ Entry.transition t ∷ c.history)
        × (c'.queue ≡ c.queue)
  unfolding conclude
  conclude-some (ok none) t c c' h = cc
  conclude-some (ok (some b)) t c c' h = ground arith
  conclude-some (err e) t c c' h = cc

  pub trans-some :
      (t : Transition R) (c c' : Context R X)
      → trans env t c ≡ ok (some c')
      → Operation t c.backend c'.backend
        × (c'.history ≡ Entry.transition t ∷ c.history)
        × (c'.queue ≡ c.queue)
  unfolding trans
  trans-some t c c' h =
      let (d, hist, q) =
        conclude-some (dispatch env t.hook (current_state env.hash c.backend t.reference) t c) t c
          c' h in
      (dispatch-some t.hook t c c'.backend refl d, hist, q)

  Operation-IsValid :
      (t : Transition R) (b b' : Backend R)
      → Operation t b b'
      → IsValid env.hash b
      → IsValid env.hash b'
  Operation-IsValid t b b' (starting _ o) = start_activity-IsValid env.hash t b b' o
  Operation-IsValid t b b' (cancelling _ _ o) = cancel_activity-IsValid env.hash t b b' o
  Operation-IsValid t b b' (erasing _ o) = erase_activity-IsValid env.hash t b b' o

  pub current_state-cong :
      (b : Backend R) (q r : R)
      → env.hash q ≡ env.hash r
      → current_state env.hash b q ≡ current_state env.hash b r
  unfolding current_state
  current_state-cong b q r e = ground (arith, ap (λ k. lookup k b.activities) e)

  Operation-states :
      (t : Transition R) (b b' : Backend R) (r : R)
      → Operation t b b'
      → IsValid env.hash b
      → current_state env.hash b' r ≡ (
          if env.hash t.reference == env.hash r
          then next_state t.hook
          else current_state env.hash b r)
  Operation-states t b b' r (starting e o) v =
      rw e (current_state-start_activity env.hash t b b' r o v)
  Operation-states t b b' r (erasing e o) v =
      rw e (current_state-erase_activity env.hash t b b' r o)
  Operation-states t b b' r (cancelling e g o) v = rw e (
      ground (
        arith,
        eqb_iff (env.hash t.reference) (env.hash r),
        current_state-cancel_activity env.hash t b b' r o,
        current_state-cong b t.reference r,
      ))

  -- A transition that is executed on a valid backend keeps it valid, moves the activity of its
  -- reference to the state of its hook, leaves the activities of all other hashes as they were,
  -- and is the newest entry of the history; the queue stays.
  pub trans-states :
      (t : Transition R) (c c' : Context R X)
      → IsValid env.hash c.backend
      → trans env t c ≡ ok (some c')
      → IsValid env.hash c'.backend
        × ((r : R)
            → current_state env.hash c'.backend r ≡ (
                if env.hash t.reference == env.hash r
                then next_state t.hook
                else current_state env.hash c.backend r))
        × (c'.history ≡ Entry.transition t ∷ c.history)
        × (c'.queue ≡ c.queue)
  trans-states t c c' v h =
      let (o, hist, q) = trans-some t c c' h in
      (
        Operation-IsValid t c.backend c'.backend o v,
        λ r. Operation-states t c.backend c'.backend r o v,
        hist,
        q,
      )

  conclude-err :
      (r : Result (Option (Backend R))) (t : Transition R) (c : Context R X) (e : Error)
      → ((r >>= conclude env t c) ≡ err e) ↔ (r ≡ err e)
  unfolding conclude
  conclude-err (ok none) t c e = ((λ h. cc), λ h. cc)
  conclude-err (ok (some b)) t c e = ((λ h. cc), λ h. cc)
  conclude-err (err d) t c e = ((λ h. cc), λ h. cc)

  dispatch-no_error :
      (h : Hook) (t : Transition R) (c : Context R X) (e : Error)
      → t.hook ≡ h
      → h ≢ start
      → dispatch env h (current_state env.hash c.backend t.reference) t c ≢ err e
  unfolding dispatch current_state cancel_activity erase_activity
  dispatch-no_error start t c e q n d = n refl
  dispatch-no_error cancel t c e q n d = ground arith
  dispatch-no_error finish t c e q n d = ground arith
  dispatch-no_error fail t c e q n d = ground arith
  dispatch-no_error end t c e q n d = ground arith

  dispatch-start_throws :
      (t : Transition R) (c : Context R X)
      → t.hook ≡ start
      → (dispatch env start (current_state env.hash c.backend t.reference) t c ≡ err user_error) ↔ (
          (env.precondition t.reference c.history ≡ true)
          × (lookup (env.hash t.reference) c.backend.activities ≢ none)
          × (current_state env.hash c.backend t.reference ≢ running))
  unfolding dispatch current_state start_activity
  dispatch-start_throws t c h = ground arith

  -- No transition but `start` throws: what `erase_activity` and `cancel_activity` refuse is ruled
  -- out by the guards of `trans`.
  pub trans_no_error :
      (t : Transition R) (c : Context R X) (e : Error) → t.hook ≢ start → trans env t c ≢ err e
  unfolding trans
  trans_no_error t c e n h = dispatch-no_error t.hook t c e refl n ((conclude-err _ t c e).0 h)

  abbrev pub at : R → Hook → Transition R
  at r h = record { reference = r; hook = h }

  -- `start` throws a UserError exactly when its precondition holds and an activity of the same hash
  -- is still in the backend's map, but is not running.
  pub trans-start_throws :
      (r : R) (c : Context R X)
      → (trans env (at r start) c ≡ err user_error) ↔ (
          (env.precondition r c.history ≡ true)
          × (lookup (env.hash r) c.backend.activities ≢ none)
          × (current_state env.hash c.backend r ≢ running))
  unfolding trans
  trans-start_throws r c =
      let d = dispatch-start_throws (at r start) c refl in
      let f =
        conclude-err (dispatch env start (current_state env.hash c.backend r) (at r start) c)
          (at r start) c user_error in
      ((λ e. d.0 (f.0 e)), λ p. f.1 (d.1 p))

  current_state-in_map :
      (b : Backend R) (r : R)
      → current_state env.hash b r ≢ idle
      → lookup (env.hash r) b.activities ≢ none
  current_state-in_map b r n e = n (current_state-none env.hash b r e)

  -- A cancelled activity stays where it is: no hook is possible for its reference, and `start`
  -- throws a UserError where its precondition holds.
  pub trans-cancelled :
      (r : R) (h : Hook) (c : Context R X)
      → current_state env.hash c.backend r ≡ cancelled
      → trans env (at r h) c
        ≡ (if hook_eq h start && env.precondition r c.history then err user_error else ok none)
  unfolding trans dispatch conclude hook_eq
  trans-cancelled r start c s = elim (Bool-cases (env.precondition r c.history)) [
    | inl p ↦
        let throws =
          (trans-start_throws r c).1 (p, current_state-in_map c.backend r (λ e. cc), λ e. cc) in
        ground (arith, throws)
    | inr p ↦ rw (p, s) (ground arith)
  ]
  trans-cancelled r cancel c s = rw s refl
  trans-cancelled r finish c s = rw s refl
  trans-cancelled r fail c s = rw s refl
  trans-cancelled r end c s = rw s refl
