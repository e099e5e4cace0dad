-- ===== src/Execution/Backend/Laws.antt =====
-- What the operations of the backend do to the states that it reports, and that they keep it valid.
use gologpp.Prelude.{
  ◌∙◌, beq_refl, some_inj, if_ne, Bool-cases, ℕ, ◌≡◌, ◌≢◌, inl, inr, some, none, Option-cases,
  arith, length, eqb, eqb_iff, lookup, erase, assign, nat_eq, ◌==◌, if◌then◌else◌, ◌∷◌, [], ◌++◌,
  get_elem?-append_left, get_elem?-append_length, get_elem?-lt_length, lookup-assign, lookup-erase,
  get_elem?, true, false, ap, sym,
}
use gologpp.Error.{ok}
use gologpp.Execution.Activity.{State, idle, running, Activity, start}
use gologpp.Execution.Backend.{
  Backend, Transition, state_of, set_state, start_activity, cancel_activity, erase_activity,
  current_state, init,
}
use gologpp.Execution.Backend.Heap.{
  IsValid, current_state-none, current_state-some, set_state-activities, set_state-objects,
}

module _ {R : Type 0} (hash : R → ℕ) where
  pub init-IsValid : IsValid {R = R} hash init
  unfolding init lookup
  init-IsValid = record { alive = λ k i h. cc }

  pub set_state-IsValid :
      (i : ℕ) (s : State) (b : Backend R) → IsValid hash b → IsValid hash (set_state i s b)
  set_state-IsValid i s b v = record {
    alive = λ k j h.
        let (a, here, there) = v.alive k j (rw (set_state-activities i s b) at h) in
        (
          record { reference = a.reference; state = if eqb i j then s else a.state },
          set_state-objects i j s b a here,
          there,
        );
  }

  -- The new object stands at the end of the store, and the map points to it.
  pub start_activity_shape :
      (t : Transition R) (b b' : Backend R)
      → start_activity hash t b ≡ ok b'
      → (b'.objects ≡ b.objects ++ record { reference = t.reference; state = running } ∷ [])
        × (b'.activities ≡ assign (hash t.reference) (length b.objects) b.activities)
        × (lookup (hash t.reference) b.activities ≡ none)
        × (t.hook ≡ start)
  unfolding start_activity
  start_activity_shape t b b' h = ground arith

  pub erase_activity_shape :
      (t : Transition R) (b b' : Backend R)
      → erase_activity hash t b ≡ ok b'
      → (b'.objects ≡ b.objects) × (b'.activities ≡ erase (hash t.reference) b.activities)
  unfolding erase_activity
  erase_activity_shape t b b' h = ground arith

  pub cancel_activity_shape :
      (t : Transition R) (b b' : Backend R)
      → cancel_activity hash t b ≡ ok b'
      → (b'.objects ≡ b.objects) × (b'.activities ≡ b.activities)
  unfolding cancel_activity
  cancel_activity_shape t b b' h = ground arith

  -- Validity reads the store and the map only.
  IsValid-transport :
      (b b' : Backend R)
      → b'.objects ≡ b.objects
      → b'.activities ≡ b.activities
      → IsValid hash b
      → IsValid hash b'
  IsValid-transport b b' o m v = record {
    alive =
        λ k i found. let (a, here, there) = v.alive k i (rw m at found) in (a, rw o here, there);
  }

  pub cancel_activity-IsValid :
      (t : Transition R) (b b' : Backend R)
      → cancel_activity hash t b ≡ ok b'
      → IsValid hash b
      → IsValid hash b'
  cancel_activity-IsValid t b b' h =
      let (o, m) = cancel_activity_shape t b b' h in IsValid-transport b b' o m

  pub erase_activity-IsValid :
      (t : Transition R) (b b' : Backend R)
      → erase_activity hash t b ≡ ok b'
      → IsValid hash b
      → IsValid hash b'
  erase_activity-IsValid t b b' h v =
      let (o, m) = erase_activity_shape t b b' h in
      record {
        alive = λ k i found.
            let (a, here, there) =
              v.alive k i
                (ground (arith, lookup-erase (hash t.reference) k b.activities, ap (lookup k) m)) in
            (a, rw o here, there);
      }

  -- Where the map leads after a start, for the started reference and for any other.
  pub start_activity-hit :
      (t : Transition R) (b b' : Backend R) (k : ℕ)
      → start_activity hash t b ≡ ok b'
      → (hash t.reference == k) ≡ true
      → (lookup k b'.activities ≡ some (length b.objects))
        × (get_elem? b'.objects (length b.objects)
            ≡ some (record { reference = t.reference; state = running }))
  start_activity-hit t b b' k h e =
      let (o, m, _, _) = start_activity_shape t b b' h in
      (
        rw (m, lookup-assign (hash t.reference) k, e),
        rw o (
            get_elem?-append_length b.objects
              (record { reference = t.reference; state = running })),
      )

  pub start_activity-miss :
      (t : Transition R) (b b' : Backend R) (k : ℕ)
      → start_activity hash t b ≡ ok b'
      → (hash t.reference == k) ≡ false
      → lookup k b'.activities ≡ lookup k b.activities
  start_activity-miss t b b' k h e =
      let (o, m, _, _) = start_activity_shape t b b' h in
      rw (m, lookup-assign (hash t.reference) k, e)

  pub start_activity-old :
      (t : Transition R) (b b' : Backend R) (i : ℕ) (a : Activity R)
      → start_activity hash t b ≡ ok b'
      → get_elem? b.objects i ≡ some a
      → get_elem? b'.objects i ≡ some a
  start_activity-old t b b' i a h e =
      let (o, _, _, _) = start_activity_shape t b b' h in
      rw o (get_elem?-append_left b.objects _ i (get_elem?-lt_length b.objects i a e) ∙ e)

  pub start_activity-IsValid :
      (t : Transition R) (b b' : Backend R)
      → start_activity hash t b ≡ ok b'
      → IsValid hash b
      → IsValid hash b'
  start_activity-IsValid t b b' h v = record {
    alive = λ k i found. elim (Bool-cases (hash t.reference == k)) [
      | inl e ↦
          let (l, g) = start_activity-hit t b b' k h e in
          (
            record { reference = t.reference; state = running },
            ap (get_elem? b'.objects) (some_inj _ _ (sym found ∙ l)) ∙ g,
            (eqb_iff _ _).0 e,
          )
      | inr e ↦
          let (a, here, there) = v.alive k i (sym (start_activity-miss t b b' k h e) ∙ found) in
          (a, start_activity-old t b b' i a h here, there)
    ];
  }

  pub current_state-start_activity :
      (t : Transition R) (b b' : Backend R) (r : R)
      → start_activity hash t b ≡ ok b'
      → IsValid hash b
      → current_state hash b' r
        ≡ (if hash t.reference == hash r then running else current_state hash b r)
  current_state-start_activity t b b' r h v = elim (Bool-cases (hash t.reference == hash r)) [
    | inl e ↦
        let (l, g) = start_activity-hit t b b' (hash r) h e in
        rw e (current_state-some hash b' r _ _ l g)
    | inr e ↦ rw e (unchanged (start_activity-miss t b b' (hash r) h e))
  ]
    where
      unchanged :
          lookup (hash r) b'.activities ≡ lookup (hash r) b.activities
          → current_state hash b' r ≡ current_state hash b r
      unchanged m = elim (Option-cases (lookup (hash r) b.activities)) [
        | inl n ↦ current_state-none hash b' r (m ∙ n) ∙ sym (current_state-none hash b r n)
        | inr (i, f) ↦
            let (a, here, _) = v.alive (hash r) i f in
            current_state-some hash b' r i a (m ∙ f) (start_activity-old t b b' i a h here)
            ∙ sym (current_state-some hash b r i a f here)
      ]

  pub current_state-erase_activity :
      (t : Transition R) (b b' : Backend R) (r : R)
      → erase_activity hash t b ≡ ok b'
      → current_state hash b' r
        ≡ (if hash t.reference == hash r then idle else current_state hash b r)
  unfolding current_state state_of
  current_state-erase_activity t b b' r h = ground (
    arith,
    erase_activity_shape t b b' h,
    ap (lookup (hash r)) (erase_activity_shape t b b' h).1,
    lookup-erase (hash t.reference) (hash r) b.activities,
  )

  pub current_state-cancel_activity :
      (t : Transition R) (b b' : Backend R) (r : R)
      → cancel_activity hash t b ≡ ok b'
      → current_state hash b' r ≡ current_state hash b r
  unfolding current_state state_of
  current_state-cancel_activity t b b' r h = ground (arith, cancel_activity_shape t b b' h)

  -- A write by the platform is seen at a reference whose entry is the written object.
  pub current_state-set_state_hit :
      (i : ℕ) (s : State) (b : Backend R) (r : R)
      → IsValid hash b
      → lookup (hash r) b.activities ≡ some i
      → current_state hash (set_state i s b) r ≡ s
  current_state-set_state_hit i s b r v f =
      let (a, here, _) = v.alive (hash r) i f in
      current_state-some hash (set_state i s b) r i _
        (ap (lookup (hash r)) (set_state-activities i s b) ∙ f) (set_state-objects i i s b a here)
      ∙ (rw (beq_refl i))

  -- It is not seen at any other.
  pub current_state-set_state_miss :
      (i : ℕ) (s : State) (b : Backend R) (r : R)
      → IsValid hash b
      → lookup (hash r) b.activities ≢ some i
      → current_state hash (set_state i s b) r ≡ current_state hash b r
  current_state-set_state_miss i s b r v f = elim (Option-cases (lookup (hash r) b.activities)) [
    | inl n ↦
        current_state-none hash (set_state i s b) r
          (ap (lookup (hash r)) (set_state-activities i s b) ∙ n)
        ∙ sym (current_state-none hash b r n)
    | inr (j, g) ↦
        let (a, here, _) = v.alive (hash r) j g in
        current_state-some hash (set_state i s b) r j _
          (ap (lookup (hash r)) (set_state-activities i s b) ∙ g) (set_state-objects i j s b a here)
        ∙ if_ne i j _ _ (λ e. f (g ∙ ap some (sym e)))
        ∙ sym (current_state-some hash b r j a g here)
  ]
