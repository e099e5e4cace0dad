-- ===== src/Execution/Backend/Heap.antt =====
-- The store of activities: what a pointer shows after a write.
use gologpp.Prelude.{
  ℕ, ◌≡◌, inl, inr, some, none, Option-cases, arith, get_elem?, eqb, eqb_iff, get_elem?-set_self,
  get_elem?-set_ne, get_elem?-lt_length, lookup, nat_eq, if◌then◌else◌,
}
use gologpp.Execution.Activity.{State, idle, Activity}
use gologpp.Execution.Backend.{Backend, state_of, set_state, current_state}

-- Every entry of the map points to an object that was made for a reference of that hash.
pub record IsValid {R : Type 0} (hash : R → ℕ) (b : Backend R) : Type 0 where
  pub alive :
      (k i : ℕ)
      → lookup k b.activities ≡ some i
      → (a : Activity R) × (get_elem? b.objects i ≡ some a) × (hash a.reference ≡ k)

module _ {R : Type 0} where
  pub set_state-activities :
      (i : ℕ) (s : State) (b : Backend R) → (set_state i s b).activities ≡ b.activities
  unfolding set_state
  set_state-activities i s b = ground arith

  -- The object after a write: the same reference, and the new state where it was written.
  pub set_state-objects :
      (i j : ℕ) (s : State) (b : Backend R) (a : Activity R)
      → get_elem? b.objects j ≡ some a
      → get_elem? (set_state i s b).objects j
        ≡ some (record { reference = a.reference; state = if eqb i j then s else a.state })
  unfolding set_state
  set_state-objects i j s b a h = elim (Option-cases (get_elem? b.objects i)) [
    | inl e ↦ rw (e, set_state) (ground (arith, eqb_iff i j))
    | inr (x, e) ↦
        rw (e, set_state)
          (ground (
            arith,
            eqb_iff i j,
            get_elem?-lt_length b.objects i x e,
            get_elem?-set_self b.objects i (record { reference = x.reference; state = s }),
            get_elem?-set_ne b.objects i j (record { reference = x.reference; state = s }),
          ))
  ]

  pub state_of-set_state :
      (i j : ℕ) (s : State) (b : Backend R) (a : Activity R)
      → get_elem? b.objects j ≡ some a
      → state_of (set_state i s b) j ≡ (if eqb i j then s else state_of b j)
  unfolding state_of
  state_of-set_state i j s b a h = ground (arith, set_state-objects i j s b a h)

module _ {R : Type 0} (hash : R → ℕ) where
  pub current_state-none :
      (b : Backend R) (r : R) → lookup (hash r) b.activities ≡ none → current_state hash b r ≡ idle
  unfolding current_state
  current_state-none b r h = ground arith

  pub current_state-some :
      (b : Backend R) (r : R) (i : ℕ) (a : Activity R)
      → lookup (hash r) b.activities ≡ some i
      → get_elem? b.objects i ≡ some a
      → current_state hash b r ≡ a.state
  unfolding current_state state_of
  current_state-some b r i a h k = ground arith
