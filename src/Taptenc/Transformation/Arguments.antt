-- ===== src/Taptenc/Transformation/Arguments.antt =====
-- What is stored is retrieved (src/semantics/platform/taptenc/transformation.cpp, store_arg and
-- retrieve_arg).
use mathlib.Core.List.{append_cancel_left}
use gologpp.Prelude.{
  ℕ, suc, ◌<◌, ◌≡◌, sym as path_sym, refl, ap, inl, inr, none, some, List, [], ◌∷◌, ◌++◌, length,
  lookup, assign, lookup-assign, Eq, ◌==◌, beq_refl, Bool-cases, Option-cases, some_inj, arith,
}
use gologpp.Error.{ok}
use gologpp.Strings.{Bytes, bytes_Eq}
use gologpp.Strings.Decimal.{to_string, to_string_inj}
use gologpp.Taptenc.Transformation.{Storage, arg, insert, store_arg, retrieve_arg, store_args}

module _ {K A : Type 0} ⦃e : Eq K⦄ where
  length-assign :
      (k : K) (a : A) (m : List (K × A))
      → lookup k m ≡ none
      → length (assign k a m) ≡ suc (length m)
  unfolding lookup assign
  length-assign k a [] h = refl
  length-assign k a ((j, b) ∷ m) h = elim (Bool-cases (j == k)) [
    | inl same ↦ cc (rw same at h)
    | inr other ↦ rw other (ap suc (length-assign k a m (rw other at h)))
  ]

  insert-none : (k : K) (a : A) (m : List (K × A)) → lookup k m ≡ none → insert k a m ≡ assign k a m
  unfolding insert
  insert-none k a m h = rw h

module _ {V : Type 0} where
  -- The symbols of the first storage mean the same in the second.
  abbrev pub Extends : Storage V → Storage V → Type 0
  Extends s s' = (sym : Bytes) (v : V) → retrieve_arg s sym ≡ ok v → retrieve_arg s' sym ≡ ok v

  -- The values that the symbols stand for.
  abbrev pub Stands : Storage V → List Bytes → List V → Type 0
  Stands s [] [] = Unit
  Stands s [] (v ∷ vs) = ⊥
  Stands s (sym ∷ syms) [] = ⊥
  Stands s (sym ∷ syms) (v ∷ vs) = (retrieve_arg s sym ≡ ok v) × Stands s syms vs

module _ {V : Type 0} ⦃e : Eq V⦄ where
  -- The symbol of a value stands for it, and the symbols are numbered by the values that there are.
  pub record IsConsistent (s : Storage V) : Type 0 where
    pub stored :
        (v : V) (sym : Bytes) → lookup v s.arg_to_sym ≡ some sym → lookup sym s.sym_to_arg ≡ some v
    pub numbered :
        (sym : Bytes) (v : V)
        → lookup sym s.sym_to_arg ≡ some v
        → (i : ℕ) × (i < length s.arg_to_sym) × (sym ≡ arg ++ to_string i)

  -- The next symbol is new.
  fresh :
      (s : Storage V)
      → IsConsistent s
      → lookup (arg ++ to_string (length s.arg_to_sym)) s.sym_to_arg ≡ none
  fresh s c = elim (Option-cases (lookup (arg ++ to_string (length s.arg_to_sym)) s.sym_to_arg)) [
    | inl h ↦ h
    | inr (v, h) ↦
        let (i, lt, same) = c.numbered _ v h in
        let e' = to_string_inj (length s.arg_to_sym) i (append_cancel_left arg _ _ same) in
        absurd (omega arith)
  ]

  pub retrieve_arg-lookup :
      (s : Storage V) (sym : Bytes) (v : V)
      → (retrieve_arg s sym ≡ ok v → lookup sym s.sym_to_arg ≡ some v)
        × (lookup sym s.sym_to_arg ≡ some v → retrieve_arg s sym ≡ ok v)
  unfolding retrieve_arg
  retrieve_arg-lookup s sym v = elim (Option-cases (lookup sym s.sym_to_arg)) [
    | inl h ↦ rw h (λ k. cc, λ k. cc)
    | inr (w, h) ↦ rw h (λ k. cc, λ k. cc)
  ]

  new_storage : V → Storage V → Storage V
  new_storage v s =
      let rv = arg ++ to_string (length s.arg_to_sym) in
      record { arg_to_sym = assign v rv s.arg_to_sym; sym_to_arg = assign rv v s.sym_to_arg }

  store_arg-new :
      (v : V) (s : Storage V)
      → IsConsistent s
      → lookup v s.arg_to_sym ≡ none
      → store_arg v s ≡ (arg ++ to_string (length s.arg_to_sym), new_storage v s)
  unfolding store_arg new_storage
  store_arg-new v s c h =
      let rv = arg ++ to_string (length s.arg_to_sym) in
      rw (h, insert-none v rv s.arg_to_sym h, insert-none rv v s.sym_to_arg (fresh s c), store_arg)

  lookup-new_sym :
      (v : V) (s : Storage V) (sym : Bytes) (w : V)
      → IsConsistent s
      → lookup sym s.sym_to_arg ≡ some w
      → lookup sym (new_storage v s).sym_to_arg ≡ some w
  unfolding new_storage
  lookup-new_sym v s sym w c h =
      let rv = arg ++ to_string (length s.arg_to_sym) in
      rw (lookup-assign rv sym v s.sym_to_arg) (elim (Bool-cases (rv == sym)) [
        | inl same ↦ let gone = rw ((bytes_Eq.beq_iff rv sym).0 same) at (fresh s c) in cc (gone, h)
        | inr other ↦ rw other h
      ])

  new_storage-stored :
      (v : V) (s : Storage V)
      → IsConsistent s
      → (w : V) (sym : Bytes) → lookup w (new_storage v s).arg_to_sym ≡ some sym
      → lookup sym (new_storage v s).sym_to_arg ≡ some w
  unfolding new_storage
  new_storage-stored v s c w sym k =
      let rv = arg ++ to_string (length s.arg_to_sym) in
      elim (Bool-cases (v == w)) [
        | inl same ↦
            let k' = some_inj rv sym (rw (lookup-assign v w rv s.arg_to_sym, same) at k) in
            rw (← k', lookup-assign rv rv v s.sym_to_arg, beq_refl rv, (e.beq_iff v w).0 same)
        | inr other ↦
            lookup-new_sym v s sym w c
              (c.stored w sym (rw (lookup-assign v w rv s.arg_to_sym, other) at k))
      ]

  new_storage-numbered :
      (v : V) (s : Storage V)
      → IsConsistent s
      → lookup v s.arg_to_sym ≡ none
      → (sym : Bytes) (w : V) → lookup sym (new_storage v s).sym_to_arg ≡ some w
      → (i : ℕ) × (i < length (new_storage v s).arg_to_sym) × (sym ≡ arg ++ to_string i)
  unfolding new_storage
  new_storage-numbered v s c h sym w k =
      let rv = arg ++ to_string (length s.arg_to_sym) in
      let grown = length-assign v rv s.arg_to_sym h in
      elim (Bool-cases (rv == sym)) [
        | inl same ↦
            (length s.arg_to_sym, omega (arith, grown), path_sym ((bytes_Eq.beq_iff rv sym).0 same))
        | inr other ↦
            let (i, lt, is) =
              c.numbered sym w (rw (lookup-assign rv sym v s.sym_to_arg, other) at k) in
            (i, omega (arith, grown), is)
      ]

  new_found :
      (v : V) (s : Storage V)
      → lookup (arg ++ to_string (length s.arg_to_sym)) (new_storage v s).sym_to_arg ≡ some v
  unfolding new_storage
  new_found v s =
      let rv = arg ++ to_string (length s.arg_to_sym) in
      rw (lookup-assign rv rv v s.sym_to_arg, beq_refl rv)

  store_arg-old :
      (v : V) (s : Storage V) (sym : Bytes)
      → lookup v s.arg_to_sym ≡ some sym
      → store_arg v s ≡ (sym, s)
  unfolding store_arg
  store_arg-old v s sym h = rw (h, store_arg)

  new_storage-IsConsistent :
      (v : V) (s : Storage V)
      → IsConsistent s
      → lookup v s.arg_to_sym ≡ none
      → IsConsistent (new_storage v s)
  new_storage-IsConsistent v s c h = record {
    stored = new_storage-stored v s c;
    numbered = new_storage-numbered v s c h;
  }

  -- What a storage has to do after it has taken values.
  abbrev Kept : Storage V → Storage V → Type 0
  Kept s s' = IsConsistent s' × Extends s s'

  store_arg_lem :
      (v : V) (s : Storage V)
      → IsConsistent s
      → Kept s (store_arg v s).1 × (retrieve_arg (store_arg v s).1 (store_arg v s).0 ≡ ok v)
  store_arg_lem v s c = elim (Option-cases (lookup v s.arg_to_sym)) [
    | inl h ↦
        let rv = arg ++ to_string (length s.arg_to_sym) in
        rw (store_arg-new v s c h) (
          (
            new_storage-IsConsistent v s c h,
            λ sym w k.
                (retrieve_arg-lookup (new_storage v s) sym w).1
                  (lookup-new_sym v s sym w c ((retrieve_arg-lookup s sym w).0 k)),
          ),
          (retrieve_arg-lookup (new_storage v s) rv v).1 (new_found v s),
        )
    | inr (sym, h) ↦
        rw (store_arg-old v s sym h)
          ((c, λ sym w k. k), (retrieve_arg-lookup s sym v).1 (c.stored v sym h))
  ]

  -- Arguments that are stored, one after the other, are all retrieved in the end by
  -- their symbols, and so is what was stored before; the storage stays consistent.
  pub store_args-Stands :
      (vs : List V) (s : Storage V)
      → IsConsistent s
      → IsConsistent (store_args vs s).1
        × Extends s (store_args vs s).1
        × Stands (store_args vs s).1 (store_args vs s).0 vs
  unfolding store_args
  store_args-Stands [] s c = (c, λ sym v h. h, tt)
  store_args-Stands (v ∷ vs) s c =
      let ((c', x), r) = store_arg_lem v s c in
      let (c'', x', st) = store_args-Stands vs (store_arg v s).1 c' in
      (c'', λ sym w h. x' sym w (x sym w h), (x' (store_arg v s).0 v r, st))
