-- ===== src/Readylog/Laws.antt =====
-- Which values come back from the engine as they were (src/semantics/readylog/value.cpp).
use Prim.Native.Nat.{◌^◌}
use Prim.Native.String.{◌++◌ as push_str}
use text.Mathlib.TextLemmas.{cons-append, nil-append}
use gologpp.Prelude.{
  ℕ, suc, ◌<◌, String, ◌≡◌, ◌↔◌, refl, sym, ap, ◌∙◌, inl, inr, Bool, true, false, Option, none,
  some, List, [], ◌∷◌, lookup, ◌==◌, text_eq, Bool-cases, Option-cases, some_inj, arith,
}
use gologpp.Error.{Result, ok, ok_inj, bind-ok, ◌>>=◌}
use gologpp.Types.{
  number, string, symbol, ValueType, undefined_type, predefined, compound_type, list_type,
  domain_type, name,
}
use gologpp.Values.{Value, value, type_of, Representation, atomic, list_value}
use gologpp.Readylog.{Engine, View, integer, double, atom, quoted, nil, cons, compound, variable}
use gologpp.Readylog.Numbers.{
  ℤ, pos, negsuc, Number, unsigned_int, int, unsigned_long, long, floating, as_signed, fits_long,
  InRange, as_signed-fits_long,
}
use gologpp.Readylog.Terms.{
  Atomic, numeric, textual, number_term, predefined_term, value_term, elements_term,
}
use gologpp.Readylog.Values.{
  without_first, lookup_type, as_list, lookup_list_type, atom_value, bool_value, read_elements,
  read_list, read_typed, read_view, pl_term_to_value,
}

-- The integer of a number that is none of the doubles.
abbrev pub integer_of : {D : Type 0} → Number D → Option ℤ
integer_of (unsigned_int n) = some (pos n)
integer_of (int i) = some i
integer_of (unsigned_long n) = some (pos n)
integer_of (long i) = some i
integer_of (floating d) = none

long_inj :
    {D S : Type 0} (i j : ℤ)
    → ◌≡◌ {A = Result (Value (Atomic D) S)}
        (ok (value (predefined number) (atomic (numeric (long i)))))
        (ok (value (predefined number) (atomic (numeric (long j)))))
    → i ≡ j
long_inj i j h = cc

atom_value-symbol :
    {D S : Type 0} (s : String)
    → (◌≡◌ {A = Result (Value (Atomic D) S)}
        (ok (atom_value s))
        (ok (value (predefined symbol) (atomic (textual s)))))
      ↔ (((s == "true") ≡ false) × ((s == "fail") ≡ false))
unfolding atom_value
atom_value-symbol s = elim (Bool-cases (s == "true")) [
  | inl yes' ↦ rw yes' ((λ h. cc), λ h. cc (h.0))
  | inr no' ↦ elim (Bool-cases (s == "fail")) [
    | inl yes' ↦ rw (no', yes') ((λ h. cc), λ h. cc (h.1))
    | inr no'' ↦ rw (no', no'') ((λ h. (refl, refl)), λ h. refl)
  ]
]

as_list-list : {S : Type 0} (t e : ValueType S) → as_list (some t) ≡ some e → t ≡ list_type e
unfolding as_list
as_list-list undefined_type e h = cc
as_list-list (predefined p) e h = cc
as_list-list (compound_type c fs) e h = cc
as_list-list (domain_type d u s) e h = cc
as_list-list (list_type u) e h = ap list_type (some_inj u e h)

without_first-hash : (s : String) → without_first (push_str "#" s) ≡ ok s
unfolding without_first
without_first-hash s = rw (cons-append "#" "" s) (ap ok (nil-append s))

as_signed-exact : (n : ℕ) → as_signed n ≡ pos n → fits_long (pos n) ≡ true
unfolding as_signed fits_long
as_signed-exact n h = ground arith

exact-as_signed : (n : ℕ) → fits_long (pos n) ≡ true → as_signed n ≡ pos n
unfolding as_signed fits_long
exact-as_signed n h = rw h

module _ {D S : Type 0} (engine : Engine D) (subset : S → S → Bool)
    (suits : ValueType S → Value (Atomic D) S → Result Bool)
    (types : List (String × ValueType S)) where
  open engine use {EcWord, build, view, view-build}

  abbrev read : ℕ → EcWord → Result (Value (Atomic D) S)
  read = pl_term_to_value engine subset suits types

  read-build :
      (fuel : ℕ) (v : View EcWord D)
      → read (suc fuel) (build v) ≡ read_view engine subset suits types (read fuel) fuel v
  unfolding pl_term_to_value
  read-build fuel v = rw (view-build v)

  abbrev read_number : ℤ → Result (Value (Atomic D) S)
  read_number i = ok (value (predefined number) (atomic (numeric (long i))))

  read-integer :
      (fuel : ℕ) (j : ℤ) → fits_long j ≡ true → read (suc fuel) (build (integer j)) ≡ read_number j
  unfolding read_view
  read-integer fuel j h = rw (read-build fuel (integer j), h)

  read-signed :
      (fuel n : ℕ) (i : ℤ)
      → n < 2 ^ 64
      → pos n ≡ i
      → (read (suc fuel) (build (integer (as_signed n))) ≡ read_number i) ↔ (fits_long i ≡ true)
  read-signed fuel n i r e =
      rw (read-integer fuel (as_signed n) (as_signed-fits_long n r), ← e)
        ((λ h. as_signed-exact n (long_inj (as_signed n) (pos n) h)), λ h. rw (exact-as_signed n h))

  read-same :
      (fuel : ℕ) (j i : ℤ)
      → fits_long j ≡ true
      → j ≡ i
      → (read (suc fuel) (build (integer j)) ≡ read_number i) ↔ (fits_long i ≡ true)
  read-same fuel j i h e = rw (← e) (λ _. h, λ _. read-integer fuel j h)

  -- An integer is read back as the same integer, a long, exactly when it fits into a long: an unsigned
  -- long of 2 ^ 63 or more is not.
  pub read-number_term :
      (fuel : ℕ) (n : Number D) (i : ℤ)
      → InRange n
      → integer_of n ≡ some i
      → (read (suc fuel) (number_term engine n) ≡ read_number i) ↔ (fits_long i ≡ true)
  unfolding number_term fits_long
  read-number_term fuel (floating d) i r e = cc
  read-number_term fuel (unsigned_int n) i r e =
      read-same fuel (pos n) i (ground arith) (some_inj (pos n) i e)
  read-number_term fuel (int (pos n)) i r e =
      read-same fuel (pos n) i (ground arith) (some_inj (pos n) i e)
  read-number_term fuel (int (negsuc n)) i r e =
      read-same fuel (negsuc n) i (ground arith) (some_inj (negsuc n) i e)
  read-number_term fuel (long (pos n)) i r e =
      read-same fuel (pos n) i (ground arith) (some_inj (pos n) i e)
  read-number_term fuel (long (negsuc n)) i r e =
      read-same fuel (negsuc n) i (ground arith) (some_inj (negsuc n) i e)
  read-number_term fuel (unsigned_long n) i r e = read-signed fuel n i r (some_inj (pos n) i e)

  module _ (print : Representation (Atomic D) S → String) where
    abbrev term_of : Value (Atomic D) S → Result EcWord
    term_of = value_term engine print

    -- What a value is read back as.
    abbrev pub back : ℕ → Value (Atomic D) S → Result (Value (Atomic D) S)
    back fuel v = term_of v >>= λ w. read (suc fuel) w

    -- Truth values and strings are read back as they were, and a symbol exactly when it is neither
    -- `true` nor `fail`.
    pub back-textual :
        (fuel : ℕ) (b : Bool) (s : String)
        → (back fuel (bool_value b) ≡ ok (bool_value b))
          × (back fuel (value (predefined string) (atomic (textual s)))
              ≡ ok (value (predefined string) (atomic (textual s))))
          × ((back fuel (value (predefined symbol) (atomic (textual s)))
                ≡ ok (value (predefined symbol) (atomic (textual s))))
              ↔ (((s == "true") ≡ false) × ((s == "fail") ≡ false)))
    unfolding value_term predefined_term read_view atom_value
    back-textual fuel true s = (
      read-build fuel (atom "true"),
      read-build fuel (quoted s),
      rw (read-build fuel (atom s)) (atom_value-symbol s),
    )
    back-textual fuel false s = (
      read-build fuel (atom "fail"),
      read-build fuel (quoted s),
      rw (read-build fuel (atom s)) (atom_value-symbol s),
    )

  -- The types that are registered have the names that they are registered under.
  abbrev pub IsRegistry : Type 0
  IsRegistry = (n : String) (t : ValueType S) → lookup n types ≡ some t → name t ≡ n

  lookup_list_type-name :
      (e e' : ValueType S)
      → IsRegistry
      → lookup_list_type e types ≡ some e'
      → name (list_type e') ≡ name (list_type e)
  unfolding lookup_list_type
  lookup_list_type-name e e' reg h = elim (Option-cases (lookup (name (list_type e)) types)) [
    | inl gone ↦ cc (rw gone at h)
    | inr (t, there) ↦
        reg (name (list_type e)) (list_type e')
          (there ∙ ap some (as_list-list t e' (rw there at h)))
  ]

  lookup_type-name :
      (n : String) (e : ValueType S) → IsRegistry → lookup_type n types ≡ some e → name e ≡ n
  unfolding lookup_type
  lookup_type-name n e reg h = reg n e h

  read_list-name :
      (value_of : EcWord → Result (Value (Atomic D) S)) (fuel : ℕ) (did n : String)
      (list : View EcWord D) (v' : Value (Atomic D) S)
      → IsRegistry
      → without_first did ≡ ok n
      → read_list engine subset suits types value_of fuel did list ≡ ok v'
      → name (type_of v') ≡ push_str "list[" (push_str (push_str "list[" (push_str n "]")) "]")
  unfolding read_list name
  read_list-name value_of fuel did n list v' reg first h =
      let (m, p0, h0) = bind-ok (without_first did) _ v' h in
      let same : m ≡ n = ok_inj m n (sym p0 ∙ first) in
      elim (Option-cases (lookup_type m types)) [
        | inl gone ↦ cc (rw gone at h0)
        | inr (e, there) ↦
            let h1 = rw there at h0 in
            elim (Option-cases (lookup_list_type e types)) [
              | inl gone ↦ cc (rw gone at h1)
              | inr (e', there') ↦
                  let (vs, p, q) =
                    bind-ok (read_elements engine subset suits types value_of e' fuel list) _ v'
                      (rw there' at h1) in
                  elim (Option-cases (lookup_list_type (list_type e') types)) [
                    | inl gone ↦ cc (rw gone at q)
                    | inr (e'', there'') ↦
                        let (done, p', q') =
                          bind-ok (list_value subset (list_type e'') vs) _ v' (rw there'' at q) in
                        ap (λ x. name (type_of x)) (sym (ok_inj _ v' q'))
                        ∙ lookup_list_type-name (list_type e') e'' reg there''
                        ∙ ap (λ x. push_str "list[" (push_str x "]"))
                            (lookup_list_type-name e e' reg there'
                              ∙ ap (λ x. push_str "list[" (push_str x "]"))
                                  (lookup_type-name m e reg there ∙ same))
                  ]
            ]
      ]

  read_gpp_list :
      (fuel : ℕ) (did n : String) (list : View EcWord D) (v' : Value (Atomic D) S)
      → IsRegistry
      → without_first did ≡ ok n
      → read_typed engine subset suits types (read fuel) fuel "gpp_list" (atom did) list ≡ ok v'
      → name (type_of v') ≡ push_str "list[" (push_str (push_str "list[" (push_str n "]")) "]")
  unfolding read_typed
  read_gpp_list fuel did n (cons a b) v' reg first h =
      read_list-name (read fuel) fuel did n (cons a b) v' reg first h
  read_gpp_list fuel did n nil v' reg first h = cc
  read_gpp_list fuel did n variable v' reg first h = cc
  read_gpp_list fuel did n (integer i) v' reg first h = cc
  read_gpp_list fuel did n (double d) v' reg first h = cc
  read_gpp_list fuel did n (atom s) v' reg first h = cc
  read_gpp_list fuel did n (quoted s) v' reg first h = cc
  read_gpp_list fuel did n (compound f ws) v' reg first h = cc

  -- A list that is sent to the engine is never read back with its own type: what is read back, if
  -- anything, has the list type of that list type. The registered types have their names.
  pub back-list :
      (print : Representation (Atomic D) S → String) (fuel : ℕ) (e : ValueType S)
      (r : Representation (Atomic D) S) (v' : Value (Atomic D) S)
      → IsRegistry
      → back print fuel (value (list_type e) r) ≡ ok v'
      → name (type_of v') ≡ push_str "list[" (push_str (name (list_type e)) "]")
  unfolding value_term read_view name
  back-list print fuel e r v' reg h =
      let (w, p, q) = bind-ok (value_term engine print (value (list_type e) r)) _ v' h in
      let (elements, p', q') = bind-ok (elements_term engine print r) _ w p in
      let did = push_str "#" (name e) in
      let parts : List EcWord = build (atom did) ∷ elements ∷ [] in
      let whole = ok_inj (build (compound "gpp_list" parts)) w q' in
      let reading : read_view engine subset suits types (read fuel) fuel (compound "gpp_list" parts)
          ≡ ok v' =
        sym (read-build fuel (compound "gpp_list" parts)) ∙ ap (read (suc fuel)) whole ∙ q in
      read_gpp_list fuel did (name e) (view elements) v' reg (without_first-hash (name e))
        (rw (view-build (atom did)) at reading)
