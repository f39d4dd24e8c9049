-- ===== src/Cerrors/Made.antt =====
-- chapi2/cerrors/cerrors.go: the error that NewChapiError returns, and the objects that it changes.
use common_host_libs.Prelude.{
  ℕ, ◌≡◌, ◌≢◌, ◌<◌, ◌≤◌, refl, ◌∙◌, Bool, true, false, ◌&&◌, List, [], ◌∷◌, some, arith, ◌==◌,
  if◌then◌else◌, Bool-cases, Option-cases, inl, inr, ◌⊎◌,
}
use common_host_libs.Prelude.Text.{is_nil}
use common_host_libs.Cerrors.{
  ChapiError, Heap, Arg, of_code, of_string, of_value, of_pointer, of_error, of_other, Options,
  parse_arg, parse_args, no_options, new_chapi_error, max_code, code_string, initial, filled,
  finished, coded, with_coded, alloc, unknown,
}

is_nil-code_string : (c : ℕ) → is_nil (code_string c) ≡ false
unfolding code_string
is_nil-code_string c = ground arith

-- A code that is set and a text that is not empty.
pub IsFilled : ChapiError → Type 0
IsFilled e = (e.code ≢ max_code) × (is_nil e.text ≡ false)

filled-IsFilled : (e : ChapiError) → IsFilled (filled e)
unfolding IsFilled
filled-IsFilled e =
    (ground arith, ground (arith, is_nil-code_string e.code, is_nil-code_string unknown))

finished-IsFilled :
    (h : Heap) (p : ℕ) (e : ChapiError) → IsFilled ((finished h p e).0.cells (finished h p e).1)
unfolding IsFilled
finished-IsFilled h p e = elim (Bool-cases (e.code == max_code && is_nil e.text)) [
  | inl empty ↦ ground (arith, empty)
  | inr some_part ↦ ground (arith, some_part, filled-IsFilled e)
]

-- Whatever its arguments are, NewChapiError returns an error whose code is not the placeholder
-- `_maxCode` and whose text is not empty.
pub new_chapi_error-IsFilled :
    (h : Heap) (args : List Arg)
    → let made = new_chapi_error h args in IsFilled (made.0.cells made.1)
unfolding new_chapi_error
new_chapi_error-IsFilled h args =
    let o = parse_args (no_options h) args in
    finished-IsFilled (with_coded o) (initial o).1 (coded o)

-- Whether an argument is a pointer to a ChapiError.
abbrev pub has_pointer : List Arg → Bool
has_pointer [] = false
has_pointer (of_pointer p ∷ args) = true
has_pointer (_ ∷ args) = has_pointer args

-- What the loop leaves of a heap: the objects that were there, and only a new one in hand.
record IsFresh (h : Heap) (o : Options) : Type 0 where
  later : h.next ≤ o.heap.next
  same : (q : ℕ) → q < h.next → o.heap.cells q ≡ h.cells q
  in_hand : (p : ℕ) → o.chapi_error ≡ some p → h.next ≤ p

alloc_same :
    (h h' : Heap) (e : ChapiError) (q : ℕ)
    → h.next ≤ h'.next
    → q < h.next
    → (alloc h' e).cells q ≡ h'.cells q
alloc_same h h' e q l m = ground arith

parse_arg-IsFresh :
    (h : Heap) (o : Options) (a : Arg)
    → has_pointer (a ∷ []) ≡ false
    → IsFresh h o
    → IsFresh h (parse_arg o a)
unfolding parse_arg
parse_arg-IsFresh h o (of_code c) n f = record {
  later = f.later;
  same = f.same;
  in_hand = f.in_hand;
}
parse_arg-IsFresh h o (of_string s) n f = record {
  later = f.later;
  same = f.same;
  in_hand = f.in_hand;
}
parse_arg-IsFresh h o (of_value e) n f = record {
  later = omega (arith, f.later);
  same = λ q l. ground (arith, f.later, f.same q l);
  in_hand = λ p k. ground (arith, f.later, k);
}
parse_arg-IsFresh h o (of_error s) n f = record {
  later = f.later;
  same = f.same;
  in_hand = f.in_hand;
}
parse_arg-IsFresh h o (of_pointer p) n f = ground arith
parse_arg-IsFresh h o of_other n f = f

parse_args-IsFresh :
    (h : Heap) (args : List Arg) (o : Options)
    → has_pointer args ≡ false
    → IsFresh h o
    → IsFresh h (parse_args o args)
unfolding parse_args
parse_args-IsFresh h [] o n f = f
parse_args-IsFresh h (of_pointer p ∷ args) o n f = ground arith
parse_args-IsFresh h (of_code c ∷ args) o n f =
    parse_args-IsFresh h args (parse_arg o (of_code c)) n (parse_arg-IsFresh h o (of_code c) refl f)
parse_args-IsFresh h (of_string s ∷ args) o n f =
    parse_args-IsFresh h args (parse_arg o (of_string s)) n
      (parse_arg-IsFresh h o (of_string s) refl f)
parse_args-IsFresh h (of_value e ∷ args) o n f =
    parse_args-IsFresh h args (parse_arg o (of_value e)) n
      (parse_arg-IsFresh h o (of_value e) refl f)
parse_args-IsFresh h (of_error s ∷ args) o n f =
    parse_args-IsFresh h args (parse_arg o (of_error s)) n
      (parse_arg-IsFresh h o (of_error s) refl f)
parse_args-IsFresh h (of_other ∷ args) o n f =
    parse_args-IsFresh h args (parse_arg o of_other) n (parse_arg-IsFresh h o of_other refl f)

module _ (h : Heap) (o : Options) (f : IsFresh h o) where
  initial_fresh : h.next ≤ (initial o).1
  initial_fresh = elim (Option-cases o.chapi_error) [
    | inl e ↦ elim (Option-cases o.other_error) [
      | inl k ↦ ground (arith, e, k, f.later)
      | inr (s, k) ↦ ground (arith, e, k, f.later)
    ]
    | inr (p, e) ↦ ground (arith, e, f.in_hand p e)
  ]

  initial_next : h.next ≤ (initial o).0.next
  initial_next = elim (Option-cases o.chapi_error) [
    | inl e ↦ elim (Option-cases o.other_error) [
      | inl k ↦ ground (arith, e, k, f.later)
      | inr (s, k) ↦ ground (arith, e, k, f.later)
    ]
    | inr (p, e) ↦ ground (arith, e, f.later)
  ]

  initial_same : (q : ℕ) → q < h.next → (initial o).0.cells q ≡ h.cells q
  initial_same q l = elim (Option-cases o.chapi_error) [
    | inl e ↦ elim (Option-cases o.other_error) [
      | inl k ↦ ground (arith, e, k, f.later, f.same q l)
      | inr (s, k) ↦ ground (arith, e, k, f.later, f.same q l)
    ]
    | inr (p, e) ↦ ground (arith, e, f.same q l)
  ]

finished_same :
    (h : Heap) (p : ℕ) (e : ChapiError) (q : ℕ)
    → q < p
    → q < h.next
    → (finished h p e).0.cells q ≡ h.cells q
finished_same h p e q l m = ground arith

with_coded_same :
    (o : Options) (q : ℕ) → q < (initial o).1 → (with_coded o).cells q ≡ (initial o).0.cells q
with_coded_same o q l = ground arith

finished_address :
    (h : Heap) (p : ℕ) (e : ChapiError) → ((finished h p e).1 ≡ p) ⊎ ((finished h p e).1 ≡ h.next)
finished_address h p e = ground arith

no_options-IsFresh : (h : Heap) → IsFresh h (no_options h)
no_options-IsFresh h = record {
  later = omega arith;
  same = λ q l. refl;
  in_hand = λ p e. ground (arith, e);
}

made_same :
    (h : Heap) (o : Options)
    → IsFresh h o
    → (q : ℕ) → q < h.next
    → (finished (with_coded o) (initial o).1 (coded o)).0.cells q ≡ h.cells q
made_same h o f q l =
    let fresh = initial_fresh h o f in
    finished_same (with_coded o) (initial o).1 (coded o) q (omega (arith, fresh, l))
      (omega (arith, initial_next h o f, l))
    ∙ (with_coded_same o q (omega (arith, fresh, l)) ∙ initial_same h o f q l)

-- Unless it is given a pointer to a ChapiError, NewChapiError changes no object that was there, and
-- the error that it returns is a new object.
pub new_chapi_error_fresh :
    (h : Heap) (args : List Arg) (q : ℕ)
    → has_pointer args ≡ false
    → q < h.next
    → ((new_chapi_error h args).0.cells q ≡ h.cells q) × ((new_chapi_error h args).1 ≢ q)
unfolding new_chapi_error
new_chapi_error_fresh h args q n l =
    let o = parse_args (no_options h) args in
    let f = parse_args-IsFresh h args (no_options h) n (no_options-IsFresh h) in
    (
      made_same h o f q l,
      λ e. ground (
        arith,
        e,
        l,
        finished_address (with_coded o) (initial o).1 (coded o),
        initial_fresh h o f,
        initial_next h o f,
      ),
    )

-- Given a pointer to a ChapiError and a code, NewChapiError changes the caller's own object: it
-- returns that pointer, the object there has the new code, and its text unless that was empty, and the
-- name of the code then.
new_chapi_error-pointer :
    (h : Heap) (p c : ℕ)
    → c < max_code
    → let (h', q) = new_chapi_error h (of_pointer (some p) ∷ (of_code c ∷ [])) in
      (q ≡ p)
      × (((h'.cells p).code ≡ c)
          × ((h'.cells p).text
              ≡ (if is_nil (h.cells p).text then code_string c else (h.cells p).text)))
unfolding new_chapi_error parse_args parse_arg
new_chapi_error-pointer h p c l = (ground (arith, l), (ground (arith, l), ground (arith, l)))
