-- ===== src/MpathConfig/Tree/Shape.antt =====
-- mpathconfig/configresource.go: what AddSection and addOption leave of the chain of parents.
use common_host_libs.Prelude.{
  ℕ, zero, suc, ◌≡◌, refl, sym, ap, subst, ◌∙◌, Bool, true, false, List, [], ◌∷◌, ◌++◌, Option,
  none, some, length, get_elem?, set, if◌then◌else◌, is_some, arith, Option-cases, Bool-cases, inl,
  inr,
}
use common_host_libs.Prelude.Text.{Text, text_eq, is_nil}
use common_host_libs.MpathConfig.Syntax.{parse_option}
use common_host_libs.MpathConfig.Tree.{
  Section, Configuration, Result, ok, err, panics, push_child, push_named, add_section,
  add_property, add_option, new_configuration, no_parent, children_at, root_name, find_property,
}

-- The parent of a section, and whether it has a map of properties.
abbrev pub Frame : Type 0
Frame = Option ℕ × Bool

abbrev pub frame_of : Section → Frame
frame_of s = (s.parent, is_some s.properties)

abbrev pub frame : List Section → ℕ → Option Frame
frame [] a = none
frame (s ∷ heap) zero = some (frame_of s)
frame (s ∷ heap) (suc a) = frame heap a

-- From an address, `n` parents up is a section with no parent, and the sections below it have
-- a map of properties.
abbrev pub At : List Section → ℕ → ℕ → Type 0
At heap a zero = (b : Bool) × (frame heap a ≡ some (none, b))
At heap a (suc n) = (p : ℕ) × ((frame heap a ≡ some (some p, true)) × At heap p n)

pub At-frames :
    (heap heap' : List Section)
    → ((b : ℕ) (f : Frame) → frame heap b ≡ some f → frame heap' b ≡ some f)
    → (a n : ℕ) → At heap a n
    → At heap' a n
At-frames heap heap' h a zero (b, e) = (b, h a (none, b) e)
At-frames heap heap' h a (suc n) (p, (e, k)) =
    (p, (h a (some p, true) e, At-frames heap heap' h p n k))

pub frame-set :
    (heap : List Section) (a : ℕ) (s s' : Section) (b : ℕ)
    → get_elem? heap a ≡ some s
    → frame_of s' ≡ frame_of s
    → frame (set heap a s') b ≡ frame heap b
frame-set [] a s s' b e k = refl
frame-set (x ∷ heap) zero s s' zero e k = grind (arith, e, k)
frame-set (x ∷ heap) zero s s' (suc b) e k = refl
frame-set (x ∷ heap) (suc a) s s' zero e k = refl
frame-set (x ∷ heap) (suc a) s s' (suc b) e k = frame-set heap a s s' b e k

frame-push_child :
    (a child : ℕ) (heap : List Section) (b : ℕ) → frame (push_child a child heap) b ≡ frame heap b
frame-push_child a child heap b = elim (Option-cases (get_elem? heap a)) [
  | inl e ↦ ground (arith, e)
  | inr (s, e) ↦
      ground
        (arith, e, frame-set heap a s (record s { children = s.children ++ (child ∷ []) }) b e refl)
]

frame-push_child_if :
    (t : Bool) (a child : ℕ) (heap : List Section) (b : ℕ)
    → frame (if t then push_child a child heap else heap) b ≡ frame heap b
frame-push_child_if true a child heap b = frame-push_child a child heap b
frame-push_child_if false a child heap b = refl

frame-push_named :
    (wanted : Text) (child : ℕ) (addresses : List ℕ) (heap : List Section) (b : ℕ)
    → frame (push_named wanted child addresses heap).0 b ≡ frame heap b
frame-push_named wanted child [] heap b = refl
frame-push_named wanted child (a ∷ rest) heap b =
    frame-push_named wanted child rest (if _ then push_child a child heap else heap) b
    ∙ frame-push_child_if _ a child heap b

frame-append :
    (heap rest : List Section) (a : ℕ) (f : Frame)
    → frame heap a ≡ some f
    → frame (heap ++ rest) a ≡ some f
frame-append [] rest a f e = ground arith
frame-append (s ∷ heap) rest zero f e = e
frame-append (s ∷ heap) rest (suc a) f e = frame-append heap rest a f e

frame-fresh :
    (heap : List Section) (s : Section) → frame (heap ++ (s ∷ [])) (length heap) ≡ some (frame_of s)
frame-fresh [] s = refl
frame-fresh (x ∷ heap) s = frame-fresh heap s

pub frame-get_elem? :
    (heap : List Section) (a : ℕ) (f : Frame)
    → frame heap a ≡ some f
    → (s : Section) × ((get_elem? heap a ≡ some s) × (frame_of s ≡ f))
frame-get_elem? [] a f e = ground arith
frame-get_elem? (s ∷ heap) zero f e = (s, (refl, ground (arith, e)))
frame-get_elem? (s ∷ heap) (suc a) f e = frame-get_elem? heap a f e

-- A section can be opened below one with `n` parents: that succeeds `n + 1` deep, or is an error.
abbrev pub Opened : ℕ → Result (Configuration × ℕ) → Type 0
Opened n (ok (c, a)) = At c.heap a (suc n)
Opened n (err e) = Unit
Opened n panics = ⊥

frame-At : (heap : List Section) (a n : ℕ) → At heap a n → (f : Frame) × (frame heap a ≡ some f)
frame-At heap a zero (b, e) = ((none, b), e)
frame-At heap a (suc n) (p, (e, k)) = ((some p, true), e)

pub At-get_elem? :
    (heap : List Section) (a n : ℕ) → At heap a n → (s : Section) × (get_elem? heap a ≡ some s)
At-get_elem? heap a n h =
    let found = frame-At heap a n h in
    let s = frame-get_elem? heap a found.0 found.1 in (s.0, s.1.0)

module _ (c : Configuration) (name : Text) (a n : ℕ) (h : At c.heap a n) where
  abbrev fresh_section : Section
  fresh_section = record {
    name = name;
    parent = some a;
    properties = some [];
    children = [];
    duplicates = [];
  }

  abbrev extended : List Section
  extended = c.heap ++ (fresh_section ∷ [])

  fresh-At :
      (heap : List Section)
      → ((b : ℕ) → frame heap b ≡ frame extended b)
      → At heap (length c.heap) (suc n)
  fresh-At heap same = (
    a,
    (
      same (length c.heap) ∙ frame-fresh c.heap fresh_section,
      At-frames c.heap heap (λ b f e. same b ∙ frame-append c.heap (fresh_section ∷ []) b f e) a n
          h,
    ),
  )

  abbrev fresh_if : Bool → Bool → List Section → Result (Configuration × ℕ)
  fresh_if is_root found pushed =
      if is_root
      then ok (record c { heap = push_child 0 (length c.heap) extended }, length c.heap)
      else if found
      then ok (record c { heap = pushed }, length c.heap)
      else err (no_parent name)

  fresh_if-Opened :
      (is_root found : Bool) (pushed : List Section)
      → ((b : ℕ) → frame pushed b ≡ frame extended b)
      → Opened n (fresh_if is_root found pushed)
  fresh_if-Opened true found pushed same =
      fresh-At (push_child 0 (length c.heap) extended) (frame-push_child 0 (length c.heap) extended)
  fresh_if-Opened false true pushed same = fresh-At pushed same
  fresh_if-Opened false false pushed same = tt

  add_section-fresh_if :
      (s : Section)
      → get_elem? c.heap a ≡ some s
      → let pushed = push_named s.name (length c.heap) (children_at c.heap 0) extended in
        add_section c name (some a) ≡ fresh_if (text_eq s.name root_name) pushed.1 pushed.0
  unfolding add_section
  add_section-fresh_if s e = rw (e, add_section) refl

  pub add_section-Opened : Opened n (add_section c name (some a))
  add_section-Opened =
      let found = At-get_elem? c.heap a n h in
      subst (Opened n) (sym (add_section-fresh_if found.0 found.1)) (
        fresh_if-Opened _ _ _
          (frame-push_named found.0.name (length c.heap) (children_at c.heap 0) extended))

add_property-ok :
    (s : Section) (key value : Text)
    → is_some s.properties ≡ true
    → (s' : Section) × ((add_property s key value ≡ ok s') × (frame_of s' ≡ frame_of s))
unfolding add_property
add_property-ok s key value h = elim (Option-cases s.properties) [
  | inl e ↦ ground (arith, e, h)
  | inr (ps, e) ↦ elim (Option-cases (find_property key ps)) [
    | inl f ↦ (
      record s { properties = some (ps ++ ((key, value) ∷ [])) },
      (ground (arith, e, f), rw e refl),
    )
    | inr (v, f) ↦ (
      record s { duplicates = s.duplicates ++ ((key, value) ∷ []) },
      (ground (arith, e, f), refl),
    )
  ]
]

-- An option leaves the chain of parents as it is, wherever there is a map of properties for it.
abbrev pub Kept : ℕ → ℕ → Result Configuration → Type 0
Kept a n (ok c) = At c.heap a n
Kept a n (err e) = Unit
Kept a n panics = ⊥

-- A line with no value changes nothing.
pub add_option_blank :
    (c : Configuration) (a n : ℕ) (line : Text)
    → At c.heap a n
    → is_nil (parse_option line).1 ≡ true
    → add_option c (some a) line ≡ ok c
unfolding add_option
add_option_blank c a n line h e =
    let found = At-get_elem? c.heap a n h in ground (arith, found.1, e)

module _ (c : Configuration) (a n : ℕ) (line : Text) (h : At c.heap a (suc n)) where
  add_option-set :
      is_nil (parse_option line).1 ≡ false
      → (s : Section) × (s' : Section) × ((get_elem? c.heap a ≡ some s)
          × ((frame_of s' ≡ frame_of s)
              × (add_option c (some a) line ≡ ok (record c { heap = set c.heap a s' }))))
  unfolding add_option
  add_option-set v =
      let s = frame-get_elem? c.heap a (some h.0, true) h.1.0 in
      let t =
        add_property-ok s.0 (parse_option line).0 (parse_option line).1 (ap (λ f. f.1) s.1.1) in
      (s.0, t.0, (s.1.0, (t.1.1, ground (arith, s.1.0, v, t.1.0))))

  pub add_option-Kept : Kept a (suc n) (add_option c (some a) line)
  add_option-Kept = elim (Bool-cases (is_nil (parse_option line).1)) [
    | inl v ↦ subst (Kept a (suc n)) (sym (add_option_blank c a (suc n) line h v)) h
    | inr v ↦
        (let (s, t, (e, (k, q))) = add_option-set v in
          subst (Kept a (suc n)) (sym q) (
            At-frames c.heap (set c.heap a t) (λ b f g. frame-set c.heap a s t b e k ∙ g) a (suc n)
              h))
  ]

pub new_configuration-At : (path : Text) → At (new_configuration path).heap 0 0
unfolding new_configuration
new_configuration-At path = (false, refl)

pub add_section_nil : (c : Configuration) (name : Text) → add_section c name none ≡ panics
unfolding add_section
add_section_nil c name = refl

pub add_option_nil : (c : Configuration) (line : Text) → add_option c none line ≡ panics
unfolding add_option
add_option_nil c line = refl
