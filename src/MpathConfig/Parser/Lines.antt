-- ===== src/MpathConfig/Parser/Lines.antt =====
-- mpathconfig/configresource.go: when ParseConfig goes through the lines without a nil dereference.
pub mod Ended
use common_host_libs.Prelude.{
  ℕ, zero, suc, ◌≡◌, ◌≢◌, refl, sym, ap, subst, ◌∙◌, Bool, true, false, not, ◌&&◌, List, [], ◌∷◌,
  Option, none, some, get_elem?, if◌then◌else◌, arith, Option-cases, Bool-cases, inl, inr,
}
use common_host_libs.Prelude.Text.{Text, codes, text_eq, trim_space, is_nil}
use common_host_libs.MpathConfig.Syntax.{is_section, section_name, parse_option}
use common_host_libs.MpathConfig.Tree.{
  Section, Configuration, Result, ok, err, panics, read_error, add_section, add_option,
  new_configuration,
}
use common_host_libs.MpathConfig.Tree.Shape.{
  frame, frame_of, frame-get_elem?, At, At-get_elem?, Opened, add_section-Opened, Kept,
  add_option_blank, add_option-Kept, new_configuration-At,
}
use common_host_libs.MpathConfig.Parser.{
  is_skipped, close_section, opened, keeping, parse_line, parse_lines, parse_config,
}

-- What a line is to ParseConfig. An option says whether it has a value.
pub data LineKind : Type 0 where
  ignored : LineKind
  opens : LineKind
  closes : LineKind
  sets : Bool → LineKind

abbrev pub kind : Text → LineKind
kind line =
    if is_skipped line
    then ignored
    else if is_section line
    then opens
    else if text_eq (trim_space line) (codes "{")
    then ignored
    else if text_eq (trim_space line) (codes "}")
    then closes
    else sets (not (is_nil (parse_option line).1))

pub by_kind : Configuration → Option ℕ → Text → LineKind → Result (Configuration × Option ℕ)
by_kind c current line ignored = ok (c, current)
by_kind c current line opens = opened (add_section c (section_name line) current)
by_kind c current line closes = close_section c current
by_kind c current line (sets b) = keeping current (add_option c current line)

pub parse_line-by_kind :
    (c : Configuration) (current : Option ℕ) (line : Text)
    → parse_line c current line ≡ by_kind c current line (kind line)
unfolding parse_line by_kind
parse_line-by_kind c current line = ground arith

-- The depth behind a line, and `none` for a section that is closed at depth 0 and for an option that
-- has a value there.
abbrev pub depth_after : ℕ → LineKind → Option ℕ
depth_after n ignored = some n
depth_after n opens = some (suc n)
depth_after zero closes = none
depth_after (suc n) closes = some n
depth_after n (sets false) = some n
depth_after zero (sets true) = none
depth_after (suc n) (sets true) = some (suc n)

unfoldable pub balanced : ℕ → List Text → Bool
balanced n [] = true
balanced n (line ∷ lines) = elim (depth_after n (kind line)) [
  | none ↦ false
  | some m ↦ balanced m lines
]

abbrev Parsed : ℕ → Result (Configuration × Option ℕ) → Type 0
Parsed n (ok (c, some a)) = At c.heap a n
Parsed n (ok (c, none)) = ⊥
Parsed n (err e) = Unit
Parsed n panics = ⊥

opened-Parsed : (n : ℕ) (r : Result (Configuration × ℕ)) → Opened n r → Parsed (suc n) (opened r)
opened-Parsed n (ok (c, a)) h = h
opened-Parsed n (err e) h = tt
opened-Parsed n panics h = h

keeping-Parsed : (a n : ℕ) (r : Result Configuration) → Kept a n r → Parsed n (keeping (some a) r)
keeping-Parsed a n (ok c) h = h
keeping-Parsed a n (err e) h = tt
keeping-Parsed a n panics h = h

close_section-Parsed :
    (c : Configuration) (a n : ℕ) → At c.heap a (suc n) → Parsed n (close_section c (some a))
unfolding close_section
close_section-Parsed c a n (p, (e, k)) =
    let s = frame-get_elem? c.heap a (some p, true) e in
    let up : close_section c (some a) ≡ ok (c, some p) =
      ground (arith, s.1.0, ap (λ f. f.0) s.1.1) in
    subst (Parsed n) (sym up) k

kind-sets : (line : Text) (b : Bool) → kind line ≡ sets b → is_nil (parse_option line).1 ≡ not b
kind-sets line b e = ground (arith, e)

some_eq : (n m : ℕ) → some n ≡ some m → n ≡ m
some_eq n m e = ground (arith, e)

by_kind-Parsed :
    (c : Configuration) (a n m : ℕ) (line : Text) (k : LineKind)
    → kind line ≡ k
    → At c.heap a n
    → depth_after n k ≡ some m
    → Parsed m (by_kind c (some a) line k)
unfolding by_kind
by_kind-Parsed c a n m line ignored q h e = subst (At c.heap a) (some_eq n m e) h
by_kind-Parsed c a n m line opens q h e =
    subst (λ k. Parsed k (opened (add_section c (section_name line) (some a))))
      (some_eq (suc n) m e)
      (opened-Parsed n (add_section c (section_name line) (some a))
        (add_section-Opened c (section_name line) a n h))
by_kind-Parsed c a zero m line closes q h e = ground arith
by_kind-Parsed c a (suc n) m line closes q h e =
    subst (λ k. Parsed k (close_section c (some a))) (some_eq n m e) (close_section-Parsed c a n h)
by_kind-Parsed c a n m line (sets false) q h e =
    subst (λ r. Parsed m (keeping (some a) r))
      (sym (add_option_blank c a n line h (kind-sets line false q)))
      (subst (At c.heap a) (some_eq n m e) h)
by_kind-Parsed c a zero m line (sets true) q h e = ground arith
by_kind-Parsed c a (suc n) m line (sets true) q h e =
    subst (λ k. Parsed k (keeping (some a) (add_option c (some a) line))) (some_eq (suc n) m e)
      (keeping-Parsed a (suc n) (add_option c (some a) line) (add_option-Kept c a n line h))

pub next_lines : List Text → Result (Configuration × Option ℕ) → Result (Configuration × Option ℕ)
next_lines lines (ok (c, current)) = parse_lines c current lines
next_lines lines (err e) = err e
next_lines lines panics = panics

pub parse_lines-next :
    (c : Configuration) (current : Option ℕ) (line : Text) (lines : List Text)
    → parse_lines c current (line ∷ lines) ≡ next_lines lines (parse_line c current line)
unfolding parse_lines next_lines
parse_lines-next c current line lines = ground arith

abbrev Returns {ℓ} : {A : Type ℓ} → Result A → Type 0
Returns (ok a) = Unit
Returns (err e) = Unit
Returns panics = ⊥

next_lines-Returns :
    (lines : List Text) (n : ℕ) (r : Result (Configuration × Option ℕ))
    → ((c : Configuration) (a : ℕ) → At c.heap a n → Returns (parse_lines c (some a) lines))
    → Parsed n r
    → Returns (next_lines lines r)
unfolding next_lines
next_lines-Returns lines n (ok (c, some a)) h k = h c a k
next_lines-Returns lines n (ok (c, none)) h k = elim k [ ]
next_lines-Returns lines n (err e) h k = tt
next_lines-Returns lines n panics h k = k

pub parse_lines-Returns :
    (lines : List Text) (c : Configuration) (a n : ℕ)
    → At c.heap a n
    → balanced n lines ≡ true
    → Returns (parse_lines c (some a) lines)
unfolding parse_lines balanced
parse_lines-Returns [] c a n h b = tt
parse_lines-Returns (line ∷ lines) c a n h b = elim (Option-cases (depth_after n (kind line))) [
  | inl e ↦ ground (arith, e, b)
  | inr (m, e) ↦
      (let rest : balanced m lines ≡ true = ground (arith, e, b) in
        subst Returns (sym (parse_lines-next c (some a) line lines)) (
          next_lines-Returns lines m (parse_line c (some a) line)
            (λ d k g. parse_lines-Returns lines d k m g rest)
            (subst (Parsed m) (sym (parse_line-by_kind c (some a) line))
              (by_kind-Parsed c a n m line (kind line) refl h e))))
]

parse_config-Returns :
    (path : Text) (lines : List Text) (read : Bool)
    → Returns (parse_lines (new_configuration path) (some 0) lines)
    → Returns (parse_config path lines read)
unfolding parse_config
parse_config-Returns path lines read h =
    finish (parse_lines (new_configuration path) (some 0) lines) h
  where
    finish :
        (r : Result (Configuration × Option ℕ))
        → Returns r
        → Returns (elim r as (λ x. Result Configuration) [
          | ok (c, current) ↦ (if read then ok c else err read_error)
          | err e ↦ err e
          | panics ↦ panics
        ])
    finish (ok (c, current)) k = read_ok read
      where
        read_ok : (b : Bool) → Returns (if b then ok c else err read_error)
        read_ok true = tt
        read_ok false = tt
    finish (err e) k = tt
    finish panics k = k

-- If no line closes a section at depth 0 and every option with a value stands inside a section, so
-- that the lines are balanced, ParseConfig returns, with a configuration or an error: it never
-- dereferences a nil section and never writes to the root's nil map.
pub parse_config-balanced :
    (path : Text) (lines : List Text) (read : Bool)
    → balanced 0 lines ≡ true
    → parse_config path lines read ≢ panics
parse_config-balanced path lines read b e = subst Returns e (
    parse_config-Returns path lines read
      (parse_lines-Returns lines (new_configuration path) 0 0 (new_configuration-At path) b))
