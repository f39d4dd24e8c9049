-- ===== src/Handler/Filtering.antt =====
-- dockerplugin/handler/mount.go: what filterHostNetworks leaves of the networks.
use common_host_libs.Prelude.{
  ℕ, suc, ◌+◌, ◌≡◌, refl, sym, ap, ◌∙◌, true, false, List, [], ◌∷◌, ◌++◌, Option, some, length,
  get_elem?, set, take, if◌then◌else◌, arith, Bool-cases, length-append, inl, inr, ltb, lookup, map,
}
use mathlib.Core.List.{append_assoc}
use common_host_libs.Prelude.Text.{Text, trim_space}
use common_host_libs.Model.{NetworkInterface}
use common_host_libs.Handler.{parts, PluginRequest, ok, panics}
use common_host_libs.Handler.Networks.{
  Networks, matches, kept, visit, visit_all, filtered, get_string_slice_param, filter_host_networks,
}

-- The networks that match, in their order.
abbrev pub matching : Text → List NetworkInterface → List NetworkInterface
matching initiator [] = []
matching initiator (n ∷ ns) =
    if matches initiator n then n ∷ matching initiator ns else matching initiator ns

get_elem?-append :
    {A : Type 0} (xs ys : List A) (x : A) → get_elem? (xs ++ (x ∷ ys)) (length xs) ≡ some x
get_elem?-append [] ys x = refl
get_elem?-append (y ∷ xs) ys x = get_elem?-append xs ys x

set-append :
    {A : Type 0} (xs ys : List A) (x y : A) → set (xs ++ (y ∷ ys)) (length xs) x ≡ xs ++ (x ∷ ys)
set-append [] ys x y = refl
set-append (z ∷ xs) ys x y = ap (λ l. z ∷ l) (set-append xs ys x y)

-- What stands behind the networks that are kept once x is written in front of it.
abbrev shifted : List NetworkInterface → NetworkInterface → List NetworkInterface
shifted [] x = []
shifted (m ∷ ms) x = ms ++ (x ∷ [])

length-shifted :
    (junk : List NetworkInterface) (x : NetworkInterface) → length (shifted junk x) ≡ length junk
length-shifted [] x = refl
length-shifted (m ∷ ms) x = omega (arith, length-append ms (x ∷ []))

set-shifted :
    (front junk rest : List NetworkInterface) (x : NetworkInterface)
    → set (front ++ (junk ++ (x ∷ rest))) (length front) x
      ≡ (front ++ (x ∷ [])) ++ (shifted junk x ++ rest)
set-shifted front [] rest x = set-append front rest x x ∙ sym (append_assoc front (x ∷ []) rest)
set-shifted front (m ∷ ms) rest x =
    set-append front (ms ++ (x ∷ rest)) x m
    ∙ (ap (λ l. front ++ (x ∷ l)) (sym (append_assoc ms (x ∷ []) rest))
        ∙ sym (append_assoc front (x ∷ []) ((ms ++ (x ∷ [])) ++ rest)))

length_snoc :
    (front : List NetworkInterface) (x : NetworkInterface)
    → suc (length front) ≡ length (front ++ (x ∷ []))
length_snoc front x = omega (arith, length-append front (x ∷ []))

place_shifted :
    (front junk : List NetworkInterface) (x : NetworkInterface)
    → suc (length (front ++ junk)) ≡ length ((front ++ (x ∷ [])) ++ shifted junk x)
place_shifted front junk x = omega (
  arith,
  length-append front junk,
  length-append (front ++ (x ∷ [])) (shifted junk x),
  length-shifted junk x,
  length-append front (x ∷ []),
)

place_passed :
    (front junk : List NetworkInterface) (x : NetworkInterface)
    → suc (length (front ++ junk)) ≡ length (front ++ (junk ++ (x ∷ [])))
place_passed front junk x = omega (
  arith,
  length-append front junk,
  length-append front (junk ++ (x ∷ [])),
  length-append junk (x ∷ []),
)

module _ (i : Text) where
  visit-kept :
      (left place : ℕ) (x : NetworkInterface) (s s' : Networks)
      → get_elem? s.0 place ≡ some x
      → kept i x s ≡ some s'
      → visit (suc left) place i s ≡ visit left (suc place) i s'
  unfolding visit
  visit-kept left place x s s' e k = rw (visit, e, k) refl

  kept_matching :
      (front junk rest : List NetworkInterface) (x : NetworkInterface)
      → matches i x ≡ true
      → kept i x (front ++ (junk ++ (x ∷ rest)), length front)
        ≡ some ((front ++ (x ∷ [])) ++ (shifted junk x ++ rest), suc (length front))
  kept_matching front junk rest x e =
      let l : ltb (length front) (length (front ++ (junk ++ (x ∷ rest)))) ≡ true =
        ground (arith, length-append front (junk ++ (x ∷ rest)), length-append junk (x ∷ rest)) in
      rw (kept, e, l) (ap (λ l. some (l, suc (length front))) (set-shifted front junk rest x))

  kept_other : (x : NetworkInterface) (s : Networks) → matches i x ≡ false → kept i x s ≡ some s
  kept_other x s e = rw (kept, e) refl

  visit_step :
      (rest front junk : List NetworkInterface) (x : NetworkInterface) (s' : Networks)
      → kept i x (front ++ (junk ++ (x ∷ rest)), length front) ≡ some s'
      → visit
          (suc (length rest))
          (length (front ++ junk))
          i
          (front ++ (junk ++ (x ∷ rest)), length front)
        ≡ visit (length rest) (suc (length (front ++ junk))) i s'
  visit_step rest front junk x s' k =
      visit-kept (length rest) (length (front ++ junk)) x
        (front ++ (junk ++ (x ∷ rest)), length front) s'
        (ap (λ l. get_elem? l (length (front ++ junk))) (sym (append_assoc front junk (x ∷ rest)))
          ∙ get_elem?-append (front ++ junk) rest x)
        k

  result_kept :
      (front rest r : List NetworkInterface) (x : NetworkInterface)
      → matches i x ≡ true
      → ◌≡◌ {A = Option Networks}
          (some (
            (front ++ (x ∷ [])) ++ (matching i rest ++ r),
            length (front ++ (x ∷ [])) + length (matching i rest),
          ))
          (some
            (front ++ (matching i (x ∷ rest) ++ r), length front + length (matching i (x ∷ rest))))
  result_kept front rest r x e =
      let n : length (front ++ (x ∷ [])) + length (matching i rest)
          ≡ length front + suc (length (matching i rest)) =
        omega (arith, length-append front (x ∷ [])) in
      rw e (
        ap (λ l. some (l, length (front ++ (x ∷ [])) + length (matching i rest)))
          (append_assoc front (x ∷ []) (matching i rest ++ r))
        ∙ ap (λ n. some (front ++ (x ∷ (matching i rest ++ r)), n)) n)

  -- Of the networks the places of front are those that are kept, and junk has been passed over.
  visit-matching :
      (rest front junk : List NetworkInterface)
      → (r : List NetworkInterface) × (visit
            (length rest)
            (length (front ++ junk))
            i
            (front ++ (junk ++ rest), length front)
          ≡ some (front ++ (matching i rest ++ r), length front + length (matching i rest)))
  unfolding visit
  visit-matching [] front junk =
      let e : length front ≡ length front + 0 = omega arith in
      (junk ++ [], ap (λ n. some (front ++ (junk ++ []), n)) e)
  visit-matching (x ∷ xs) front junk = elim (Bool-cases (matches i x)) [
    | inl e ↦
        let (r, p) = visit-matching xs (front ++ (x ∷ [])) (shifted junk x) in
        let arr = (front ++ (x ∷ [])) ++ (shifted junk x ++ xs) in
        let place = length ((front ++ (x ∷ [])) ++ shifted junk x) in
        (
          r,
          visit_step xs front junk x _ (kept_matching front junk xs x e)
              ∙ (ap (λ n. visit (length xs) n i (arr, suc (length front)))
                    (place_shifted front junk x)
                  ∙ (ap (λ n. visit (length xs) place i (arr, n)) (length_snoc front x)
                      ∙ (p ∙ result_kept front xs r x e))),
        )
    | inr e ↦
        let (r, p) = visit-matching xs front (junk ++ (x ∷ [])) in
        (
          r,
          visit_step xs front junk x _ (kept_other x _ e)
              ∙ (ap (λ n. visit (length xs) n i (front ++ (junk ++ (x ∷ xs)), length front))
                    (place_passed front junk x)
                  ∙ (ap
                        (λ l.
                          visit (length xs) (length (front ++ (junk ++ (x ∷ [])))) i
                            (front ++ l, length front))
                        (sym (append_assoc junk (x ∷ []) xs))
                      ∙ (p ∙ rw e refl))),
        )
  ]

filter_host_networks_listed :
    (r : PluginRequest) (is : List Text)
    → lookup "initiators" r.opts ≡ some (parts is)
    → filter_host_networks r
      ≡ filtered r (visit_all (map trim_space is) (r.host.network_interfaces, 0))
unfolding filter_host_networks get_string_slice_param
filter_host_networks_listed r is e =
    let p : get_string_slice_param "initiators" r.opts ≡ ok (map trim_space is) =
      rw (get_string_slice_param, e) refl in
    rw (filter_host_networks, e, p) refl

take-append : (xs ys : List NetworkInterface) → take (length xs) (xs ++ ys) ≡ xs
take-append [] ys = refl
take-append (x ∷ xs) ys = ap (λ l. x ∷ l) (take-append xs ys)

-- With one initiator, filterHostNetworks leaves the networks that match it, in their order.
pub filter_host_networks_one :
    (r : PluginRequest) (i : Text)
    → lookup "initiators" r.opts ≡ some (parts (i ∷ []))
    → filter_host_networks r
      ≡ ok (record r {
        host = record r.host {
          network_interfaces = matching (trim_space i) r.host.network_interfaces;
        };
      })
unfolding filter_host_networks get_string_slice_param visit_all
filter_host_networks_one r i e =
    let n : 0 + length (matching (trim_space i) r.host.network_interfaces)
        ≡ length (matching (trim_space i) r.host.network_interfaces) =
      omega arith in
    let (junk, p) = visit-matching (trim_space i) r.host.network_interfaces [] [] in
    filter_host_networks_listed r (i ∷ []) e
    ∙ rw
        (
          visit_all,
          p,
          filtered,
          n,
          take-append (matching (trim_space i) r.host.network_interfaces) junk,
        )
        refl

-- Of two networks, if the first initiator matches only the second one, which the second initiator does
-- not match, nothing but the second network is left, even where the second initiator matches the first
-- network: it has been overwritten by then.
pub filter_host_networks_reversed :
    (r : PluginRequest) (i j : Text) (a b : NetworkInterface)
    → lookup "initiators" r.opts ≡ some (parts (i ∷ (j ∷ [])))
    → r.host.network_interfaces ≡ a ∷ (b ∷ [])
    → matches (trim_space i) a ≡ false
    → matches (trim_space i) b ≡ true
    → matches (trim_space j) b ≡ false
    → filter_host_networks r
      ≡ ok (record r { host = record r.host { network_interfaces = b ∷ [] } })
unfolding filter_host_networks get_string_slice_param visit_all visit
filter_host_networks_reversed r i j a b e n p q v =
    filter_host_networks_listed r (i ∷ (j ∷ [])) e
    ∙ ap (λ l. filtered r (visit_all (trim_space i ∷ (trim_space j ∷ [])) (l, 0))) n
    ∙ rw (visit_all, visit, p, q, v) (rw v refl)

-- Two initiators that both match the only network make it write behind the end of the networks.
pub filter_host_networks_twice :
    (r : PluginRequest) (i j : Text) (a : NetworkInterface)
    → lookup "initiators" r.opts ≡ some (parts (i ∷ (j ∷ [])))
    → r.host.network_interfaces ≡ a ∷ []
    → matches (trim_space i) a ≡ true
    → matches (trim_space j) a ≡ true
    → filter_host_networks r ≡ panics
unfolding filter_host_networks get_string_slice_param visit_all visit
filter_host_networks_twice r i j a e n p q =
    filter_host_networks_listed r (i ∷ (j ∷ [])) e
    ∙ ap (λ l. filtered r (visit_all (trim_space i ∷ (trim_space j ∷ [])) (l, 0))) n
    ∙ rw (visit_all, visit, p, q) refl
