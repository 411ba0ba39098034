-- ===== src/Protocol/References.antt =====
-- What extract_span_refs collects: the set is kept in order, and holds just what was inserted.
use Prim.Native.Nat.{Ordering, compare}
use Prim.Native.String as Text
use Prim.Native.String.{[], ◌∷◌}
use text.Mathlib.TextEquality.{path_by_compare}
use agent_squire.Base.{
  ℕ, ◌≡◌, ◌≢◌, true, refl, sym, ◌∙◌, ap, ◌↔◌, ◌⊎◌, inl, inr, String, code, false, ◌||◌, ◌==◌,
  Option, none, some, List, map, contains, contains_iff, ◌∈◌, Bool-cases, eq_iff, arith,
}
use agent_squire.Protocol.{is_empty_text, extract_spans}
use agent_squire.Protocol.Bookmarks.{
  extract_bare_bookmarks, insert_sorted, insert_named, opt_list, extract_span_refs,
}

compare-cases :
    (a b : String)
    → (Text.compare a b ≡ Ordering.lt)
      ⊎ ((Text.compare a b ≡ Ordering.eq) ⊎ (Text.compare a b ≡ Ordering.gt))
compare-cases a b =
    elim (Text.compare a b) as (λ o. (o ≡ Ordering.lt) ⊎ ((o ≡ Ordering.eq) ⊎ (o ≡ Ordering.gt))) [
      | Ordering.lt ↦ inl refl
      | Ordering.eq ↦ inr (inl refl)
      | Ordering.gt ↦ inr (inr refl)
    ]

pub contains-insert_sorted :
    (xs : List String) (a b : String) → contains (insert_sorted xs a) b ≡ (contains xs b || a == b)
unfolding insert_sorted
contains-insert_sorted List.[] a b = ground arith
contains-insert_sorted (List.◌∷◌ x xs) a b = elim (compare-cases a x) [
  | inl less ↦ rw (insert_sorted, less) (ground arith)
  | inr (inl same) ↦
      rw (insert_sorted, same)
        (ground (arith, ap (λ (u : String). u == b) (path_by_compare a x same)))
  | inr (inr more) ↦ rw (insert_sorted, more) (ground (arith, contains-insert_sorted xs a b))
]

contains-insert_named :
    (ids more : List String) (b : String)
    → is_empty_text b ≡ false
    → contains (insert_named ids more) b ≡ (contains ids b || contains more b)
unfolding insert_named
contains-insert_named ids List.[] b h = ground arith
contains-insert_named ids (List.◌∷◌ a more) b h = elim (Bool-cases (is_empty_text a)) [
  | inl blank ↦
      rw (insert_named, blank) (ground (arith, contains-insert_named ids more b h, eq_iff a b))
  | inr named ↦
      rw (insert_named, named)
        (ground (
          arith,
          contains-insert_named (insert_sorted ids a) more b h,
          contains-insert_sorted ids a b,
        ))
]

flip : Ordering → Ordering
flip Ordering.lt = Ordering.gt
flip Ordering.eq = Ordering.eq
flip Ordering.gt = Ordering.lt

flip_nat : (m n : ℕ) → compare m n ≡ flip (compare n m)
unfolding flip
flip_nat m n = ground arith

flip_then : (o p : Ordering) → flip (Text.then o p) ≡ Text.then (flip o) (flip p)
unfolding flip
flip_then Ordering.lt p = refl
flip_then Ordering.eq p = refl
flip_then Ordering.gt p = refl

flip_text : (a b : String) → Text.compare a b ≡ flip (Text.compare b a)
unfolding flip
flip_text [] [] = Text.compare.nil-nil
flip_text [] (d ∷ t) = Text.compare.nil-cons d t ∙ ap flip (sym (Text.compare.cons-nil d t))
flip_text (c ∷ s) [] = Text.compare.cons-nil c s ∙ ap flip (sym (Text.compare.nil-cons c s))
flip_text (c ∷ s) (d ∷ t) =
    Text.compare.cons-cons c d s t
    ∙ rw (flip_nat (code c) (code d), flip_text s t)
        (sym (flip_then (compare (code d) (code c)) (Text.compare t s)))
    ∙ ap flip (sym (Text.compare.cons-cons d c t s))

-- The order of texts has no cycle of two.
pub below-below : (a b : String) → Text.compare a b ≡ Ordering.lt → Text.compare b a ≢ Ordering.lt
unfolding flip
below-below a b h k = cc (sym h ∙ flip_text a b ∙ ap flip k)

then_cases :
    (o p : Ordering)
    → Text.then o p ≡ Ordering.lt
    → (o ≡ Ordering.lt) ⊎ ((o ≡ Ordering.eq) × (p ≡ Ordering.lt))
then_cases Ordering.lt p h = inl refl
then_cases Ordering.eq p h = inr (refl, h)
then_cases Ordering.gt p h = cc

below_trans :
    (a b c : String)
    → Text.compare a b ≡ Ordering.lt
    → Text.compare b c ≡ Ordering.lt
    → Text.compare a c ≡ Ordering.lt
below_trans [] [] [] h k = h
below_trans [] (e ∷ t) [] h k = cc (sym k ∙ Text.compare.cons-nil e t)
below_trans [] b (f ∷ u) h k = Text.compare.nil-cons f u
below_trans (d ∷ s) [] c h k = cc (sym h ∙ Text.compare.cons-nil d s)
below_trans (d ∷ s) (e ∷ t) [] h k = cc (sym k ∙ Text.compare.cons-nil e t)
below_trans (d ∷ s) (e ∷ t) (f ∷ u) h k =
    let h' =
      then_cases (compare (code d) (code e)) (Text.compare s t)
        (sym (Text.compare.cons-cons d e s t) ∙ h) in
    let k' =
      then_cases (compare (code e) (code f)) (Text.compare t u)
        (sym (Text.compare.cons-cons e f t u) ∙ k) in
    Text.compare.cons-cons d f s u ∙ elim h' [
      | inl first ↦
          let less : compare (code d) (code f) ≡ Ordering.lt = elim k' [
            | inl second ↦ ground arith
            | inr (same, rest) ↦ ground arith
          ] in
          rw less refl
      | inr (same, rest) ↦ elim k' [
        | inl second ↦
            let less : compare (code d) (code f) ≡ Ordering.lt = ground arith in rw less refl
        | inr (same', rest') ↦
            let less : compare (code d) (code f) ≡ Ordering.eq = ground arith in
            rw less (below_trans s t u rest rest')
      ]
    ]

-- Each element stands before the next in the order of texts.
abbrev pub Below : String → List String → Type 0
Below x List.[] = Unit
Below x (List.◌∷◌ y ys) = Text.compare x y ≡ Ordering.lt

abbrev pub IsAscending : List String → Type 0
IsAscending List.[] = Unit
IsAscending (List.◌∷◌ x xs) = Below x xs × IsAscending xs

Below-insert_sorted :
    (x a : String) (xs : List String)
    → Text.compare x a ≡ Ordering.lt
    → Below x xs
    → Below x (insert_sorted xs a)
unfolding insert_sorted
Below-insert_sorted x a List.[] h g = h
Below-insert_sorted x a (List.◌∷◌ y ys) h g = elim (compare-cases a y) [
  | inl less ↦ rw (insert_sorted, less) h
  | inr (inl same) ↦ rw (insert_sorted, same) g
  | inr (inr more) ↦ rw (insert_sorted, more) g
]

pub insert_sorted-IsAscending :
    (xs : List String) (a : String) → IsAscending xs → IsAscending (insert_sorted xs a)
unfolding insert_sorted flip
insert_sorted-IsAscending List.[] a h = (tt, tt)
insert_sorted-IsAscending (List.◌∷◌ x xs) a (below, h) = elim (compare-cases a x) [
  | inl less ↦ rw (insert_sorted, less) (less, (below, h))
  | inr (inl same) ↦ rw (insert_sorted, same) (below, h)
  | inr (inr more) ↦
      rw (insert_sorted, more)
        (
          Below-insert_sorted x a xs (flip_text x a ∙ ap flip more) below,
          insert_sorted-IsAscending xs a h,
        )
]

insert_named-IsAscending :
    (ids more : List String) → IsAscending ids → IsAscending (insert_named ids more)
unfolding insert_named
insert_named-IsAscending ids List.[] h = h
insert_named-IsAscending ids (List.◌∷◌ a more) h = elim (Bool-cases (is_empty_text a)) [
  | inl blank ↦ rw (insert_named, blank) (insert_named-IsAscending ids more h)
  | inr named ↦
      rw (insert_named, named)
        (insert_named-IsAscending (insert_sorted ids a) more (insert_sorted-IsAscending ids a h))
]

-- The identifiers that the markers of a content name.
abbrev pub IsNamed : String → String → Type 0
IsNamed content id =
    (id ∈ map (λ (p : String × String). p.0) (extract_spans content).0)
    ⊎ (((extract_spans content).1 ≡ some id)
        ⊎ (id ∈ map (λ (p : String × ℕ). p.0) (extract_bare_bookmarks content)))

opt_list_iff : (o : Option String) (a : String) → (a ∈ opt_list o) ↔ (o ≡ some a)
opt_list_iff none a = (λ h. absurd h, λ h. cc)
opt_list_iff (some b) a = (λ h. elim h [ inl e ↦ ap some e | inr v ↦ absurd v ], λ h. inl (cc h))

-- `extract_span_refs` gives its identifiers in strictly ascending order of their text, and a
-- non-empty identifier is among them exactly if a closed span, the span that is left open or a bare
-- bookmark of the content has it.
pub extract_span_refs_lem :
    (content id : String)
    → is_empty_text id ≡ false
    → IsAscending (extract_span_refs content)
      × ((id ∈ extract_span_refs content) ↔ IsNamed content id)
unfolding extract_span_refs
extract_span_refs_lem content id h =
    let closed = map (λ (p : String × String). p.0) (extract_spans content).0 in
    let unclosed = opt_list (extract_spans content).1 in
    let bare = map (λ (p : String × ℕ). p.0) (extract_bare_bookmarks content) in
    let first = insert_named List.[] closed in
    let second = insert_named first unclosed in
    (
      insert_named-IsAscending second bare
          (insert_named-IsAscending first unclosed (insert_named-IsAscending List.[] closed tt)),
      ground (
        arith,
        contains-insert_named second bare id h,
        contains-insert_named first unclosed id h,
        contains-insert_named List.[] closed id h,
        contains_iff closed id,
        contains_iff unclosed id,
        contains_iff bare id,
        contains_iff (insert_named second bare) id,
        opt_list_iff (extract_spans content).1 id,
      ),
    )

-- The first of an ascending list stands before all others.
pub first_below :
    (x y : String) (xs : List String)
    → IsAscending (List.◌∷◌ x xs)
    → contains xs y ≡ true
    → Text.compare x y ≡ Ordering.lt
first_below x y List.[] h m = cc
first_below x y (List.◌∷◌ z xs) (less, h) m = elim (Bool-cases (z == y)) [
  | inl same ↦ ap (Text.compare x) (sym (ground (arith, eq_iff z y))) ∙ less
  | inr other ↦ below_trans x z y less (first_below z y xs h (ground arith))
]
