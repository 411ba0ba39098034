-- ===== src/Protocol/Resolve/Source.antt =====
-- Which token a range spec is resolved in.
use Prim.Native.Nat.{Ordering}
use Prim.Native.String as Text
use text.Mathlib.Text.{find?}
use agent_squire.Base.{
  ◌≡◌, ◌↔◌, ◌⊎◌, refl, sym, ap, ◌∙◌, inl, inr, subst, String, true, false, ◌==◌, eq_iff, some, List,
  [], ◌∷◌, ◌++◌, contains, is_some, Bool-cases, Option-cases, arith,
}
use agent_squire.Store.Ops.{SquireState, token_detail, list_token_ids_by_session}
use agent_squire.Tool.{ok, ok-injective}
use agent_squire.Protocol.{is_empty_text}
use agent_squire.Protocol.Ranges.{bookmark_tag, full_desc_of, RangeSpec}
use agent_squire.Protocol.References.{
  IsAscending, contains-insert_sorted, insert_sorted-IsAscending, first_below, below-below,
}
use agent_squire.Protocol.Resolve.{
  sort_dedup, first_with_tag, nil_session, find_token_with_bookmark, source_namespace,
}

contains-sort_dedup : (xs : List String) (k : String) → contains (sort_dedup xs) k ≡ contains xs k
unfolding sort_dedup
contains-sort_dedup [] k = refl
contains-sort_dedup (x ∷ xs) k =
    ground (arith, contains-insert_sorted (sort_dedup xs) x k, contains-sort_dedup xs k)

sort_dedup-IsAscending : (xs : List String) → IsAscending (sort_dedup xs)
unfolding sort_dedup
sort_dedup-IsAscending [] = tt
sort_dedup-IsAscending (x ∷ xs) =
    insert_sorted-IsAscending (sort_dedup xs) x (sort_dedup-IsAscending xs)

-- The stored text of a token has the tag.
abbrev pub Holds : SquireState → String → String → Type 0
Holds s tag id =
    (text : String) × (full_desc_of (token_detail s id) ≡ some text)
    × (is_some (find? text tag) ≡ true)

-- An identifier of the list whose text has the tag, and before which no other such identifier stands in
-- the order of texts.
abbrev pub IsLeast : SquireState → String → List String → String → Type 0
IsLeast s tag ids id =
    (contains ids id ≡ true)
    × Holds s tag id
    × ((k : String)
        → contains ids k ≡ true
        → Holds s tag k
        → (id ≡ k) ⊎ (Text.compare id k ≡ Ordering.lt))

module _ (s : SquireState) (tag : String) where
  -- The loop over the first identifier, whether its text has the tag or not.
  first_cases :
      (id : String) (ids : List String)
      → ((Holds s tag id) × (first_with_tag s tag (id ∷ ids) ≡ some id))
        ⊎ ((¬ (Holds s tag id)) × (first_with_tag s tag (id ∷ ids) ≡ first_with_tag s tag ids))
  unfolding first_with_tag
  first_cases id ids = elim (Option-cases (full_desc_of (token_detail s id))) [
    | inl missing ↦
        inr (λ (text, stored, has). cc (sym missing ∙ stored), rw (first_with_tag, missing) refl)
    | inr (text, stored) ↦ elim (Bool-cases (is_some (find? text tag))) [
      | inl has ↦ inl ((text, stored, has), rw (first_with_tag, stored, has) refl)
      | inr lacks ↦ inr (
        λ (text', stored', has).
            let same : text ≡ text' = cc (sym stored ∙ stored') in
            cc (sym lacks ∙ ap (λ t. is_some (find? t tag)) same ∙ has),
        rw (first_with_tag, stored, lacks) refl,
      )
    ]
  ]

  first_with_tag-IsLeast :
      (ids : List String) (id : String)
      → IsAscending ids
      → first_with_tag s tag ids ≡ some id
      → IsLeast s tag ids id
  unfolding first_with_tag
  first_with_tag-IsLeast [] id asc h = cc
  first_with_tag-IsLeast (x ∷ ids) id asc h = elim (first_cases x ids) [
    | inl (holds, found) ↦
        let same : x ≡ id = cc (sym found ∙ h) in
        subst (IsLeast s tag (x ∷ ids)) same (
          ground (arith, eq_iff x x),
          holds,
          λ k m also. elim (Bool-cases (x == k)) [
            | inl eq ↦ inl (ground (arith, eq_iff x k))
            | inr ne ↦ inr (first_below x k ids asc (ground arith))
          ],
        )
    | inr (lacks, goes) ↦
        let (m, holds, least) = first_with_tag-IsLeast ids id asc.1 (sym goes ∙ h) in
        (
          ground arith,
          holds,
          λ k m' also. elim (Bool-cases (x == k)) [
            | inl eq ↦ absurd (lacks (subst (Holds s tag) (sym (ground (arith, eq_iff x k))) also))
            | inr ne ↦ least k (ground arith) also
          ],
        )
  ]

  first_with_tag-found :
      (ids : List String) (k : String)
      → contains ids k ≡ true
      → Holds s tag k
      → (id : String) × (first_with_tag s tag ids ≡ some id)
  unfolding first_with_tag
  first_with_tag-found [] k m h = cc
  first_with_tag-found (x ∷ ids) k m h = elim (first_cases x ids) [
    | inl (holds, found) ↦ (x, found)
    | inr (lacks, goes) ↦ elim (Bool-cases (x == k)) [
      | inl eq ↦ absurd (lacks (subst (Holds s tag) (sym (ground (arith, eq_iff x k))) h))
      | inr ne ↦ let (id, found) = first_with_tag-found ids k (ground arith) h in (id, goes ∙ found)
    ]
  ]

  first_with_tag_iff :
      (ids : List String) (id : String)
      → IsAscending ids
      → (first_with_tag s tag ids ≡ some id) ↔ IsLeast s tag ids id
  first_with_tag_iff ids id asc = (
    first_with_tag-IsLeast ids id asc,
    λ (m, holds, least).
        let (id', found) = first_with_tag-found ids id m holds in
        let (m', holds', least') = first_with_tag-IsLeast ids id' asc found in
        elim (least id' m' holds') [
          | inl same ↦ found ∙ ap some (sym same)
          | inr before ↦ elim (least' id m holds) [
            | inl same ↦ found ∙ ap some same
            | inr after ↦ absurd (below-below id id' before after)
          ]
        ],
  )

IsLeast-same :
    (s : SquireState) (tag : String) (ids ids' : List String) (id : String)
    → ((k : String) → contains ids k ≡ contains ids' k)
    → IsLeast s tag ids id
    → IsLeast s tag ids' id
IsLeast-same s tag ids ids' id same (m, holds, least) =
    (sym (same id) ∙ m, holds, λ k m'. least k (same k ∙ m'))

module _ (spec : RangeSpec) (s : SquireState) (session_id : String) where
  -- The tokens that a bookmark without a namespace is looked up in.
  abbrev pub candidates : List String
  candidates = list_token_ids_by_session s session_id ++ list_token_ids_by_session s nil_session

  -- The namespace of the first position; else that of the second; else the least candidate with the
  -- first bookmark.
  abbrev pub IsSource : String → Type 0
  IsSource ns =
      ((is_empty_text spec.start.namespace ≡ false) × (ns ≡ spec.start.namespace))
      ⊎ (((is_empty_text spec.start.namespace ≡ true)
            × (is_empty_text spec.end.namespace ≡ false)
            × (ns ≡ spec.end.namespace))
          ⊎ ((is_empty_text spec.start.namespace ≡ true)
              × (is_empty_text spec.end.namespace ≡ true)
              × IsLeast s (bookmark_tag spec.start.bookmark) candidates ns))

  find_token_with_bookmark_iff :
      (bookmark ns : String)
      → (find_token_with_bookmark bookmark s session_id ≡ ok ns)
        ↔ IsLeast s (bookmark_tag bookmark) candidates ns
  unfolding find_token_with_bookmark
  find_token_with_bookmark_iff bookmark ns =
      let sorted = sort_dedup candidates in
      let tag = bookmark_tag bookmark in
      let least = first_with_tag_iff s tag sorted ns (sort_dedup-IsAscending candidates) in
      (
        λ h. elim (Option-cases (first_with_tag s tag sorted)) [
          | inl none_found ↦ cc (rw (find_token_with_bookmark, none_found) at h)
          | inr (id, found) ↦
              let same : id ≡ ns = ok-injective (rw (find_token_with_bookmark, found) at h) in
              IsLeast-same s tag sorted candidates ns (contains-sort_dedup candidates)
                (least.0 (found ∙ ap some same))
        ],
        λ h.
            let found = least.1 (
              IsLeast-same s tag candidates sorted ns (λ k. sym (contains-sort_dedup candidates k))
                h) in
            rw (find_token_with_bookmark, found) refl,
      )

  pub source_namespace_iff :
      (ns : String) → (source_namespace spec s session_id ≡ ok ns) ↔ IsSource ns
  unfolding source_namespace
  source_namespace_iff ns =
      let searched = find_token_with_bookmark_iff spec.start.bookmark ns in
      elim (Bool-cases (is_empty_text spec.start.namespace)) [
        | inr named ↦ (
          λ h. inl (named, sym (ok-injective (rw (source_namespace, named) at h))),
          λ h. elim h [
            | inl (named', at) ↦ rw (source_namespace, named) (ap ok (sym at))
            | inr (inl (blank, _, _)) ↦ cc (sym named ∙ blank)
            | inr (inr (blank, _, _)) ↦ cc (sym named ∙ blank)
          ],
        )
        | inl blank ↦ elim (Bool-cases (is_empty_text spec.end.namespace)) [
          | inr named ↦ (
            λ h.
                inr (
                  inl
                    (blank, named, sym (ok-injective (rw (source_namespace, blank, named) at h)))),
            λ h. elim h [
              | inl (named', at) ↦ cc (sym named' ∙ blank)
              | inr (inl (_, _, at)) ↦ rw (source_namespace, blank, named) (ap ok (sym at))
              | inr (inr (_, blank', _)) ↦ cc (sym named ∙ blank')
            ],
          )
          | inl blank' ↦ (
            λ h. inr (inr (blank, blank', searched.0 (rw (source_namespace, blank, blank') at h))),
            λ h. elim h [
              | inl (named, at) ↦ cc (sym named ∙ blank)
              | inr (inl (_, named, at)) ↦ cc (sym named ∙ blank')
              | inr (inr (_, _, least)) ↦ rw (source_namespace, blank, blank') (searched.1 least)
            ],
          )
        ]
      ]
