-- ===== src/Ingest/Stored.antt =====
-- What the ingestion of a text leaves in the store.
use Prim.Native.String.{[], ◌∷◌}
use text.Mathlib.TextLemmas.{cons-append, nil-append, append_cancel_left, append_cancel_right}
use mathlib.Core.Option
use text.Mathlib.TextEquality.{eq_iff}
use agent_squire.Base.{
  ℕ, zero, suc, ◌+◌, ◌≤◌, String, true, false, ◌==◌, Option, none, some, List, append,
  if◌then◌else◌, ◌≡◌, ◌≢◌, refl, sym, ap, ◌∙◌, arith, subst, get_elem?, eq_refl, is_some,
  Bool-cases, inl, inr,
}
use agent_squire.Base.Dict.{lookup, contains_key, lookup-insert, lookup-modify}
use agent_squire.Slug.Decimal.{decimal, read_from, read-decimal}
use agent_squire.Store.Types.{NewTokenSpec, StoredToken}
use agent_squire.Store.Ops.{SquireState, upsert_token, merge_token, new_token}
use agent_squire.Protocol.{is_empty_text}
use agent_squire.Ingest.Chunks.{chunk_user_input-shown}
use agent_squire.Ingest.{
  padded, chunk_id, ingest_from, bookmarked, chunk_token, ingest_text_chunks, chunk_user_input,
}

read-zero : (s : String) → read_from 0 (append "0" s) ≡ read_from 0 s
unfolding read_from
read-zero s = ap (read_from 0) (cons-append "0" [] s ∙ ap (λ u. "0" ∷ u) (nil-append s))

read-zeros : (s : String) → read_from 0 (append "00" s) ≡ read_from 0 s
unfolding read_from
read-zeros s = ap (read_from 0) (cons-append "0" "0" s) ∙ read-zero s

read-padded : (n : ℕ) → read_from 0 (padded n) ≡ n
unfolding padded
read-padded n = grind (arith, read-decimal n, read-zeros (decimal n), read-zero (decimal n))

chunk_id-inj :
    (prefix : String) (turn m n : ℕ) (session_id : String)
    → chunk_id prefix turn m session_id ≡ chunk_id prefix turn n session_id
    → m ≡ n
unfolding chunk_id
chunk_id-inj prefix turn m n session_id e =
    let e₁ = append_cancel_left prefix _ _ e in
    let e₂ = append_cancel_left "_T" _ _ e₁ in
    let e₃ = append_cancel_left (decimal turn) _ _ e₂ in
    let e₄ = append_cancel_left "_" _ _ e₃ in
    let same : padded m ≡ padded n = append_cancel_right (padded m) (padded n) _ e₄ in
    sym (read-padded m) ∙ ap (read_from 0) same ∙ read-padded n

-- The text of a stored token.
abbrev pub text_in : Option StoredToken → Option (Option String)
text_in none = none
text_in (some t) = some t.full_desc

abbrev pub full_text : SquireState → String → Option (Option String)
full_text s id = text_in (lookup id s.tokens)

text_in-merge :
    (n : NewTokenSpec) (text : String) (found : Option StoredToken)
    → n.full_desc ≡ some text
    → is_some found ≡ true
    → text_in (Option.map (merge_token n) found) ≡ some (some text)
unfolding merge_token
text_in-merge n text none h there = absurd (ground arith)
text_in-merge n text (some t) h there = rw h refl

full_text-upsert :
    (s : SquireState) (n : NewTokenSpec) (turn : ℕ) (session_id text k : String)
    → n.full_desc ≡ some text
    → full_text (upsert_token s n turn session_id) k
      ≡ (if n.id == k then some (some text) else full_text s k)
unfolding upsert_token new_token
full_text-upsert s n turn session_id text k h = elim (Bool-cases (contains_key n.id s.tokens)) [
  | inl old ↦ elim (Bool-cases (n.id == k)) [
    | inl here ↦
        let same : n.id ≡ k = ground (arith, eq_iff n.id k) in
        rw (old, lookup-modify n.id k (merge_token n) s.tokens, here)
          (text_in-merge n text (lookup k s.tokens) h
            (subst (λ u. contains_key u s.tokens ≡ true) same old))
    | inr other ↦ rw (old, lookup-modify n.id k (merge_token n) s.tokens, other) refl
  ]
  | inr new ↦ elim (Bool-cases (n.id == k)) [
    | inl here ↦ rw (new, lookup-insert n.id k (new_token n turn session_id) s.tokens, here, h) refl
    | inr other ↦ rw (new, lookup-insert n.id k (new_token n turn session_id) s.tokens, other) refl
  ]
]

module _ (prefix : String) (turn : ℕ) (session_id : String) where
  abbrev id_of : ℕ → String
  id_of i = chunk_id prefix turn (i + 1) session_id

  abbrev after : SquireState → ℕ → List String → SquireState × List String
  after s i chunks = ingest_from s prefix turn session_id i chunks

  -- A token that is none of the chunks from `i` on keeps its text.
  ingest_from_other :
      (s : SquireState) (i : ℕ) (chunks : List String) (k : String)
      → ((j : ℕ) → i ≤ j → id_of j ≢ k)
      → full_text (after s i chunks).0 k ≡ full_text s k
  unfolding ingest_from
  ingest_from_other s i List.[] k other = refl
  ingest_from_other s i (List.◌∷◌ chunk chunks) k other =
      let id = id_of i in
      let token = chunk_token id i chunk in
      let differs : (id == k) ≡ false = ground (arith, eq_iff id k, other i (omega arith)) in
      ingest_from_other (upsert_token s token turn session_id) (suc i) chunks k
        (λ j le. other j (omega arith))
      ∙ full_text-upsert s token turn session_id (bookmarked i chunk) k refl
      ∙ rw differs refl

  ingest_from_at :
      (s : SquireState) (i : ℕ) (chunks : List String) (j at : ℕ) (chunk : String)
      → at ≡ i + j
      → get_elem? chunks j ≡ some chunk
      → (full_text (after s i chunks).0 (id_of at) ≡ some (some (bookmarked at chunk)))
        × (get_elem? (after s i chunks).1 j ≡ some (id_of at))
  unfolding ingest_from
  ingest_from_at s i List.[] j at chunk place found = absurd (ground arith)
  ingest_from_at s i (List.◌∷◌ head chunks) zero at chunk place found =
      let token = chunk_token (id_of i) i head in
      let s' = upsert_token s token turn session_id in
      let same : i ≡ at = omega (arith, place) in
      let same_chunk : head ≡ chunk = ground arith in
      let here =
        ingest_from_other s' (suc i) chunks (id_of i)
          (λ k le e. absurd (omega (arith, chunk_id-inj prefix turn (k + 1) (i + 1) session_id e)))
        ∙ full_text-upsert s token turn session_id (bookmarked i head) (id_of i) refl
        ∙ rw (eq_refl (id_of i)) refl in
      (
        subst
            (λ a.
              full_text (after s' (suc i) chunks).0 (id_of a) ≡ some (some (bookmarked a chunk)))
            same (here ∙ ap (λ c. some (some (bookmarked i c))) same_chunk),
        ap (λ a. some (id_of a)) same,
      )
  ingest_from_at s i (List.◌∷◌ head chunks) (suc j) at chunk place found =
      ingest_from_at (upsert_token s (chunk_token (id_of i) i head) turn session_id) (suc i) chunks
        j at chunk (omega arith) found

-- Each chunk of the text is not empty. The chunk `i`, counted from 0, is stored behind the bookmark
-- chunk_i under the identifier with the number i + 1, whatever was stored there, and that identifier is
-- the entry `i` of the result. A token whose identifier is none of those keeps its text.
pub ingest_text_chunks_lem :
    (text prefix session_id : String) (turn : ℕ) (s : SquireState)
    → ((i : ℕ) (chunk : String)
        → get_elem? (chunk_user_input text) i ≡ some chunk
        → (is_empty_text chunk ≡ false)
          × (full_text
                (ingest_text_chunks text turn prefix s session_id).0
                (chunk_id prefix turn (i + 1) session_id)
              ≡ some (some (bookmarked i chunk)))
          × (get_elem? (ingest_text_chunks text turn prefix s session_id).1 i
              ≡ some (chunk_id prefix turn (i + 1) session_id)))
      × ((k : String)
          → ((i : ℕ) → chunk_id prefix turn (i + 1) session_id ≢ k)
          → full_text (ingest_text_chunks text turn prefix s session_id).0 k ≡ full_text s k)
unfolding ingest_text_chunks
ingest_text_chunks_lem text prefix session_id turn s = (
  λ i chunk found.
      let (stored, listed) =
        ingest_from_at prefix turn session_id s 0 (chunk_user_input text) i i chunk (omega arith)
          found in
      (chunk_user_input-shown text i chunk found, stored, listed),
  λ k other.
      ingest_from_other prefix turn session_id s 0 (chunk_user_input text) k (λ i le. other i),
)
