-- ===== src/Stream/Joined.antt =====
-- What split_into_chunks gives for every text.
use Prim.Native.String.append as text_append
use Prim.Native.String.len as text_len
use Prim.Native.String.{[], len}
use text.Mathlib.Text.{get?, is_char_boundary}
use text.Mathlib.TextLemmas.{append-nil, append_assoc}
use text.Mathlib.TextPositions.{len-append, boundary-zero}
use agent_squire.Base.{
  ℕ, zero, suc, ◌+◌, ◌≤◌, ◌<◌, String, true, false, Option, none, some, Option-cases, All, Bool,
  true, List, append, if◌then◌else◌, ltb, leb, ◌≡◌, ◌⊎◌, inl, inr, refl, sym, ap, ◌∙◌, subst,
}
use agent_squire.Base.Cuts.{get?-IsCut, prefix_unique, get?-boundaries, get?-inside}
use agent_squire.Tool.{Result, ok, err}
use agent_squire.Stream.{
  Stop, out_of_fuel, panics, newline_before, split_at, chunks_from, split_into_chunks,
}
use native.Mathlib.Omega.{arith}

-- The position of a line feed is among those that the loop reads.
newline_before_bounds :
    (text : String) (start steps at : ℕ)
    → newline_before text start steps ≡ some at
    → (start < at) × (at ≤ start + steps)
unfolding newline_before
newline_before_bounds text start zero at h = ground arith
newline_before_bounds text start (suc steps) at h =
    ground (arith, newline_before_bounds text start steps at)

split_at_bounds :
    (text : String) (start max_len : ℕ)
    → 0 < max_len
    → start < len text
    → (start < split_at text start max_len)
      × (split_at text start max_len ≤ len text)
      × (split_at text start max_len ≤ start + max_len + 1)
unfolding split_at
split_at_bounds text start max_len pos h = grind (arith, newline_before_bounds text start max_len)

abbrev pub concat : List String → String
concat List.[] = []
concat (List.◌∷◌ s rest) = append s (concat rest)

ltb_cases : (m n : ℕ) → ((m < n) × (ltb m n ≡ true)) ⊎ ((n ≤ m) × (ltb m n ≡ false))
ltb_cases m n = ground arith

-- The positions that the text is cut at, from its beginning on.
pub data IsCutAt (text : String) (max_len : ℕ) : ℕ → Type 0 where
  at_first : IsCutAt text max_len 0
  at_next :
      {start : ℕ}
      → IsCutAt text max_len start
      → start < len text
      → IsCutAt text max_len (split_at text start max_len)

-- One of them stands inside a character.
abbrev pub CutsCharacter : String → ℕ → Type 0
CutsCharacter text max_len =
    (cut : ℕ) × IsCutAt text max_len cut × (cut < len text) × (is_char_boundary text cut ≡ false)

-- Each chunk has at most `max_len` bytes, and one more for a line feed.
abbrev pub AllShort : ℕ → List String → Type 0
AllShort max_len chunks = All (λ chunk. len chunk ≤ max_len + 1) chunks

-- The chunks from the position `start` on: with the text before it they are the whole text.
abbrev Goes : String → (max_len start : ℕ) → Result Stop (List String) → Type 0
Goes text max_len start (err out_of_fuel) = ⊥
Goes text max_len start (err panics) = CutsCharacter text max_len
Goes text max_len start (ok chunks) =
    (p : String) × (text ≡ append p (concat chunks)) × (len p ≡ start) × AllShort max_len chunks

abbrev add_chunk : Option String → Result Stop (List String) → Result Stop (List String)
add_chunk found rest = elim found [
  | none ↦ err panics
  | some chunk ↦ elim rest [ err e ↦ err e | ok chunks ↦ ok (List.◌∷◌ chunk chunks) ]
]

Goes-add :
    (text : String) (max_len start cut : ℕ) (chunk : String) (rest : Result Stop (List String))
    → start < cut
    → cut ≤ start + max_len + 1
    → get? text start cut ≡ some chunk
    → Goes text max_len cut rest
    → Goes text max_len start (add_chunk (some chunk) rest)
Goes-add text max_len start cut chunk (err out_of_fuel) after short got h = h
Goes-add text max_len start cut chunk (err panics) after short got h = h
Goes-add text max_len start cut chunk (ok chunks) after short got (p', whole', len_p', rest_short) =
    let (p, q, whole, len_p, len_chunk) =
      get?-IsCut text start cut chunk (omega (arith, after)) got in
    let begins : append p chunk ≡ p' =
      prefix_unique (append p chunk) p' q (concat chunks) text
        (whole ∙ sym (append_assoc p chunk q)) whole'
        (len-append p chunk ∙ len_chunk ∙ sym len_p') in
    (
      p,
      whole'
          ∙ ap (λ u. append u (concat chunks)) (sym begins)
          ∙ append_assoc p chunk (concat chunks),
      len_p,
      (omega (arith, len_p, len_chunk, short), rest_short),
    )

pub chunks_from-Goes :
    (fuel : ℕ) (text : String) (start max_len : ℕ)
    → 0 < max_len
    → IsCutAt text max_len start
    → start ≤ len text
    → is_char_boundary text start ≡ true
    → len text < start + fuel
    → Goes text max_len start (chunks_from fuel text start max_len)
unfolding chunks_from
chunks_from-Goes zero text start max_len pos reached inside at enough = absurd (omega arith)
chunks_from-Goes (suc fuel) text start max_len pos reached inside at enough =
    let cut = split_at text start max_len in
    let rest = chunks_from fuel text cut max_len in
    let result =
      λ (found : Option String) (more : Bool). if more then add_chunk found rest else ok List.[] in
    elim (ltb_cases start (len text)) [
      | inr (behind, test) ↦
          subst (λ b. Goes text max_len start (result (get? text start cut) b)) (sym test)
            (text, sym (append-nil text), omega arith, tt)
      | inl (before, test) ↦
          let (after, within, short) = split_at_bounds text start max_len pos before in
          elim (Option-cases (get? text start cut)) [
            | inl missed ↦
                subst (λ b. Goes text max_len start (result (get? text start cut) b)) (sym test)
                  (subst (λ found. Goes text max_len start (add_chunk found rest)) (sym missed)
                    (let (below_end, inside) =
                        get?-inside text start cut (omega (arith, after)) within at missed in
                      (cut, at_next reached before, below_end, inside)))
            | inr (chunk, got) ↦
                let ends_at = (get?-boundaries text start cut chunk got).1 in
                let next =
                  chunks_from-Goes fuel text cut max_len pos (at_next reached before) within ends_at
                    (omega arith) in
                subst (λ b. Goes text max_len start (result (get? text start cut) b)) (sym test)
                  (subst (λ found. Goes text max_len start (add_chunk found rest)) (sym got)
                    (Goes-add text max_len start cut chunk rest after short got next))
          ]
    ]

abbrev Ends : String → ℕ → Result Stop (List String) → Type 0
Ends text max_len r =
    ((r ≡ err panics) × CutsCharacter text max_len)
    ⊎ ((chunks : List String) × (r ≡ ok chunks) × (concat chunks ≡ text) × AllShort max_len chunks)

Goes-Ends :
    (text : String) (max_len : ℕ) (r : Result Stop (List String))
    → Goes text max_len 0 r
    → Ends text max_len r
Goes-Ends text max_len (err out_of_fuel) h = absurd h
Goes-Ends text max_len (err panics) h = inl (refl, h)
Goes-Ends text max_len (ok chunks) (p, whole, len_p, short) =
    let empty : p ≡ [] =
      prefix_unique p [] (concat chunks) text text whole (sym (text_append.nil text))
        (len_p ∙ sym text_len.nil) in
    inr (
      chunks,
      refl,
      sym (text_append.nil (concat chunks))
          ∙ ap (λ u. append u (concat chunks)) (sym empty)
          ∙ sym whole,
      short,
    )

leb_cases : (m n : ℕ) → ((m ≤ n) × (leb m n ≡ true)) ⊎ (leb m n ≡ false)
leb_cases m n = ground arith

-- For a positive `max_len` the loop ends. It panics only where one of its cuts stands inside a character;
-- otherwise the chunks, one behind the other, are the text, and each has at most `max_len` bytes and one.
pub split_into_chunks_total :
    (text : String) (max_len : ℕ)
    → 0 < max_len
    → ((split_into_chunks (suc (len text)) text max_len ≡ err panics) × CutsCharacter text max_len)
      ⊎ ((chunks : List String) × (split_into_chunks (suc (len text)) text max_len ≡ ok chunks)
          × (concat chunks ≡ text)
          × AllShort max_len chunks)
unfolding split_into_chunks
split_into_chunks_total text max_len pos =
    let rest = chunks_from (suc (len text)) text 0 max_len in
    let result = λ (whole : Bool). if whole then ok (List.◌∷◌ text List.[]) else rest in
    elim (leb_cases (len text) max_len) [
      | inl (fits, test) ↦
          subst (λ b. Ends text max_len (result b)) (sym test)
            (inr (List.◌∷◌ text List.[], refl, append-nil text, (omega (arith, fits), tt)))
      | inr test ↦
          subst (λ b. Ends text max_len (result b)) (sym test)
            (Goes-Ends text max_len rest (
              chunks_from-Goes (suc (len text)) text 0 max_len pos at_first (omega arith)
                (boundary-zero text) (omega arith)))
    ]
