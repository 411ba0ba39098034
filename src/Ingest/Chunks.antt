-- ===== src/Ingest/Chunks.antt =====
-- The chunks of a text are not empty.
use agent_squire.Base.{
  ℕ, zero, suc, some, get_elem?, String, false, ◌&&◌, List, append, ◌++◌, leb, All, ◌≡◌, refl,
  arith, Bool-cases, inl, inr, subst,
}
use Prim.Native.String.{[], ◌∷◌, len}
use agent_squire.Slug.Chars.{trim}
use agent_squire.Protocol.{is_empty_text}
use agent_squire.Ingest.{
  is_ending, is_boundary, push_text, sentences_from, split_into_sentences, chunks_of, paragraphs_of,
  chunk_user_input, chunk_soft_limit_chars,
}

-- The texts of a list are not empty.
abbrev AllShown : List String → Type 0
AllShown ss = All (λ s. is_empty_text s ≡ false) ss

AllShown-append : (ss ts : List String) → AllShown ss → AllShown ts → AllShown (ss ++ ts)
AllShown-append List.[] ts h k = k
AllShown-append (List.◌∷◌ s ss) ts (h, hs) k = (h, AllShown-append ss ts hs k)

push_text-AllShown : (s : String) (ss : List String) → AllShown ss → AllShown (push_text s ss)
push_text-AllShown [] ss h = h
push_text-AllShown (c ∷ s) ss h = (refl, h)

sentences_from-AllShown : (current s : String) → AllShown (sentences_from current s)
unfolding sentences_from
sentences_from-AllShown current [] = push_text-AllShown (trim current) List.[] tt
sentences_from-AllShown current (c ∷ s) = elim (Bool-cases (is_ending c && is_boundary s)) [
  | inl ends ↦
      rw (sentences_from, ends)
        (push_text-AllShown (trim (append current (c ∷ []))) (sentences_from [] s)
          (sentences_from-AllShown [] s))
  | inr goes ↦ rw (sentences_from, goes) (sentences_from-AllShown (append current (c ∷ [])) s)
]

fallback-AllShown :
    (paragraph : String) (ss : List String)
    → is_empty_text paragraph ≡ false
    → AllShown ss
    → AllShown (elim ss [ List.[] ↦ List.◌∷◌ paragraph List.[] | List.◌∷◌ s ss ↦ List.◌∷◌ s ss ])
fallback-AllShown paragraph List.[] h hs = (h, tt)
fallback-AllShown paragraph (List.◌∷◌ s ss) h hs = hs

split_into_sentences-AllShown :
    (paragraph : String)
    → is_empty_text paragraph ≡ false
    → AllShown (split_into_sentences paragraph)
unfolding split_into_sentences
split_into_sentences-AllShown paragraph h =
    fallback-AllShown paragraph (sentences_from [] paragraph) h
      (sentences_from-AllShown [] paragraph)

chunks_of-AllShown : (paras : List String) → AllShown paras → AllShown (chunks_of paras)
unfolding chunks_of
chunks_of-AllShown List.[] h = tt
chunks_of-AllShown (List.◌∷◌ para paras) (h, hs) =
    let rest = chunks_of-AllShown paras hs in
    elim (Bool-cases (leb (len para) chunk_soft_limit_chars)) [
      | inl short ↦ rw short (h, rest)
      | inr long ↦ rw long (
          AllShown-append (split_into_sentences para) (chunks_of paras)
            (split_into_sentences-AllShown para h) rest)
    ]

paragraphs_of-AllShown : (ps : List String) → AllShown (paragraphs_of ps)
unfolding paragraphs_of
paragraphs_of-AllShown List.[] = tt
paragraphs_of-AllShown (List.◌∷◌ p ps) =
    push_text-AllShown (trim p) (paragraphs_of ps) (paragraphs_of-AllShown ps)

found_shown :
    (ss : List String) (i : ℕ) (s : String)
    → AllShown ss
    → get_elem? ss i ≡ some s
    → is_empty_text s ≡ false
found_shown List.[] i s h found = absurd (ground arith)
found_shown (List.◌∷◌ t ss) zero s (h, hs) found =
    let same : t ≡ s = ground arith in subst (λ u. is_empty_text u ≡ false) same h
found_shown (List.◌∷◌ t ss) (suc i) s (h, hs) found = found_shown ss i s hs found

chunk_user_input-AllShown : (text : String) → AllShown (chunk_user_input text)
unfolding chunk_user_input
chunk_user_input-AllShown text = chunks_of-AllShown _ (paragraphs_of-AllShown _)

pub chunk_user_input-shown :
    (text : String) (i : ℕ) (chunk : String)
    → get_elem? (chunk_user_input text) i ≡ some chunk
    → is_empty_text chunk ≡ false
chunk_user_input-shown text i chunk =
    found_shown (chunk_user_input text) i chunk (chunk_user_input-AllShown text)
