-- ===== src/Tests/Stream.antt =====
-- The texts that are streamed and ingested, on short inputs.
use Prim.Native.String.{len}
use native.Mathlib.Omega.{arith}
use agent_squire.Base.{
  ℕ, false, suc, ◌+◌, String, ◌≡◌, ◌≢◌, ◌⊎◌, refl, some, List, [], ◌∷◌, get_elem?,
}
use agent_squire.Slug.Chars.{
  trim, trim_by, trim_start, trim_end, is_whitespace, is_ascii_alphanumeric,
}
use agent_squire.Slug.Decimal.{decimal}
use agent_squire.Tool.{ok, err}
use agent_squire.Protocol.Bookmarks.{at_marker}
use agent_squire.Protocol.{is_empty_text}
use agent_squire.Stream.Joined.{CutsCharacter, AllShort, concat, split_into_chunks_total}
use agent_squire.Ingest.Stored.{full_text, ingest_text_chunks_lem}
use agent_squire.Tests.Sample.{sample}
use agent_squire.Stream.{
  strip_protocol_markers, strip_from, split_into_chunks, chunks_from, newline_before, split_at,
  panics,
}
use agent_squire.Ingest.{
  ingest_text_chunks, bookmarked, chunk_user_input, split_blank, chunks_of, paragraphs_of,
  split_into_sentences, sentences_from, chunk_id, padded, take_chars,
}

strip_run : strip_protocol_markers is_ascii_alphanumeric "a §!x_1 §^s§^b§^, 5 §" ≡ "a  b"
unfolding strip_protocol_markers strip_from at_marker
strip_run = refl

split_run : split_into_chunks 9 "ab\ncdef" 3 ≡ ok ("ab\n" ∷ "cde" ∷ "f" ∷ [])
unfolding split_into_chunks chunks_from split_at newline_before
split_run = refl

-- The cut falls into the second character.
split_panic_run : split_into_chunks 9 "aé" 2 ≡ err panics
unfolding split_into_chunks chunks_from split_at newline_before
split_panic_run = refl

chunk_run : chunk_user_input " One. Two\n\n\n\nThree " ≡ "One. Two" ∷ "Three" ∷ []
unfolding chunk_user_input split_blank chunks_of paragraphs_of trim trim_by trim_start trim_end
    is_whitespace
chunk_run = refl

sentences_run : split_into_sentences "v1.2 is out! Why? So" ≡ "v1.2 is out!" ∷ "Why?" ∷ "So" ∷ []
unfolding split_into_sentences sentences_from trim trim_by trim_start trim_end is_whitespace
sentences_run = refl

id_run : chunk_id "USR" 2 7 "0123456789" ≡ "USR_T2_007_01234567"
unfolding chunk_id padded take_chars decimal
id_run = refl

-- The line feed behind the third byte is part of the chunk.
split_long_run : split_into_chunks 9 "abc\nde" 3 ≡ ok ("abc\n" ∷ "de" ∷ [])
unfolding split_into_chunks chunks_from split_at newline_before
split_long_run = refl

split_into_chunks_total_example :
    ((split_into_chunks (suc (len "ab\ncdef")) "ab\ncdef" 3 ≡ err panics)
      × CutsCharacter "ab\ncdef" 3)
    ⊎ ((chunks : List String) × (split_into_chunks (suc (len "ab\ncdef")) "ab\ncdef" 3 ≡ ok chunks)
        × (concat chunks ≡ "ab\ncdef")
        × AllShort 3 chunks)
split_into_chunks_total_example = split_into_chunks_total "ab\ncdef" 3 (omega arith)

ingest_text_chunks_lem_example :
    ((i : ℕ) (chunk : String)
      → get_elem? (chunk_user_input "One.\n\nTwo.") i ≡ some chunk
      → (is_empty_text chunk ≡ false)
        × (full_text
              (ingest_text_chunks "One.\n\nTwo." 1 "USR" sample "s").0
              (chunk_id "USR" 1 (i + 1) "s")
            ≡ some (some (bookmarked i chunk)))
        × (get_elem? (ingest_text_chunks "One.\n\nTwo." 1 "USR" sample "s").1 i
            ≡ some (chunk_id "USR" 1 (i + 1) "s")))
    × ((k : String)
        → ((i : ℕ) → chunk_id "USR" 1 (i + 1) "s" ≢ k)
        → full_text (ingest_text_chunks "One.\n\nTwo." 1 "USR" sample "s").0 k ≡ full_text sample k)
ingest_text_chunks_lem_example = ingest_text_chunks_lem "One.\n\nTwo." "USR" "s" 1 sample
