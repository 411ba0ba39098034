-- ===== src/Protocol/Ranges/ReadBack.antt =====
-- A range between two bookmarks of a stored text, resolved and read back.
use Prim.Native.String.{len}
use text.Mathlib.Text.{find?, get?}
use text.Mathlib.TextPositions.{len-append, get?-append_middle}
use text.Mathlib.TextLemmas.{append-nil, append_assoc}
use agent_squire.Base.{
  ℕ, ◌+◌, ◌-◌, ◌%◌, ◌^◌, ◌<◌, ◌≤◌, ◌≡◌, refl, sym, ◌∙◌, ap, String, true, false, ◌==◌, eq_refl,
  some, List, ltb, leb, append, arith,
}
use agent_squire.Slug.Chars.{trim}
use agent_squire.Protocol.Ranges.Trim.{trim-newline}
use agent_squire.Store.Types.{TokenRange}
use agent_squire.Store.Ops.{SquireState, token_detail}
use agent_squire.Tool.{ok}
use agent_squire.Protocol.{is_empty_text}
use agent_squire.Protocol.Ranges.{
  add_usize, bookmark_tag, bookmark_pos, full_desc_of, slice_line, range_text, range_texts,
  resolve_ranges, RangeSpec, position, trim_markers,
}
use agent_squire.Protocol.Resolve.{
  resolve_range_spec, source_namespace, range_in, measured, effective_end,
}

module _ (pre tag mid : String) (end_tag post : String) where
  -- A text with two tags.
  abbrev pub between : String
  between = append pre (append tag (append mid (append end_tag post)))

  len-between : len between ≡ len pre + (len tag + (len mid + (len end_tag + len post)))
  len-between = omega (
    arith,
    len-append pre (append tag (append mid (append end_tag post))),
    len-append tag (append mid (append end_tag post)),
    len-append mid (append end_tag post),
    len-append end_tag post,
  )

  get-between :
      get? between (len pre + len tag) (len pre + len tag + (len mid + len end_tag))
      ≡ some (append mid end_tag)
  get-between =
      let split : between ≡ append (append pre tag) (append (append mid end_tag) post) =
        ap (λ (u : String). append pre (append tag u)) (sym (append_assoc mid end_tag post))
        ∙ sym (append_assoc pre tag (append (append mid end_tag) post)) in
      ap (λ (u : String). get? u (len pre + len tag) (len pre + len tag + (len mid + len end_tag)))
        split
      ∙ ap
          (λ k.
            get? (append (append pre tag) (append (append mid end_tag) post)) k
              (k + (len mid + len end_tag)))
          (sym (len-append pre tag))
      ∙ ap
          (λ k.
            get? (append (append pre tag) (append (append mid end_tag) post)) (len (append pre tag))
              (len (append pre tag) + k))
          (sym (len-append mid end_tag))
      ∙ get?-append_middle (append pre tag) (append mid end_tag) post

small : (n : ℕ) → n < 2 ^ 64 → n % 2 ^ 64 ≡ n
small n h = omega arith

bookmark_pos_at :
    (text tag : String) (p : ℕ)
    → find? text tag ≡ some p
    → p + len tag < 2 ^ 64
    → bookmark_pos text tag ≡ some (p + len tag)
unfolding bookmark_pos
bookmark_pos_at text tag p at h = rw (bookmark_pos, at) (ap some (small (p + len tag) h))

slice_line_at :
    (text piece : String) (start n : ℕ)
    → start < len text
    → start + n ≤ len text
    → get? text start (start + n) ≡ some piece
    → slice_line text start (start + n) ≡ some (append piece "\n")
unfolding slice_line
slice_line_at text piece start n inside fits got =
    let before : ltb start (len text) ≡ true = ground arith in
    let whole : leb (start + n) (len text) ≡ true = ground arith in
    rw (slice_line, before, whole, got) refl

measured_at :
    (spec : RangeSpec) (ns text : String) (start n : ℕ)
    → 0 < n
    → measured spec ns text start (start + n)
      ≡ ok (
          List.◌∷◌
            (record {
              namespace = ns;
              bookmark = spec.start.bookmark;
              offset = spec.start.offset;
              length = some n;
            })
            List.[])
unfolding measured effective_end
measured_at spec ns text start n pos =
    let more : leb (start + n) start ≡ false = ground arith in
    let n_back : start + n - start ≡ n = omega arith in
    let end : effective_end spec text start (start + n) ≡ start + n =
      rw (effective_end, more) refl in
    rw (measured, end, more, n_back) refl

tag-pos : (b : String) → 0 < len (bookmark_tag b)
unfolding bookmark_tag
tag-pos b = omega (arith, len-append "§^" (append (trim_markers b) "§^"))

module _ (ns a b pre mid post : String) where
  abbrev stored_text : String
  stored_text = between pre (bookmark_tag a) mid (bookmark_tag b) post

  abbrev spec : RangeSpec
  spec = record { start = position ns a 0; end = position ns b 0 }

  abbrev range : TokenRange
  range = record {
    namespace = ns;
    bookmark = a;
    offset = 0;
    length = some (len mid + len (bookmark_tag b));
  }

  module _ (at_a : find? stored_text (bookmark_tag a) ≡ some (len pre))
      (short : len stored_text < 2 ^ 64) where
    room : len pre + (len (bookmark_tag a) + (len mid + len (bookmark_tag b))) < 2 ^ 64
    room = omega (arith, short, len-between pre (bookmark_tag a) mid (bookmark_tag b) post)

    first_pos : bookmark_pos stored_text (bookmark_tag a) ≡ some (len pre + len (bookmark_tag a))
    first_pos = bookmark_pos_at stored_text (bookmark_tag a) (len pre) at_a (omega (arith, room))

    range_text_between :
        range_text stored_text range ≡ some (append (append mid (bookmark_tag b)) "\n")
    unfolding range_text
    range_text_between =
        let total = len-between pre (bookmark_tag a) mid (bookmark_tag b) post in
        let start : add_usize (len pre + len (bookmark_tag a)) 0 ≡ len pre + len (bookmark_tag a) =
          omega (arith, room) in
        let stop : add_usize (len pre + len (bookmark_tag a)) (len mid + len (bookmark_tag b))
            ≡ len pre + len (bookmark_tag a) + (len mid + len (bookmark_tag b)) =
          omega (arith, room) in
        rw (range_text, first_pos)
          (ap (λ k. slice_line stored_text k (add_usize k (len mid + len (bookmark_tag b)))) start
            ∙ ap (slice_line stored_text (len pre + len (bookmark_tag a))) stop
            ∙ slice_line_at stored_text _ _ _ (omega (arith, total, tag-pos b))
                (omega (arith, total)) (get-between pre (bookmark_tag a) mid (bookmark_tag b) post))

    range_in_between :
        find? stored_text (bookmark_tag b) ≡ some (len pre + len (bookmark_tag a) + len mid)
        → range_in spec ns stored_text ≡ ok (List.◌∷◌ range List.[])
    unfolding range_in
    range_in_between at_b =
        let second = bookmark_pos_at stored_text (bookmark_tag b) _ at_b (omega (arith, room)) in
        let start : add_usize (len pre + len (bookmark_tag a)) 0 ≡ len pre + len (bookmark_tag a) =
          omega (arith, room) in
        let end : add_usize (len pre + len (bookmark_tag a) + len mid + len (bookmark_tag b)) 0
            ≡ len pre + len (bookmark_tag a) + (len mid + len (bookmark_tag b)) =
          omega (arith, room) in
        rw (range_in, first_pos, second)
          (ap
              (λ k.
                measured spec ns stored_text k
                  (add_usize (len pre + len (bookmark_tag a) + len mid + len (bookmark_tag b)) 0))
              start
            ∙ ap (measured spec ns stored_text (len pre + len (bookmark_tag a))) end
            ∙ measured_at spec ns stored_text _ _ (omega (arith, tag-pos b)))

-- A text holds two bookmarks, the first tag of each at the place shown, and is short of 2^64 bytes. A
-- spec from one to the other, in the namespace of the token with this text, resolves to one range, and
-- reading that range back gives the text behind the first tag up to and with the second tag, trimmed.
pub resolve_ranges-resolve_range_spec :
    (s : SquireState) (session_id ns a b pre mid post : String)
    → is_empty_text ns ≡ false
    → full_desc_of (token_detail s ns)
      ≡ some (between pre (bookmark_tag a) mid (bookmark_tag b) post)
    → find? (between pre (bookmark_tag a) mid (bookmark_tag b) post) (bookmark_tag a)
      ≡ some (len pre)
    → find? (between pre (bookmark_tag a) mid (bookmark_tag b) post) (bookmark_tag b)
      ≡ some (len pre + len (bookmark_tag a) + len mid)
    → len (between pre (bookmark_tag a) mid (bookmark_tag b) post) < 2 ^ 64
    → (ranges : List TokenRange) × (resolve_range_spec
          (record { start = position ns a 0; end = position ns b 0 })
          s
          session_id
        ≡ ok ranges)
      × (resolve_ranges ranges s ≡ some (trim (append mid (bookmark_tag b))))
unfolding resolve_range_spec source_namespace resolve_ranges range_texts
resolve_ranges-resolve_range_spec s session_id ns a b pre mid post named stored at_a at_b short =
    let same : ns == ns ≡ true = eq_refl ns in
    let found = range_in_between ns a b pre mid post at_a short at_b in
    let read = range_text_between ns a b pre mid post at_a short in
    (
      List.◌∷◌ (range ns a b pre mid post) List.[],
      rw (resolve_range_spec, source_namespace, named, same, stored) found,
      rw (resolve_ranges, range_texts, stored, read)
          (ap some (ap trim (append-nil _) ∙ trim-newline (append mid (bookmark_tag b)))),
    )
