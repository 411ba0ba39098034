-- ===== src/Protocol/Resolve/Decides.antt =====
-- The ranges that range specs resolve to.
use Prim.Native.String.{len}
use agent_squire.Base.{
  ℕ, ◌-◌, ◌<◌, ◌≤◌, ◌≡◌, ◌↔◌, ◌⊎◌, sym, ap, inl, inr, String, some, List, [], ◌∷◌, leb, true, false,
  eq_iff, Bool-cases, Option-cases, arith,
}
use agent_squire.Store.Types.{TokenRange}
use agent_squire.Store.Ops.{SquireState, token_detail}
use agent_squire.Tool.{ok, ok-injective, Result-cases}
use agent_squire.Protocol.{is_empty_text}
use agent_squire.Protocol.Ranges.{add_usize, bookmark_tag, bookmark_pos, full_desc_of, RangeSpec}
use agent_squire.Protocol.Resolve.{
  resolve_range_spec, source_namespace, range_in, measured, effective_end, crosses,
}
use agent_squire.Protocol.Resolve.Source.{IsSource, source_namespace_iff}

-- Two positions name one token at most.
abbrev pub Agrees : RangeSpec → Type 0
Agrees spec =
    (is_empty_text spec.start.namespace ≡ true)
    ⊎ ((is_empty_text spec.end.namespace ≡ true) ⊎ (spec.start.namespace ≡ spec.end.namespace))

-- A range ends at the second position; but where that is not behind the first one, and both have the same
-- bookmark and namespace, it ends at the end of the text.
abbrev pub IsEnd : RangeSpec → String → (start second end : ℕ) → Type 0
IsEnd spec text start second end =
    ((start < second) × (end ≡ second))
    ⊎ ((second ≤ start)
        × (spec.start.bookmark ≡ spec.end.bookmark)
        × (spec.start.namespace ≡ spec.end.namespace)
        × (start < len text)
        × (end ≡ len text))

-- One range in the source of the spec, from behind the first bookmark, by its offset, to the end.
pub record IsResolution (spec : RangeSpec) (s : SquireState) (session_id : String)
    (ranges : List TokenRange) : Type 0 where
  pub source_ns : String
  pub text : String
  pub start_pos : ℕ
  pub end_pos : ℕ
  pub end : ℕ
  pub agrees : Agrees spec
  pub source : IsSource spec s session_id source_ns
  pub stored : full_desc_of (token_detail s source_ns) ≡ some text
  pub start_found : bookmark_pos text (bookmark_tag spec.start.bookmark) ≡ some start_pos
  pub end_found : bookmark_pos text (bookmark_tag spec.end.bookmark) ≡ some end_pos
  pub ends :
      IsEnd spec text
        (add_usize start_pos spec.start.offset)
        (add_usize end_pos spec.end.offset)
        end
  pub one :
      ranges
      ≡ record {
        namespace = source_ns;
        bookmark = spec.start.bookmark;
        offset = spec.start.offset;
        length = some (end - add_usize start_pos spec.start.offset);
      }
        ∷ []

crosses_iff : (spec : RangeSpec) → (crosses spec ≡ false) ↔ Agrees spec
crosses_iff spec = (
  ground (arith, eq_iff spec.start.namespace spec.end.namespace),
  ground (arith, eq_iff spec.start.namespace spec.end.namespace),
)

abbrev one_range : RangeSpec → String → (start end : ℕ) → List TokenRange
one_range spec ns start end =
    record {
      namespace = ns;
      bookmark = spec.start.bookmark;
      offset = spec.start.offset;
      length = some (end - start);
    }
    ∷ []

effective_end-IsEnd :
    (spec : RangeSpec) (text : String) (start second : ℕ)
    → start < effective_end spec text start second
    → IsEnd spec text start second (effective_end spec text start second)
unfolding effective_end
effective_end-IsEnd spec text start second more = ground (
  arith,
  eq_iff spec.start.bookmark spec.end.bookmark,
  eq_iff spec.start.namespace spec.end.namespace,
)

IsEnd-effective_end :
    (spec : RangeSpec) (text : String) (start second end : ℕ)
    → IsEnd spec text start second end
    → (effective_end spec text start second ≡ end) × (start < end)
unfolding effective_end
IsEnd-effective_end spec text start second end h = ground (
  arith,
  eq_iff spec.start.bookmark spec.end.bookmark,
  eq_iff spec.start.namespace spec.end.namespace,
)

measured_iff :
    (spec : RangeSpec) (ns text : String) (start second : ℕ) (ranges : List TokenRange)
    → (measured spec ns text start second ≡ ok ranges)
      ↔ ((end : ℕ) × IsEnd spec text start second end × (ranges ≡ one_range spec ns start end))
unfolding measured
measured_iff spec ns text start second ranges = (
  λ h. elim (Bool-cases (leb (effective_end spec text start second) start)) [
    | inl empty ↦ cc (rw (measured, empty) at h)
    | inr more ↦ (
      effective_end spec text start second,
      effective_end-IsEnd spec text start second (ground arith),
      sym (ok-injective (rw (measured, more) at h)),
    )
  ],
  λ (end, ends, one).
      let (at, more) = IsEnd-effective_end spec text start second end ends in
      let test : leb end start ≡ false = ground arith in rw (measured, at, test) (ap ok (sym one)),
)

module _ (spec : RangeSpec) (s : SquireState) (session_id : String) (ranges : List TokenRange) where
  resolved :
      (ns text : String)
      → Agrees spec
      → IsSource spec s session_id ns
      → full_desc_of (token_detail s ns) ≡ some text
      → range_in spec ns text ≡ ok ranges
      → IsResolution spec s session_id ranges
  unfolding range_in
  resolved ns text agrees source stored h =
      elim (Option-cases (bookmark_pos text (bookmark_tag spec.start.bookmark))) [
        | inl e ↦ cc (rw (range_in, e) at h)
        | inr (a, e) ↦ elim (Option-cases (bookmark_pos text (bookmark_tag spec.end.bookmark))) [
          | inl f ↦ cc (rw (range_in, e, f) at h)
          | inr (b, f) ↦
              let start = add_usize a spec.start.offset in
              let second = add_usize b spec.end.offset in
              let (end, ends, one) =
                (measured_iff spec ns text start second ranges).0 (rw (range_in, e, f) at h) in
              record {
                source_ns = ns;
                text = text;
                start_pos = a;
                end_pos = b;
                end = end;
                agrees = agrees;
                source = source;
                stored = stored;
                start_found = e;
                end_found = f;
                ends = ends;
                one = one;
              }
        ]
      ]

  resolve-IsResolution :
      resolve_range_spec spec s session_id ≡ ok ranges → IsResolution spec s session_id ranges
  unfolding resolve_range_spec
  resolve-IsResolution h = elim (Bool-cases (crosses spec)) [
    | inl cross ↦ cc (rw (resolve_range_spec, cross) at h)
    | inr within ↦ elim (Result-cases (source_namespace spec s session_id)) [
      | inr (e, bad) ↦ cc (rw (resolve_range_spec, within, bad) at h)
      | inl (ns, good) ↦ elim (Option-cases (full_desc_of (token_detail s ns))) [
        | inl missing ↦ cc (rw (resolve_range_spec, within, good, missing) at h)
        | inr (text, stored) ↦
            resolved ns text ((crosses_iff spec).0 within)
              ((source_namespace_iff spec s session_id ns).0 good) stored
              (rw (resolve_range_spec, within, good, stored) at h)
      ]
    ]
  ]

  IsResolution-resolve :
      IsResolution spec s session_id ranges → resolve_range_spec spec s session_id ≡ ok ranges
  unfolding resolve_range_spec range_in
  IsResolution-resolve r =
      let within = (crosses_iff spec).1 r.agrees in
      let good = (source_namespace_iff spec s session_id r.source_ns).1 r.source in
      rw (resolve_range_spec, within, good, r.stored, range_in, r.start_found, r.end_found)
        ((measured_iff spec r.source_ns r.text (add_usize r.start_pos spec.start.offset)
            (add_usize r.end_pos spec.end.offset) ranges).1
          (r.end, r.ends, r.one))

  pub resolve_range_spec_decides :
      (resolve_range_spec spec s session_id ≡ ok ranges) ↔ IsResolution spec s session_id ranges
  resolve_range_spec_decides = (resolve-IsResolution, IsResolution-resolve)
