-- ===== src/Response/Repair/Total.antt =====
-- The repair passes end: the number of | is enough fuel.
use Prim.Native.String.{[], ◌∷◌}
use agent_squire.Base.{
  ℕ, zero, suc, ◌+◌, ◌≤◌, ◌<◌, ◌≡◌, refl, ap, inl, inr, String, Char, code, true, Option, none,
  some, is_some, List, All, if◌then◌else◌, nat_eq, ltb, leb, Bool-cases, Option-cases, arith,
}
use agent_squire.Slug.Chars.{trim, trim_by, trim_start, trim_end, is_whitespace}
use agent_squire.Protocol.Ranges.Trim.{keep}
use agent_squire.Response.Lines.{count_char, lines, push_first, starts_at, write_lines}
use agent_squire.Response.Repair.{
  after_pipe, cut_lines, fix_line, fix_lines, fix_concatenated_rel_lines,
}

abbrev pub pipes : String → ℕ
pipes s = count_char b'|' s

pipes_tail : (c : Char) (s : String) → pipes s ≤ pipes (c ∷ s)
unfolding count_char
pipes_tail c s = ground arith

pipes_cons : (c : Char) (r s : String) → pipes r ≤ pipes s → pipes (c ∷ r) ≤ pipes (c ∷ s)
unfolding count_char
pipes_cons c r s h = ground arith

pipes-trim_start : (s : String) → pipes (trim_start is_whitespace s) ≤ pipes s
unfolding trim_start
pipes-trim_start [] = omega arith
pipes-trim_start (c ∷ s) = elim (Bool-cases (is_whitespace (code c))) [
  | inl white ↦ rw white (omega (arith, pipes-trim_start s, pipes_tail c s))
  | inr black ↦ rw black (omega arith)
]

pipes-keep : (c : Char) (r : String) → pipes (keep c r) ≤ pipes (c ∷ r)
unfolding keep count_char
pipes-keep c [] = elim (Bool-cases (is_whitespace (code c))) [
  | inl white ↦ rw white (omega arith)
  | inr black ↦ rw black (omega arith)
]
pipes-keep c (d ∷ r) = omega arith

pipes-trim_end : (s : String) → pipes (trim_end is_whitespace s) ≤ pipes s
unfolding trim_end keep
pipes-trim_end [] = omega arith
pipes-trim_end (c ∷ s) =
    let kept = pipes-keep c (trim_end is_whitespace s) in
    let more = pipes_cons c (trim_end is_whitespace s) s (pipes-trim_end s) in
    omega (arith, kept, more)

pipes-trim : (s : String) → pipes (trim s) ≤ pipes s
unfolding trim trim_by
pipes-trim s = omega (arith, pipes-trim_end (trim_start is_whitespace s), pipes-trim_start s)

pipes-after_pipe :
    (n : ℕ) (s left right : String)
    → after_pipe n s ≡ some (left, right)
    → pipes right + n ≡ pipes s
unfolding after_pipe count_char
pipes-after_pipe zero s left right h =
    let same : some ([], s) ≡ some (left, right) = h in
    let at_right : s ≡ right = cc same in omega (arith, ap (count_char b'|') at_right)
pipes-after_pipe (suc n) [] left right h = cc h
pipes-after_pipe (suc n) (c ∷ s) left right h =
    elim (Option-cases (after_pipe (if nat_eq (code c) b'|' then n else suc n) s)) [
      | inl e ↦ cc (rw (after_pipe, e) at h)
      | inr ((l, r), e) ↦
          let same : some (c ∷ l, r) ≡ some (left, right) = rw (after_pipe, e) at h in
          let same_right : r ≡ right = cc same in
          let at_right : pipes r ≡ pipes right = ap pipes same_right in
          elim (Bool-cases (nat_eq (code c) b'|')) [
            | inl pipe ↦
                let below = pipes-after_pipe n s l r (rw pipe at e) in
                ground (arith, below, at_right)
            | inr other ↦
                let below = pipes-after_pipe (suc n) s l r (rw other at e) in
                ground (arith, below, at_right)
          ]
    ]

some_of : {A : Type 0} (o : Option A) → is_some o ≡ true → (a : A) × (o ≡ some a)
some_of none h = cc h
some_of (some a) h = (a, refl)

cut_lines_total :
    (fuel : ℕ) (remaining : String)
    → pipes remaining < fuel
    → is_some (cut_lines fuel remaining) ≡ true
unfolding cut_lines
cut_lines_total zero remaining h = absurd (omega arith)
cut_lines_total (suc fuel) remaining h = elim (Bool-cases (ltb 2 (pipes remaining))) [
  | inr few ↦ rw (cut_lines, few) refl
  | inl many ↦ elim (Option-cases (after_pipe 2 remaining)) [
    | inl e ↦ rw (cut_lines, many, e) refl
    | inr ((left, right), e) ↦
        let next = trim (trim_start is_whitespace right) in
        let fewer = pipes-trim (trim_start is_whitespace right) in
        let room : pipes next < fuel =
          omega (arith, pipes-after_pipe 2 remaining left right e, fewer, pipes-trim_start right) in
        let ((cut, rest), f) = some_of (cut_lines fuel next) (cut_lines_total fuel next room) in
        rw (cut_lines, many, e, f) refl
  ]
]

fix_line_total :
    (fuel : ℕ) (line : String) → pipes line < fuel → is_some (fix_line fuel line) ≡ true
unfolding fix_line
fix_line_total fuel line h = elim (Bool-cases (leb (pipes (trim line)) 2)) [
  | inl few ↦ rw (fix_line, few) refl
  | inr many ↦
      let room : pipes (trim line) < fuel = omega (arith, pipes-trim line) in
      let ((cut, rest), f) =
        some_of (cut_lines fuel (trim line)) (cut_lines_total fuel (trim line) room) in
      rw (fix_line, many, f) refl
]

fix_lines_total :
    (fuel n : ℕ) (ls : List String)
    → n < fuel
    → All (λ l. pipes l ≤ n) ls
    → is_some (fix_lines fuel ls) ≡ true
unfolding fix_lines
fix_lines_total fuel n List.[] room all = refl
fix_lines_total fuel n (List.◌∷◌ l ls) room (h, all) =
    let (fixed, e) = some_of (fix_line fuel l) (fix_line_total fuel l (omega arith)) in
    let (out, f) = some_of (fix_lines fuel ls) (fix_lines_total fuel n ls room all) in
    rw (fix_lines, e, f) refl

-- No line has more | than the text.
weaken :
    (m n : ℕ) (ls : List String) → m ≤ n → All (λ l. pipes l ≤ m) ls → All (λ l. pipes l ≤ n) ls
weaken m n List.[] h all = tt
weaken m n (List.◌∷◌ l ls) h (p, all) = (omega arith, weaken m n ls h all)

push_below :
    (c : Char) (s : String) (ls : List String)
    → All (λ l. pipes l ≤ pipes s) ls
    → All (λ l. pipes l ≤ pipes (c ∷ s)) (push_first c ls)
unfolding count_char
push_below c s List.[] all = (pipes_cons c [] s (omega arith), tt)
push_below c s (List.◌∷◌ l ls) (h, all) =
    (pipes_cons c l s h, weaken (pipes s) (pipes (c ∷ s)) ls (pipes_tail c s) all)

lines_below : (s : String) → All (λ l. pipes l ≤ pipes s) (lines s)
unfolding lines count_char
lines_below [] = tt
lines_below (c ∷ s) =
    let rest = lines_below s in
    let more = weaken (pipes s) (pipes (c ∷ s)) (lines s) (pipes_tail c s) rest in
    let pushed = push_below c s (lines s) rest in
    elim (Bool-cases (nat_eq (code c) 0xa)) [
      | inl feed ↦ rw (lines, feed) (omega arith, more)
      | inr other ↦ elim (Bool-cases (nat_eq (code c) 0xd)) [
        | inr plain ↦ rw (lines, other, plain) pushed
        | inl ret ↦ elim (Bool-cases (starts_at 0xa s)) [
          | inl before ↦ rw (lines, other, ret, before) more
          | inr alone ↦ rw (lines, other, ret, alone) pushed
        ]
      ]
    ]

pub fix_concatenated_rel_lines_total :
    (fuel : ℕ) (s : String)
    → pipes s < fuel
    → (fixed : String) × (fix_concatenated_rel_lines fuel s ≡ some fixed)
unfolding fix_concatenated_rel_lines
fix_concatenated_rel_lines_total fuel s h =
    let (fixed, e) =
      some_of (fix_lines fuel (lines s))
        (fix_lines_total fuel (pipes s) (lines s) h (lines_below s)) in
    (trim_end is_whitespace (write_lines fixed), rw (fix_concatenated_rel_lines, e) refl)
