-- ===== src/Base/Cuts.antt =====
-- Texts that are cut at byte positions.
use Prim.Native.Nat.{ℕ, ◌+◌, ◌-◌, ◌≤◌, ◌<◌, Ordering, compare as compare_ℕ}
use Prim.Native.Char.{Char, len_utf8}
use Prim.Native.String.append
use Prim.Native.String.len
use Prim.Native.String.slice
use Prim.Native.String.{String, [], ◌∷◌, ◌++◌, len, slice, fits}
use mathlib.Core.Path.{◌≡◌, refl, sym, ◌∙◌, ap, subst}
use mathlib.Core.Option.{some, none}
use mathlib.Core.Bool.{true, false, false≢true}
use mathlib.Core.Logic.{◌≢◌}
use native.Mathlib.Nat.{add_assoc, add-sub_cancel_left}
use native.Mathlib.Omega.{arith}
use text.Mathlib.Text.{get?, is_eq, is_char_boundary}
use text.Mathlib.TextPositions.{
  NotGt, not-gt-add, slice-append_left, get?-append_middle, len-append, boundary-len,
}

abbrev pub IsPrefix : String → String → Type 0
IsPrefix p s = (t : String) × (s ≡ p ++ t)

fits-IsPrefix :
    (o : Ordering) (c : Char) (r s : String) → IsPrefix r s → IsPrefix (fits o c r) (c ∷ s)
fits-IsPrefix Ordering.lt c r s (t, h) = (t, ap (λ u. c ∷ u) h ∙ sym (append.cons c r t))
fits-IsPrefix Ordering.eq c r s (t, h) = (t, ap (λ u. c ∷ u) h ∙ sym (append.cons c r t))
fits-IsPrefix Ordering.gt c r s h = (c ∷ s, sym (append.nil (c ∷ s)))

slice-IsPrefix : (s : String) (n : ℕ) → IsPrefix (slice s 0 n) s
slice-IsPrefix [] n = rw (slice.nil 0 n) ([], sym (append.nil []))
slice-IsPrefix (c ∷ s) n = rw (slice.cons-zero c s n) (
    fits-IsPrefix (compare_ℕ (len_utf8 c) n) c (slice s 0 (n - len_utf8 c)) s
      (slice-IsPrefix s (n - len_utf8 c)))

-- Of two texts that begin the same text, those of the same length are equal.
pub prefix_unique : (p q t u s : String) → s ≡ p ++ t → s ≡ q ++ u → len p ≡ len q → p ≡ q
prefix_unique p q t u s h k same =
    sym (slice-append_left p t)
    ∙ ap (λ v. slice v 0 (len p)) (sym h ∙ k)
    ∙ ap (slice (q ++ u) 0) same
    ∙ slice-append_left q u

fits_whole : (o : Ordering) → NotGt o → (c : Char) (r : String) → fits o c r ≡ c ∷ r
fits_whole Ordering.lt h c r = refl
fits_whole Ordering.eq h c r = refl
fits_whole Ordering.gt h c r = absurd h

slice-append_more : (p t : String) (n : ℕ) → slice (p ++ t) 0 (len p + n) ≡ p ++ slice t 0 n
slice-append_more [] t n =
    ap (λ u. slice u 0 (len [] + n)) (append.nil t)
    ∙ ap (λ k. slice t 0 (k + n)) len.nil
    ∙ ap (slice t 0) (omega arith)
    ∙ sym (append.nil (slice t 0 n))
slice-append_more (c ∷ p) t n =
    ap (λ u. slice u 0 (len (c ∷ p) + n)) (append.cons c p t)
    ∙ ap (slice (c ∷ (p ++ t)) 0)
        (ap (λ k. k + n) (len.cons c p) ∙ add_assoc (len_utf8 c) (len p) n)
    ∙ slice.cons-zero c (p ++ t) (len_utf8 c + (len p + n))
    ∙ fits_whole (compare_ℕ (len_utf8 c) (len_utf8 c + (len p + n)))
        (not-gt-add (len_utf8 c) (len p + n)) c
        (slice (p ++ t) 0 (len_utf8 c + (len p + n) - len_utf8 c))
    ∙ ap (λ k. c ∷ slice (p ++ t) 0 k) (add-sub_cancel_left (len_utf8 c) (len p + n))
    ∙ ap (λ u. c ∷ u) (slice-append_more p t n)
    ∙ sym (append.cons c p (slice t 0 n))

-- What is between two boundaries, with what is before and behind it.
abbrev pub IsCut : String → ℕ → ℕ → String → Type 0
IsCut s a b x =
    (p : String) × (q : String) × (s ≡ p ++ (x ++ q)) × (len p ≡ a) × (len p + len x ≡ b)

IsCut-between :
    (s : String) (a n : ℕ)
    → len (slice s 0 a) ≡ a
    → len (slice s 0 (a + n)) ≡ a + n
    → (x : String) × IsCut s a (a + n) x
IsCut-between s a n at_a at_b =
    let (t, behind_p) = slice-IsPrefix s a in
    let (q, behind_x) = slice-IsPrefix t n in
    let both : slice s 0 (a + n) ≡ slice s 0 a ++ slice t 0 n =
      ap (λ u. slice u 0 (a + n)) behind_p
      ∙ ap (λ k. slice (slice s 0 a ++ t) 0 (k + n)) (sym at_a)
      ∙ slice-append_more (slice s 0 a) t n in
    (
      slice t 0 n,
      (
        slice s 0 a,
        q,
        behind_p ∙ ap (λ u. slice s 0 a ++ u) behind_x,
        at_a,
        sym (len-append (slice s 0 a) (slice t 0 n)) ∙ sym (ap len both) ∙ at_b,
      ),
    )

boundary_len : (o : Ordering) (m n : ℕ) → compare_ℕ m n ≡ o → is_eq o ≡ true → m ≡ n
boundary_len o m n same h = ground arith

pub get?-boundaries :
    (s : String) (a b : ℕ) (x : String)
    → get? s a b ≡ some x
    → (is_char_boundary s a ≡ true) × (is_char_boundary s b ≡ true)
get?-boundaries s a b x got = ground arith

get?-IsCut_by :
    (s : String) (a n : ℕ) (x : String) → get? s a (a + n) ≡ some x → IsCut s a (a + n) x
get?-IsCut_by s a n x got =
    let (at_a, at_b) = get?-boundaries s a (a + n) x got in
    let found =
      IsCut-between s a n (boundary_len _ (len (slice s 0 a)) a refl at_a)
        (boundary_len _ (len (slice s 0 (a + n))) (a + n) refl at_b) in
    let (y, (p, q, whole, len_p, len_y)) = found in
    let back : get? s a (a + n) ≡ some y =
      ap (λ u. get? u a (a + n)) whole
      ∙ ap (λ k. get? (p ++ (y ++ q)) k (a + n)) (sym len_p)
      ∙ ap (get? (p ++ (y ++ q)) (len p)) (sym len_y)
      ∙ get?-append_middle p y q in
    let same : x ≡ y = cc in
    (p, q, whole ∙ ap (λ u. p ++ (u ++ q)) (sym same), len_p, ap (λ u. len p + len u) same ∙ len_y)

-- What `get` finds is a cut.
pub get?-IsCut : (s : String) (a b : ℕ) (x : String) → a ≤ b → get? s a b ≡ some x → IsCut s a b x
get?-IsCut s a b x le got =
    let back : a + (b - a) ≡ b = omega arith in
    subst (λ k. get? s a k ≡ some x → IsCut s a k x) back (get?-IsCut_by s a (b - a) x) got

-- What `get` does not find, from a boundary to a position of the text, ends inside a character.
pub get?-inside :
    (s : String) (a b : ℕ)
    → a ≤ b
    → b ≤ len s
    → is_char_boundary s a ≡ true
    → get? s a b ≡ none
    → (b < len s) × (is_char_boundary s b ≡ false)
get?-inside s a b le within at missed =
    let inside : is_char_boundary s b ≡ false = ground arith in
    let differs : b ≢ len s =
      λ e. false≢true (sym inside ∙ ap (is_char_boundary s) e ∙ boundary-len s) in
    (ground (arith, differs), inside)
