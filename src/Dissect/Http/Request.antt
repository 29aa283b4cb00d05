-- ===== src/Dissect/Http/Request.antt =====
-- dissect_http on a request: the text that it writes.
use pacsni.Prelude.{
  ℕ, zero, suc, ◌+◌, ◌-◌, ◌≤◌, ◌<◌, ◌≡◌, ◌≢◌, refl, sym, ap, arith, Bool-cases, inl, inr, ltb,
  le→ltb, ◌==◌, if◌then◌else◌, [], ◌∷◌, ◌++◌, append_assoc, Option, none, some, pos, length,
  length-append, length-drop, drop, drop-drop, drop-append, take-append, ret, Ensures-get,
}
use native.Mathlib.Decide.{dec_lt}
use pacsni.Memory.{Bytes, codes, splice, strlen, c_prefix}
use pacsni.Memory.Laws.{snprintf-eq-ret, printed, length-printed_pos}
use pacsni.Dissect.Http.{copy_line, host_mark, print_host, print_request, methods, dissect_http}
use pacsni.Dissect.Http.Search.{IsFirst, memmem-IsFirst}
use pacsni.Dissect.Http.Line.{
  first_line, Starts, match_methods-Starts, first_line-le, copy_line_lem,
}

-- The bytes before the first NUL, at most `n`.
unfoldable pub before_nul : ℕ → Bytes → Bytes
before_nul zero q = []
before_nul (suc n) [] = []
before_nul (suc n) (b ∷ q) = let rest = before_nul n q in if b == 0 then [] else b ∷ rest

abbrev pub NoNul : Bytes → Type 0
NoNul [] = Unit {0}
NoNul (b ∷ q) = (b ≢ 0) × NoNul q

IsFirst-unique :
    (p : Bytes) (l : ℕ) (needle : Bytes) (a b : Option ℕ)
    → IsFirst p l needle a
    → IsFirst p l needle b
    → a ≡ b
IsFirst-unique p l needle none none f g = refl
IsFirst-unique p l needle none (some j) f (at, before) = absurd (f j at)
IsFirst-unique p l needle (some i) none (at, before) g = absurd (g i at)
IsFirst-unique p l needle (some i) (some j) (at, before) (at', before') = elim (dec_lt i j) [
  | yes less ↦ absurd (before' i less at)
  | no not_less ↦ elim (dec_lt j i) [
    | yes more ↦ absurd (before j more at')
    | no not_more ↦ ap some (omega arith)
  ]
]

before_nul-eq : (n : ℕ) (q : Bytes) → n ≤ length q → c_prefix n q ≡ ret (before_nul n q)
unfolding c_prefix before_nul
before_nul-eq zero q h = refl
before_nul-eq (suc n) [] h = absurd (omega arith)
before_nul-eq (suc n) (b ∷ q) h = elim (Bool-cases (b == 0)) [
  | inl end ↦ rw end refl
  | inr more ↦ rw (more, before_nul-eq n q (omega arith)) refl
]

strlen-NoNul : (w d : Bytes) → NoNul w → strlen (w ++ (0 ∷ d)) ≡ ret (length w)
unfolding strlen
strlen-NoNul [] d h = refl
strlen-NoNul (b ∷ w) d (nonzero, h) = elim (Bool-cases (b == 0)) [
  | inl end ↦ ground arith
  | inr more ↦ rw (more, strlen-NoNul w d h) (ap ret (omega arith))
]

-- What stands behind the request line: the Host text, cut to fit, and NUL.
abbrev pub host_text : Bytes → Option ℕ → ℕ → Bytes
host_text p none room = 0 ∷ []
host_text p (some at) room =
    printed room (codes " [Host: " ++ (before_nul 32 (drop (at + 8) p) ++ codes "]"))

-- A text that is written over the NUL behind `w`.
over_nul :
    (w d t : Bytes)
    → 0 < length t
    → splice (w ++ (0 ∷ drop (length w + 1) d)) (length w) t
      ≡ (w ++ t) ++ drop (length w + length t) d
unfolding splice
over_nul w d [] h = absurd (omega arith)
over_nul w d (x ∷ t) h =
    let rest = drop (length w + 1) d in
    let place : length w + 1 + length t ≡ length w + suc (length t) = omega arith in
    rw
      (
        take-append w (0 ∷ rest),
        drop-append w (0 ∷ rest) (suc (length t)),
        drop-drop (length w + 1) (length t) d,
        place,
      )
      (sym (append_assoc w (x ∷ t) (drop (length w + suc (length t)) d)))

-- The record's text behind a request.
abbrev pub request_text : Bytes → ℕ → ℕ → Option ℕ → Bytes
request_text p l m place =
    let line = first_line (if ltb l (m - 1) then l else m - 1) p in
    line ++ host_text p place (m - length line)

module _ (p : Bytes) (l : ℕ) (o : Bytes) (m : ℕ) (behind : l + 32 ≤ length p) (room : 0 < m)
    (writable : m ≤ length o) where
  limit : ℕ
  limit = if ltb l (m - 1) then l else m - 1

  line : Bytes
  line = first_line limit p

  cut : length line ≤ m - 1
  unfolding limit line
  cut = ground (arith, first_line-le limit p)

  print_host_lem :
      (place : Option ℕ)
      → IsFirst p l host_mark place
      → NoNul line
      → print_host p place (line ++ (0 ∷ drop (length line + 1) o)) m
        ≡ ret (
            (line ++ host_text p place (m - length line))
            ++ drop (length line + length (host_text p place (m - length line))) o)
  unfolding print_host
  print_host_lem none first text = ap ret (sym (append_assoc line (0 ∷ []) _))
  print_host_lem (some at) first text =
      let host = codes " [Host: " ++ (before_nul 32 (drop (at + 8) p) ++ codes "]") in
      let r = line ++ (0 ∷ drop (length line + 1) o) in
      let size : length r ≡ length o = omega (
        arith,
        length-append line (0 ∷ drop (length line + 1) o),
        length-drop (length line + 1) o,
        cut,
      ) in
      rw
        (
          before_nul-eq 32 (drop (at + 8) p) (omega (arith, length-drop (at + 8) p, first.0.0)),
          strlen-NoNul line (drop (length line + 1) o) text,
          snprintf-eq-ret r (length line) (m - length line) host (omega (arith, cut))
              (omega (arith, cut, size)),
        )
        (ap ret (
          over_nul line o (printed (m - length line) host)
            (length-printed_pos (m - length line) host)))

  copied : copy_line limit p 0 o ≡ ret (line ++ (0 ∷ drop (length line + 1) o))
  unfolding limit line
  copied = copy_line_lem limit p [] p [] o refl refl (ground arith) (ground arith)

  print_request_lem :
      (place : Option ℕ)
      → IsFirst p l host_mark place
      → NoNul line
      → print_request p l o m
        ≡ ret (
            (line ++ host_text p place (m - length line))
            ++ drop (length line + length (host_text p place (m - length line))) o)
  unfolding print_request limit
  print_request_lem place first text =
      let (found, e, f) =
        Ensures-get (IsFirst p l host_mark) _ (memmem-IsFirst p l host_mark (omega arith)) in
      let same = IsFirst-unique p l host_mark found place f first in
      rw (copied, e, same) (print_host_lem place first text)

-- For a payload of `l` bytes, ten or more, with 32 bytes more behind it, that starts with one of the
-- methods and is longer than it, and a buffer of at least `m` bytes, one or more: where the bytes before the first line end
-- (at most `l` and `m - 1`) have no NUL, dissect_http returns a buffer that begins with them and,
-- where the first Host mark is at a place of the payload, with " [Host: ", the next 32 bytes before a NUL and "]",
-- cut to `m - 1` bytes in all, then NUL; the rest of the buffer is as it was.
pub dissect_http-shown :
    (p : Bytes) (l : ℕ) (o : Bytes) (m : ℕ) (place : Option ℕ)
    → 10 ≤ l
    → l + 32 ≤ length p
    → 0 < m
    → m ≤ length o
    → Starts methods p l
    → NoNul (first_line (if ltb l (m - 1) then l else m - 1) p)
    → IsFirst p l host_mark place
    → dissect_http p (pos l) o m
      ≡ ret (request_text p l m place ++ drop (length (request_text p l m place)) o)
unfolding dissect_http line limit
dissect_http-shown p l o m place long behind room writable method text first =
    let k =
      length-append (first_line (if ltb l (m - 1) then l else m - 1) p)
        (host_text p place (m - length (first_line (if ltb l (m - 1) then l else m - 1) p))) in
    rw (le→ltb l 10 long, match_methods-Starts methods p l (omega arith) method, k)
      (print_request_lem p l o m behind room writable place first text)
