-- ===== src/Llm/Buffer.antt =====
-- internal/llm/cli.go, limitWriter, over a buffer that takes every byte it is given.
use agent_frei_igi.Prelude.{
  ℕ, zero, suc, ◌+◌, ◌-◌, ◌≤◌, ◌≡◌, refl, ap, ◌∙◌, Text, List, [], ◌∷◌, ◌++◌, length, take, leb,
  if◌then◌else◌, arith, length-append, length-take, sym, Bool-cases, inl, inr, leb→le, ◌<◌,
}
use Prim.Native.Nat.{min}
use native.Mathlib.Nat.{sub-zero, suc-sub-suc}
use mathlib.Core.List.{append-nil, append_assoc}

pub record LimitWriter : Type 0 where
  pub buffer : Text
  pub written : ℕ
  pub max_bytes : ℕ

-- Write: the new writer and the count that is returned
unfoldable pub write : Text → LimitWriter → ℕ × LimitWriter
write p l =
    if leb l.max_bytes l.written
    then (length p, l)
    else let to_write = min (length p) (l.max_bytes - l.written) in
      (length p, record l { buffer = l.buffer ++ take to_write p; written = l.written + to_write })

unfoldable pub write_all : List Text → LimitWriter → LimitWriter
write_all [] l = l
write_all (p ∷ ps) l = write_all ps (write p l).1

abbrev pub new_writer : ℕ → LimitWriter
new_writer n = record { buffer = []; written = 0; max_bytes = n }

abbrev pub concat : List Text → Text
concat [] = []
concat (p ∷ ps) = p ++ concat ps

take-all : (s : Text) (n : ℕ) → length s ≤ n → take n s ≡ s
take-all [] zero h = refl
take-all [] (suc n) h = refl
take-all (c ∷ s) zero h = absurd (omega arith)
take-all (c ∷ s) (suc n) h = ap (λ (t : Text). c ∷ t) (take-all s n (omega arith))

-- A beginning that fits is taken whole.
take-append_le : (s t : Text) (n : ℕ) → length s ≤ n → take n (s ++ t) ≡ s ++ take (n - length s) t
take-append_le [] t n h = rw sub-zero
take-append_le (c ∷ s) t zero h = absurd (omega arith)
take-append_le (c ∷ s) t (suc n) h =
    rw suc-sub-suc (ap (λ (r : Text). c ∷ r) (take-append_le s t n (omega arith)))

-- A beginning that fills the room hides what follows.
take-append_ge : (s t : Text) (n : ℕ) → n ≤ length s → take n (s ++ t) ≡ take n s
take-append_ge s t zero h = refl
take-append_ge [] t (suc n) h = absurd (omega arith)
take-append_ge (c ∷ s) t (suc n) h = ap (λ (r : Text). c ∷ r) (take-append_ge s t n (omega arith))

take-min : (s : Text) (n : ℕ) → take (min (length s) n) s ≡ take n s
take-min s n = elim (Bool-cases (leb (length s) n)) [
  | inl short ↦
      let le : length s ≤ n = leb→le (length s) n short in
      let e : min (length s) n ≡ length s = omega arith in
      rw e (take-all s (length s) (omega arith) ∙ sym (take-all s n le))
  | inr long ↦ let e : min (length s) n ≡ n = ground arith in rw e
]

-- What a writer has after it has been given `seen`.
record Holds (max : ℕ) (seen : Text) (l : LimitWriter) : Type 0 where
  same_max : l.max_bytes ≡ max
  counted : l.written ≡ length l.buffer
  contents : l.buffer ≡ take max seen

module _ (max : ℕ) (seen p : Text) (l : LimitWriter) (h : Holds max seen l) where
  full-Holds : max ≤ l.written → Holds max (seen ++ p) l
  full-Holds le = record {
    same_max = h.same_max;
    counted = h.counted;
    contents =
        h.contents
        ∙ sym (
            take-append_ge seen p max (
              omega
                (arith, h.counted, ap (λ (t : Text). length t) h.contents, length-take max seen)));
  }

  room-Holds :
      l.written < max
      → Holds max (seen ++ p) (record l {
        buffer = l.buffer ++ take (min (length p) (l.max_bytes - l.written)) p;
        written = l.written + min (length p) (l.max_bytes - l.written);
      })
  room-Holds lt =
      let fits : length seen ≤ max =
        omega (arith, h.counted, ap (λ (t : Text). length t) h.contents, length-take max seen) in
      let all : l.buffer ≡ seen = h.contents ∙ take-all seen max fits in
      let n : l.written ≡ length seen = h.counted ∙ ap (λ (t : Text). length t) all in
      record {
        same_max = h.same_max;
        counted = omega (
          arith,
          h.counted,
          length-append l.buffer (take (min (length p) (l.max_bytes - l.written)) p),
          length-take (min (length p) (l.max_bytes - l.written)) p,
        );
        contents =
            rw (all, n, h.same_max)
              (ap (λ (t : Text). seen ++ t) (take-min p (max - length seen))
                ∙ sym (take-append_le seen p max fits));
      }

write-Holds :
    (max : ℕ) (seen p : Text) (l : LimitWriter)
    → Holds max seen l
    → Holds max (seen ++ p) (write p l).1
unfolding write
write-Holds max seen p l h = elim (Bool-cases (leb l.max_bytes l.written)) [
  | inl full ↦
      let le = leb→le l.max_bytes l.written full in
      rw full (full-Holds max seen p l h (omega (arith, h.same_max)))
  | inr room ↦
      let lt : l.written < max = ground (arith, h.same_max) in
      rw room (room-Holds max seen p l h lt)
]

write_all-Holds :
    (max : ℕ) (ps : List Text) (seen : Text) (l : LimitWriter)
    → Holds max seen l
    → Holds max (seen ++ concat ps) (write_all ps l)
unfolding write_all
write_all-Holds max [] seen l h = rw append-nil h
write_all-Holds max (p ∷ ps) seen l h =
    rw (← append_assoc)
      (write_all-Holds max ps (seen ++ p) (write p l).1 (write-Holds max seen p l h))

take-nil : (n : ℕ) → [] ≡ take {A = ℕ} n []
take-nil zero = refl
take-nil (suc n) = refl

-- However a command's output is cut into writes, what the buffer keeps of it is its first `max` bytes.
pub write_all_lem :
    (max : ℕ) (ps : List Text) → (write_all ps (new_writer max)).buffer ≡ take max (concat ps)
write_all_lem max ps =
    (write_all-Holds max ps [] (new_writer max)
      (record { same_max = refl; counted = refl; contents = take-nil max })).contents
