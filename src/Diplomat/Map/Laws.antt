-- ===== src/Diplomat/Map/Laws.antt =====
-- MapResultToRequest (internal/diplomat/map.go): inline comments and notes.
use Prim.Native.Nat.{min}
use agent_frei_igi.Prelude.{
  ℕ, zero, suc, ◌+◌, ◌≤◌, ◌<◌, ◌≡◌, refl, ap, ◌∙◌, inl, inr, Bool, true, false, Text, bytes, List,
  [], ◌∷◌, length, take, drop, map, All, arith, if◌then◌else◌, lt→ltb, le→not_ltb, ◌==◌, Bool-cases,
  length-take, length-map,
}
use agent_frei_igi.GithubApp.{ReviewComment}
use agent_frei_igi.Critic.{Finding, ReviewResult}
use agent_frei_igi.Diplomat.Map.{
  comment_limit, line_of, comment, file_note, overflow_note, Sorted, place, next_count,
  sort_findings, map_result_to_request,
}

-- The findings on a line, and the others.
abbrev pub on_line : List Finding → List Finding
on_line [] = []
on_line (f ∷ fs) = if line_of f == 0 then on_line fs else f ∷ on_line fs

abbrev pub off_line : List Finding → List Finding
off_line [] = []
off_line (f ∷ fs) = if line_of f == 0 then f ∷ off_line fs else off_line fs

abbrev pub as_comment : Finding → ReviewComment
as_comment f = comment (line_of f) f

abbrev pub as_overflow : Finding → Text
as_overflow f = overflow_note (line_of f) f

-- What the loop makes of a list when `k` comments are left.
abbrev specified : ℕ → List Finding → Sorted
specified k fs = record {
  inline = take k (map as_comment (on_line fs));
  file_level = map file_note (off_line fs);
  overflow = drop k (map as_overflow (on_line fs));
}

place-off :
    (count k : ℕ) (f : Finding) (fs : List Finding)
    → (line_of f == 0) ≡ true
    → place (line_of f) count f (specified k fs) ≡ specified k (f ∷ fs)
unfolding place
place-off count k f fs e = rw e

place-inline :
    (count k : ℕ) (f : Finding) (fs : List Finding)
    → (line_of f == 0) ≡ false
    → count < comment_limit
    → place (line_of f) count f (specified k fs) ≡ specified (suc k) (f ∷ fs)
unfolding place
place-inline count k f fs e lt = rw (e, lt→ltb count comment_limit lt)

place-overflow :
    (count : ℕ) (f : Finding) (fs : List Finding)
    → (line_of f == 0) ≡ false
    → comment_limit ≤ count
    → place (line_of f) count f (specified 0 fs) ≡ specified 0 (f ∷ fs)
unfolding place
place-overflow count f fs e le = rw (e, le→not_ltb count comment_limit le)

next_count-off : (line count : ℕ) → (line == 0) ≡ true → next_count line count ≡ count
unfolding next_count
next_count-off line count e = rw e

next_count-inline :
    (line count : ℕ)
    → (line == 0) ≡ false
    → count < comment_limit
    → next_count line count ≡ suc count
unfolding next_count
next_count-inline line count e lt = rw (e, lt→ltb count comment_limit lt)

next_count-full :
    (line count : ℕ) → (line == 0) ≡ false → comment_limit ≤ count → next_count line count ≡ count
unfolding next_count
next_count-full line count e le = rw (e, le→not_ltb count comment_limit le)

module _ (f : Finding) (fs : List Finding) (count k l : ℕ) where
  -- One round, from what is specified of the rest of the list.
  sort_findings-cons :
      (n : ℕ)
      → next_count (line_of f) count ≡ n
      → sort_findings n fs ≡ specified k fs
      → place (line_of f) count f (specified k fs) ≡ specified l (f ∷ fs)
      → sort_findings count (f ∷ fs) ≡ specified l (f ∷ fs)
  unfolding sort_findings
  sort_findings-cons n next rest here = rw next (rw rest here)

sort_findings-specified :
    (fs : List Finding) (k count : ℕ)
    → count + k ≡ comment_limit
    → sort_findings count fs ≡ specified k fs
sort_findings-specified [] zero count h = unfold sort_findings in refl
sort_findings-specified [] (suc k) count h = unfold sort_findings in refl
sort_findings-specified (f ∷ fs) zero count h =
    let same = sort_findings-specified fs zero count h in
    let full : comment_limit ≤ count = omega arith in
    elim (Bool-cases (line_of f == 0)) [
      | inl off ↦
          sort_findings-cons f fs count zero zero count (next_count-off (line_of f) count off) same
            (place-off count zero f fs off)
      | inr on ↦
          sort_findings-cons f fs count zero zero count (next_count-full (line_of f) count on full)
            same (place-overflow count f fs on full)
    ]
sort_findings-specified (f ∷ fs) (suc k) count h =
    let room : count < comment_limit = omega arith in
    let skip = sort_findings-specified fs (suc k) count h in
    let used = sort_findings-specified fs k (suc count) (omega arith) in
    elim (Bool-cases (line_of f == 0)) [
      | inl off ↦
          sort_findings-cons f fs count (suc k) (suc k) count (next_count-off (line_of f) count off)
            skip (place-off count (suc k) f fs off)
      | inr on ↦
          sort_findings-cons f fs count k (suc k) (suc count)
            (next_count-inline (line_of f) count on room) used (place-inline count k f fs on room)
    ]

-- The inline comments are those of the first thirty findings on a line, in the order of the result; a
-- finding without a line becomes a file-level note, a finding on a line past the thirtieth an
-- additional note, both in order.
pub sort_findings_lem :
    (fs : List Finding)
    → let s = sort_findings 0 fs in
      (s.inline ≡ take 30 (map as_comment (on_line fs)))
      × (s.file_level ≡ map file_note (off_line fs))
      × (s.overflow ≡ drop 30 (map as_overflow (on_line fs)))
sort_findings_lem fs =
    let e = sort_findings-specified fs 30 0 refl in
    (
      ap (λ (s : Sorted). s.inline) e,
      ap (λ (s : Sorted). s.file_level) e,
      ap (λ (s : Sorted). s.overflow) e,
    )

on_line-positive : (fs : List Finding) → All (λ f. 0 < line_of f) (on_line fs)
on_line-positive [] = tt
on_line-positive (f ∷ fs) = elim (Bool-cases (line_of f == 0)) [
  | inl off ↦ rw off (on_line-positive fs)
  | inr on ↦ rw on (ground arith, on_line-positive fs)
]

-- A comment that GitHub can place: a line from 1 up, on the right side.
abbrev pub IsPlaced : ReviewComment → Type 0
IsPlaced c = (0 < c.line) × (c.side ≡ bytes "RIGHT")

IsPlaced-take :
    (k : ℕ) (fs : List Finding)
    → All (λ f. 0 < line_of f) fs
    → All IsPlaced (take k (map as_comment fs))
unfolding comment
IsPlaced-take zero fs h = tt
IsPlaced-take (suc k) [] h = tt
IsPlaced-take (suc k) (f ∷ fs) h = ((h.0, refl), IsPlaced-take k fs h.1)

-- A request is for the reviewed head, is a COMMENT, and has at most thirty inline comments, each on a
-- line from 1 up of the right side: as many as the findings on a line, up to thirty.
pub map_result-IsPlaced :
    (r : ReviewResult) (head_sha : Text) (signed : Bool) (short_job_id : Text)
    → let req = map_result_to_request r head_sha signed short_job_id in
      (req.commit_id ≡ head_sha)
      × (req.event ≡ bytes "COMMENT")
      × (length req.comments ≡ min 30 (length (on_line r.findings)))
      × All IsPlaced req.comments
unfolding map_result_to_request
map_result-IsPlaced r head_sha signed short_job_id =
    let e = (sort_findings_lem r.findings).0 in
    (
      refl,
      refl,
      rw e (
          length-take 30 (map as_comment (on_line r.findings))
          ∙ ap (λ n. min 30 n) (length-map (on_line r.findings) as_comment)),
      rw e (IsPlaced-take 30 (on_line r.findings) (on_line-positive r.findings)),
    )
