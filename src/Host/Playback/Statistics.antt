-- ===== src/Host/Playback/Statistics.antt =====
-- The statistics thread of packages/lalah-host/src/playback.rs: once a second it prints by how much the
-- counters of the callback have grown.

use lalah.Base.{
  ℕ, ◌+◌, ◌-◌, ◌≤◌, ◌≡◌, refl, sym, ap, ap₂, false, ◌∙◌, subst, inl, inr, Bool-cases, Bool, not,
  ◌||◌, ◌==◌, ltb, Option, none, some, List, [], ◌∷◌, if◌then◌else◌, ◌>>=◌, arith,
}

-- What the thread has seen last, and what it reads: underflows and overflows.
pub record Counts : Type 0 where
  pub u : ℕ
  pub o : ℕ

-- `-` on `u64`, whose overflow is a panic in a debug build.
abbrev pub checked_sub : ℕ → ℕ → Option ℕ
checked_sub a b = if ltb a b then none else some (a - b)

abbrev pub growth : (last curr : Counts) → Option Counts
growth last curr = checked_sub curr.u last.u >>= λ diff_u.
    checked_sub curr.o last.o >>= λ diff_o. some (record { u = diff_u; o = diff_o })

abbrev pub has_changed : (last curr : Counts) → Bool
has_changed last curr = not (curr.u == last.u) || not (curr.o == last.o)

-- What is printed while the thread reads the counters `reads`, one after the other.
unfoldable pub report : (last : Counts) (reads : List Counts) → Option (List Counts)
report last [] = some []
report last (curr ∷ reads) =
    if has_changed last curr
    then (growth last curr >>= λ diff. report curr reads >>= λ printed. some (diff ∷ printed))
    else report last reads

-- Counters that never go back.
abbrev pub IsGrowing : Counts → List Counts → Type 0
IsGrowing last [] = Unit {0}
IsGrowing last (curr ∷ reads) = (last.u ≤ curr.u) × (last.o ≤ curr.o) × IsGrowing curr reads

abbrev pub last_of : Counts → List Counts → Counts
last_of last [] = last
last_of last (curr ∷ reads) = last_of curr reads

-- The sum of what was printed, on top of `c`.
abbrev pub add_all : Counts → List Counts → Counts
add_all c [] = c
add_all c (d ∷ ds) = add_all (record { u = c.u + d.u; o = c.o + d.o }) ds

checked_sub_lem : (a b : ℕ) → b ≤ a → checked_sub a b ≡ some (a - b)
checked_sub_lem a b h = ground arith

counts_ext : {a b : Counts} → a.u ≡ b.u → a.o ≡ b.o → a ≡ b
counts_ext p q = ap₂ (λ (m n : ℕ). record { u = m; o = n }) p q

has_changed_lem :
    (last curr : Counts) → has_changed last curr ≡ false → (curr.u ≡ last.u) × (curr.o ≡ last.o)
has_changed_lem last curr e = (ground arith, ground arith)

-- While the two counters never go back, the statistics thread's subtractions never overflow, and
-- what it prints, added to what it had seen at the start, is what it has read last.
pub report-add_all :
    (last : Counts) (reads : List Counts)
    → IsGrowing last reads
    → (printed : List Counts) × (report last reads ≡ some printed)
      × (add_all last printed ≡ last_of last reads)
unfolding report
report-add_all last [] g = ([], refl, refl)
report-add_all last (curr ∷ reads) (gu, go, g) = elim (Bool-cases (has_changed last curr)) [
  | inl e ↦
      let (printed, r, same) = report-add_all curr reads g in
      let sum : record { u = last.u + (curr.u - last.u); o = last.o + (curr.o - last.o) } ≡ curr =
        counts_ext (omega (arith, gu)) (omega (arith, go)) in
      (
        record { u = curr.u - last.u; o = curr.o - last.o } ∷ printed,
        rw (e, checked_sub_lem curr.u last.u gu, checked_sub_lem curr.o last.o go, r) refl,
        ap (λ c. add_all c printed) sum ∙ same,
      )
  | inr e ↦
      let (eu, eo) = has_changed_lem last curr e in
      let same_counts : curr ≡ last = counts_ext eu eo in
      let (printed, r, same) =
        report-add_all last reads (subst (λ c. IsGrowing c reads) same_counts g) in
      (printed, rw (e, r) refl, same ∙ ap (λ c. last_of c reads) (sym same_counts))
]
