-- ===== src/Pipeline/Advance/Stalled.antt =====
-- The two walks over the trailing rounds, `repeatedRoundStreak` and `stalledFindings`, agree.
use mathlib.Core.List.Memᴰ
use specmate.Prelude.{
  ℕ, suc, ◌+◌, ◌≤◌, Bool, not, List, [], ◌∷◌, ◌≡◌, refl, String, arith, length, is_empty,
  if◌then◌else◌, Memᴰ, Memᴰ-cons, map,
}
use specmate.Findings.{ReviewFinding}
use specmate.Pipeline.Advance.{
  RecordedRound, RoundToRecord, StalledFinding, carries, reversed, streak_from,
  repeated_round_streak, rounds_from, stalled_from, stalled_findings, is_stalled,
}

streak_from-length :
    (id : String) (n : ℕ) (rs : List RecordedRound)
    → streak_from id n rs ≡ n + length (rounds_from id rs)
unfolding streak_from rounds_from
streak_from-length id n [] = omega arith
streak_from-length id n (r ∷ rs) = ground (arith, streak_from-length id (n + 1) rs)

-- The evidence of a finding has one round number for each round of its streak.
pub streak-length :
    (id : String) (counted : List RecordedRound)
    → repeated_round_streak id counted ≡ suc (length (rounds_from id (reversed counted)))
unfolding repeated_round_streak
streak-length id counted = omega (arith, streak_from-length id 1 (reversed counted))

-- `advance` finds the loop stalled exactly where `stalledFindings` has evidence to show.
pub is_stalled-stalled_findings :
    (rec : RoundToRecord) (counted : List RecordedRound) (threshold : ℕ)
    → is_stalled rec.findings counted threshold
      ≡ not (is_empty (stalled_findings rec counted threshold))
unfolding is_stalled stalled_findings
is_stalled-stalled_findings rec counted threshold = go rec.findings
  where
    go :
        (fs : List ReviewFinding)
        → is_stalled fs counted threshold
          ≡ not (is_empty (stalled_from rec.round counted threshold fs))
    go [] = refl
    go (f ∷ fs) = ground (arith, streak-length f.id counted, go fs)

-- The longest run at the head of a list that passes a test.
abbrev pub take_while : {A : Type 0} → (A → Bool) → List A → List A
take_while p [] = []
take_while p (x ∷ xs) = let rest = take_while p xs in if p x then x ∷ rest else []

abbrev pub trailing_rounds : String → List RecordedRound → List ℕ
trailing_rounds id counted =
    map (λ (r : RecordedRound). r.round) (take_while (carries id) (reversed counted))

rounds_from-map :
    (id : String) (rs : List RecordedRound)
    → rounds_from id rs ≡ map (λ (r : RecordedRound). r.round) (take_while (carries id) rs)
unfolding rounds_from
rounds_from-map id [] = refl
rounds_from-map id (r ∷ rs) = ground (arith, rounds_from-map id rs)

-- What a stalled finding shows.
abbrev pub IsEvidence : RoundToRecord → List RecordedRound → ℕ → StalledFinding → Type 0
IsEvidence rec counted threshold s =
    Memᴰ s.id (map (λ (f : ReviewFinding). f.id) rec.findings)
    × (s.rounds ≡ rec.round ∷ trailing_rounds s.id counted)
    × (threshold ≤ length s.rounds)

module _ (round : ℕ) (counted : List RecordedRound) (threshold : ℕ) where
  stalled_from-evidence :
      (fs : List ReviewFinding) (s : StalledFinding)
      → Memᴰ s (stalled_from round counted threshold fs)
      → Memᴰ s.id (map (λ (f : ReviewFinding). f.id) fs)
        × (s.rounds ≡ round ∷ trailing_rounds s.id counted)
        × (threshold ≤ length s.rounds)
  unfolding stalled_from
  stalled_from-evidence [] s m = absurd (Memᴰ.not-nil m)
  stalled_from-evidence (f ∷ fs) s m =
      let found : StalledFinding = record {
        id = f.id;
        rounds = round ∷ rounds_from f.id (reversed counted);
      } in
      ground (
        arith,
        Memᴰ-cons s found (stalled_from round counted threshold fs),
        Memᴰ-cons s.id f.id (map (λ (g : ReviewFinding). g.id) fs),
        rounds_from-map s.id (reversed counted),
        stalled_from-evidence fs s,
      )

-- A stalled finding that is reported carries the number of the round about to be recorded, then
-- those of the rounds before it, most recent first, as long as they carry the finding's id; its
-- id is of a finding of the round, and the numbers are at least as many as the threshold.
pub stalled_findings-IsEvidence :
    (rec : RoundToRecord) (counted : List RecordedRound) (threshold : ℕ) (s : StalledFinding)
    → Memᴰ s (stalled_findings rec counted threshold)
    → IsEvidence rec counted threshold s
unfolding stalled_findings
stalled_findings-IsEvidence rec counted threshold s m =
    stalled_from-evidence rec.round counted threshold rec.findings s m
