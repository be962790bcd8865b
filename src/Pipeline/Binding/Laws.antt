-- ===== src/Pipeline/Binding/Laws.antt =====
-- What `bindStageProvider` of packages/core/src/pipeline.ts promises of the provider it picks.
use specmate.Prelude.{
  ◌≡◌, refl, ◌≢◌, inl, inr, List, [], ◌∷◌, Option, some, Memᴰ, Memᴰ-cons, arith, beq_cases,
}
use mathlib.Core.List.Memᴰ
use specmate.Roles.{ProviderId, provider_id_eq, pick_review_provider}
use specmate.Pipeline.Nodes.{StageNode, cross_review}
use specmate.Pipeline.Binding.{bind_stage_provider, choose}

pick_review_provider-other :
    (writer : ProviderId) (available : List ProviderId) (p : ProviderId)
    → Memᴰ p available
    → p ≢ writer
    → Memᴰ (pick_review_provider writer available) available
      × (pick_review_provider writer available ≢ writer)
unfolding pick_review_provider
pick_review_provider-other writer [] p m other = absurd (Memᴰ.not-nil m)
pick_review_provider-other writer (x ∷ xs) p m other = elim (beq_cases x writer) [
  | inl (t, same) ↦
      let rest = pick_review_provider-other writer xs p (ground (arith, Memᴰ-cons p x xs)) other in
      rw (t, pick_review_provider) (Memᴰ.tail rest.0, rest.1)
  | inr (f, different) ↦ rw (f, pick_review_provider) (Memᴰ.head refl, different)
]

-- `bindStageProvider` of a stage under cross-review, where some available provider is not the
-- writer: the provider is available and is not the writer, whatever the bound one is.
pub bind_stage_provider-cross_review :
    (node : StageNode) (writer p : ProviderId) (available : List ProviderId)
    (bound : Option ProviderId)
    → node.binding ≡ cross_review
    → Memᴰ p available
    → p ≢ writer
    → Memᴰ (bind_stage_provider node (some writer) available bound) available
      × (bind_stage_provider node (some writer) available bound ≢ writer)
unfolding bind_stage_provider choose
bind_stage_provider-cross_review node writer p available bound crossed m other =
    rw crossed (pick_review_provider-other writer available p m other)
