-- ===== src/Pipeline/Binding.antt =====
-- The provider of a stage: `bindStageProvider` of packages/core/src/pipeline.ts.
pub mod Laws
use specmate.Prelude.{
  Bool, true, false, not, ◌||◌, List, [], ◌∷◌, Option, none, some, includes, if◌then◌else◌,
}
use specmate.Roles.{ProviderId, provider_id_eq, role_contract, pick_review_provider}
use specmate.Pipeline.Nodes.{StageNode, ProviderBinding, role_default, cross_review}

abbrev first_or : ProviderId → List ProviderId → ProviderId
first_or preferred [] = preferred
first_or preferred (p ∷ available) = p

abbrev or_default : ProviderId → Option ProviderId → ProviderId
or_default d none = d
or_default d (some bound) = bound

base_provider : StageNode → List ProviderId → Option ProviderId → ProviderId
unfolding role_contract
base_provider node available bound =
    let preferred = or_default (role_contract node.role).default_provider bound in
    if includes preferred available then preferred else first_or preferred available

choose : ProviderBinding → Option ProviderId → List ProviderId → ProviderId → ProviderId
choose role_default writer available base = base
choose cross_review none available base = base
choose cross_review (some writer) available base = pick_review_provider writer available

-- `bindStageProvider`.
unfoldable pub bind_stage_provider :
    StageNode → Option ProviderId → List ProviderId → Option ProviderId → ProviderId
unfolding choose base_provider pick_review_provider
bind_stage_provider node writer available bound =
    choose node.binding writer available (base_provider node available bound)
