-- ===== src/Tests.antt =====
-- The theorems applied to concrete inputs, a file for each part of the program.
mod Keys
mod GovernanceRuns
mod MemberRuns
mod EngineRuns
mod TopologyRuns
mod ReconcileRuns
mod RoutingRuns
mod ProposalRuns
mod AdoptionRuns
