-- ===== src/Guard.antt =====
-- The permission guard (src/roboz/shed/tools/guard.py and the guard models of shed/models.py).
-- Child modules: `Verdict` for the policy, `Approval` for the prompts, `Outcome` for the whole.
pub mod Policy
pub mod Approval
pub mod Decision
