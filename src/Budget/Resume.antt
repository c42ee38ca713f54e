-- ===== src/Budget/Resume.antt =====
-- apps/web/lib/step-resume.ts: when a step that ran out of time is resumed.
use circuit_agent.Prelude.{◌+◌, ◌≤◌, ◌<◌, ◌≡◌, ◌↔◌, false, arith}
use circuit_agent.Budget.{ResumeInput, resume, max_step_resumes, decide_step_resume}

-- A step is resumed exactly if its run goes on, resumes are left, and the money approved covers
-- what is spent, what is reserved and one more attempt.
pub decide_step_resume_iff :
    (input : ResumeInput)
    → ((decide_step_resume input).action ≡ resume) ↔ (
        (input.run_cancelled ≡ false)
        × (input.resumes < max_step_resumes)
        × (input.spent_rwf + input.reserved_rwf + input.next_attempt_estimate_rwf ≤ input.max_rwf))
unfolding decide_step_resume
decide_step_resume_iff input = ground arith
