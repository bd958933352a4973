-- ===== src/Domain/Funnel.antt =====
-- app/domain/funnel.py: what a stage change means for the bot switch.
use stepan.Prelude.{true, false, not, if◌then◌else◌}
use stepan.Domain.Stage.{Stage, is_manager, bot_silent}
use stepan.Domain.Lead.{Lead}

unfoldable pub apply_stage : Lead → Stage → Lead
apply_stage lead target =
    let moved = record lead { stage = target } in
    if is_manager target
    then record moved { agent_enabled = false }
    else if not (bot_silent target)
    then record moved { agent_enabled = true; agent_off_manual = false }
    else moved
