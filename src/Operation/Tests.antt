-- ===== src/Operation/Tests.antt =====
-- The theorems on the state machine at sample chains.
use zeus_insurance_bot.Prelude.{refl}
use zeus_insurance_bot.Operation.Status.{created, discovering, success}
use zeus_insurance_bot.Operation.Fsm.{Reaches, one, then}

abbrev short_chain : Reaches created success
short_chain = then {t = discovering} refl (one refl)
