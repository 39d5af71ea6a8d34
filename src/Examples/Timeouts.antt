-- ===== src/Examples/Timeouts.antt =====
-- Instances of the theorems about timeouts.
use cxp.Common.{◌≡◌, refl, false, some, [], ◌∷◌, arith, All, ◌⊎◌, inr}
use cxp.Common.Int.{pos}
use cxp.Common.Chain.{list_fuel}
use cxp.Common.Outcome.{done}
use cxp.Memory.{tmo_index}
use cxp.Timer.{insert_in_queue, remove_from_queue}
use cxp.Timer.Queue.{Timeouts, Inserted, insert_in_queue-Inserted}
use cxp.Timer.Search.{matches}
use cxp.Timer.Removal.{Found, remove_from_queue-Found}
use cxp.World.{World}
use cxp.Alarm.{disable_timeout, expire}
use cxp.Alarm.Guards.{disable_frees_queued}
use cxp.Alarm.Expiry.{Expired, expire-Expired}
use cxp.Examples.Machines.{world, timers, timers-Timeouts}

insert_in_queue-Inserted_example :
    Inserted timers (insert_in_queue timers 1 0 810 (pos 10)) 1 0 810 (pos 10) (800 ∷ 850 ∷ [])
unfolding list_fuel
insert_in_queue-Inserted_example =
    insert_in_queue-Inserted timers 1 0 810 (pos 10) (800 ∷ 850 ∷ []) timers-Timeouts
      ((λ e. absurd (omega (arith, e))), ((λ e. absurd (omega (arith, e))), tt)) (omega arith)

remove_from_queue-Found_example :
    Found timers 0 (pos 50) 2 (800 ∷ 850 ∷ []) (remove_from_queue timers 0 (pos 50) 2)
    ⊎ (All (λ q. matches timers (pos 50) 2 q ≡ false) (800 ∷ 850 ∷ [])
        × ((remove_from_queue timers 0 (pos 50) 2).1 ≡ timers))
remove_from_queue-Found_example =
    remove_from_queue-Found timers 0 (pos 50) 2 (800 ∷ 850 ∷ []) timers-Timeouts

disable_frees_queued_example :
    ((disable_timeout world 0 (pos 55) 1 (pos 58)).0.memory.procmemlist tmo_index ≡ some 850)
    × Timeouts (disable_timeout world 0 (pos 55) 1 (pos 58)).0.timers 0 (800 ∷ 850 ∷ [])
disable_frees_queued_example =
    disable_frees_queued world 0 (pos 55) (pos 58) 1 850 (800 ∷ 850 ∷ []) timers-Timeouts
      (refl, (refl, tt)) refl

expire-Expired_example :
    (w1 : World) × (expire list_fuel world 0 (pos 55) ≡ done w1)
    × Expired world w1 0 (pos 55) (800 ∷ 850 ∷ [])
expire-Expired_example =
    expire-Expired world 0 (pos 55) (800 ∷ 850 ∷ []) timers-Timeouts (inr refl, (inr refl, tt))
