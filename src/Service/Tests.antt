-- ===== src/Service/Tests.antt =====
-- Two calls of `init` at once, the first of which starts the run.
use counter_terrorist.Common.{ok, refl, some, ◌≡◌}
use counter_terrorist.Service.{Base, begin_init, end_init, new_service}
use counter_terrorist.Service.Once.{Lifetime, called_init, created, ended}

unfoldable twice : Base
unfolding begin_init new_service
twice = (begin_init (begin_init new_service).0).0

unfoldable ready : Base
unfolding twice end_init
ready = end_init (some (ok tt)) twice

reached : Lifetime ready
unfolding ready twice begin_init new_service
reached = ended (some (ok tt)) refl (called_init (called_init created))

runs_test : ready.runs ≡ 1
unfolding ready twice begin_init new_service end_init
runs_test = refl
