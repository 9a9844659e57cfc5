-- ===== src/Countdown/Tests.antt =====
-- What the countdown of cw01 prints.
use sysops.Common.{◌≡◌, refl, none, [], ◌∷◌}
use sysops.Countdown.{number, count_down, main}

counts :
    main none
    ≡ number 10
      ∷ number 9
      ∷ number 8
      ∷ number 7
      ∷ number 6
      ∷ number 5
      ∷ number 4
      ∷ number 3
      ∷ number 2
      ∷ number 1
      ∷ number 0
      ∷ []
unfolding main count_down
counts = refl
